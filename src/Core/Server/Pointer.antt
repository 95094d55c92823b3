-- ===== src/Core/Server/Pointer.antt =====
-- crates/smkvm-core/src/server.rs: the pointer, and who has the cursor. `out` is the list of actions
-- that a handler returns; what is logged is left out.
use smkvm.Base.{
  ℕ, ◌+◌, ◌-◌, ◌%◌, ◌^◌, Bool, true, false, not, ◌&&◌, ◌||◌, leb, ltb, eqb, if◌then◌else◌, Option,
  none, some, List, [], ◌∷◌,
}
use smkvm.Base.Equality.{◌==◌, nat_eq}
use smkvm.Base.Int.{ℤ}
use smkvm.Base.I32
use smkvm.Base.Lists.{find, retain}
use smkvm.Layout.Model.{DeviceId, Point, Cell, Located}
use smkvm.Layout.Geometry.{Float, contains, clamp_point, map_point, point_eq}
use smkvm.Layout.Desktop.{cells}
use smkvm.Layout.Resolve.{Motion, locate, snap, resolve}
use smkvm.Proto.Msg.{enter, leave, move_to}
use smkvm.Core.Server.State.{
  PointerMode, local, captured, set_pointer_mode, warp_cursor, Action, send, here, Pending, Server,
  is_usable,
}

-- Hand the cursor to another machine.
unfoldable pub cross_to : DeviceId → Point → Located → Server → Server × List Action
cross_to target global located s =
    let left =
      if s.active == s.local then here (set_pointer_mode captured) else send s.active leave in
    if target == s.local
    then (
      record s { pending = none; last_tap = none; cursor = global; active = target; mode = local },
      left
          ∷ here (set_pointer_mode local)
          ∷ here (warp_cursor located.local.x located.local.y)
          ∷ [],
    )
    else (
      record s {
        pending = none;
        last_tap = none;
        cursor = global;
        active = target;
        mode = captured;
      },
      left ∷ send target (enter located.local s.keys s.buttons) ∷ [],
    )

abbrev pub is_captured : PointerMode → Bool
is_captured captured = true
is_captured local = false

-- Send the cursor's new position to whoever currently has it.
unfoldable pub deliver_position : Located → Server → List Action
deliver_position located s =
    if located.device == s.local
    then (if is_captured s.mode
        then here (warp_cursor located.local.x located.local.y) ∷ []
        else [])
    else send located.device (move_to located.local.x located.local.y) ∷ []

abbrev pub or_first : Option Cell → List Cell → Option Cell
or_first (some c) cs = some c
or_first none [] = none
or_first none (c ∷ cs) = some c

-- The screen of the active machine that the cursor is on, or else its first.
abbrev pub own_cell : Server → Option Cell
own_cell s =
    let mine = retain (λ c. c.device == s.active) (cells s.layout) in
    or_first (find (λ c. contains c.global s.cursor) mine) mine

-- What `may_cross` decides once double-tap has had its say.
abbrev pub held_long : DeviceId → ℕ → ℕ → Option Pending → Bool
held_long target now delay none = false
held_long target now delay (some p) = p.target == target && leb delay (now - p.since)

abbrev pub is_repeat : DeviceId → ℕ → ℕ → Option (ℕ × DeviceId) → Bool
is_repeat target now window none = false
is_repeat target now window (some t) = t.1 == target && leb (now - t.0) window

-- Is the cursor allowed through the edge it is pressed against?
unfoldable pub may_cross : DeviceId → ℕ → Server → Server × Bool
may_cross target now s =
    let delay = s.settings.switch_delay in
    let window = s.settings.switch_double_tap in
    let tapped : Server = record s { last_tap = some (now, target) } in
    let waited = eqb delay 0 || held_long target now delay s.pending in
    if eqb window 0
    then (s, waited)
    else if is_repeat target now window s.last_tap
    then (tapped, true)
    else if eqb delay 0
    then (tapped, false)
    else (tapped, waited)

-- The time at which the edge was first pressed, or now.
abbrev pub pressed_since : DeviceId → ℕ → Option Pending → ℕ
pressed_since target now none = now
pressed_since target now (some p) = if p.target == target then p.since else now

unfoldable pub hold_at_edge : DeviceId → Point → ℕ → Server → Server
hold_at_edge target at now s = record s {
  pending = some (record { target = target; since = pressed_since target now s.pending; at = at });
}

-- The counters of `advance` that only the log reads.
unfoldable pub count_move : Server → Server
count_move s =
    let r = s.reach in
    record s {
      moves = (s.moves + 1) % 2 ^ 64;
      reach = (
        (I32.min r.0.0 s.cursor.x, I32.min r.0.1 s.cursor.y),
        (I32.max r.1.0 s.cursor.x, I32.max r.1.1 s.cursor.y),
      );
    }

module _ (f : Float) where
  -- The cursor is put at `at`, and whoever has it there is told.
  unfoldable pub put_cursor : Point → Server → Server × List Action
  unfolding deliver_position
  put_cursor at s = elim (locate f at s.layout) [
    | none ↦ (record s { cursor = at }, [])
    | some located ↦ (record s { cursor = at }, deliver_position located s)
  ]

  -- Put the cursor as close to `beyond` as the current screen allows.
  unfoldable pub stop_at_edge : Point → Server → Server × List Action
  unfolding put_cursor
  stop_at_edge beyond s = elim (own_cell s) [
    | none ↦ (s, [])
    | some cell ↦
        let at = clamp_point cell.global beyond in
        if at == s.cursor then (s, []) else put_cursor at s
  ]

  -- `advance` where the motion leads to a machine that may take the cursor.
  unfoldable pub press_edge : Motion → ℕ → Server → Server × List Action
  unfolding cross_to hold_at_edge stop_at_edge may_cross
  press_edge m now s =
      let target = m.located.device in
      let r = may_cross target now s in
      if r.1
      then cross_to target m.global m.located r.0
      else stop_at_edge m.global (hold_at_edge target m.global now r.0)

  -- Move the authoritative cursor and deal with whatever that implies.
  unfoldable pub advance : ℤ → ℤ → ℕ → Server → Server × List Action
  unfolding count_move deliver_position stop_at_edge press_edge is_usable
  advance dx dy now s = elim (resolve f s.cursor dx dy s.layout) [
    | none ↦ (s, [])
    | some m ↦
        let c = count_move s in
        if m.located.device == s.active
        then (record c { pending = none; cursor = m.global }, deliver_position m.located c)
        else if not (is_usable m.located.device s)
        then stop_at_edge m.global (record c { pending = none })
        else press_edge m now c
  ]

  -- Let a waiting cursor through once its edge has been held long enough.
  unfoldable pub settle_pending : ℕ → Server → Server × List Action
  unfolding cross_to is_usable
  settle_pending now s = elim s.pending [
    | none ↦ (s, [])
    | some p ↦
        if eqb s.settings.switch_delay 0 || ltb (now - p.since) s.settings.switch_delay
        then (s, [])
        else if not (is_usable p.target s)
        then (record s { pending = none }, [])
        else elim (locate f p.at s.layout) [
          | none ↦ (record s { pending = none }, [])
          | some located ↦ cross_to p.target p.at located s
        ]
  ]

  -- The middle of a screen.
  abbrev pub centre : Cell → Point
  centre c = record {
    x = I32.add c.global.x (I32.half c.global.w);
    y = I32.add c.global.y (I32.half c.global.h);
  }

  abbrev pub warp_to : Option Located → List Action
  warp_to none = []
  warp_to (some located) = here (warp_cursor located.local.x located.local.y) ∷ []

  -- Bring the cursor back to the server's own screen.
  unfoldable pub recall_cursor : Server → Server × List Action
  recall_cursor s =
      let back : Server = record s {
        pending = none;
        last_tap = none;
        active = s.local;
        mode = local;
      } in
      elim (find (λ c. c.device == s.local) (cells s.layout)) [
        | none ↦ (back, here (set_pointer_mode local) ∷ [])
        | some cell ↦ (
          record back { cursor = centre cell },
          here (set_pointer_mode local) ∷ warp_to (locate f (centre cell) s.layout),
        )
      ]

  -- Put the cursor somewhere valid after the layout changed beneath it.
  unfoldable pub resettle : Server → Server × List Action
  unfolding cross_to
  resettle s = elim (snap f s.cursor s.layout) [
    | none ↦ (s, [])
    | some (global, located) ↦
        if located.device == s.active
        then (record s { cursor = global }, [])
        else cross_to located.device global located (record s { cursor = global })
  ]

  -- Where a position in the server's own coordinates sits globally.
  unfoldable pub local_to_global : ℤ → ℤ → Server → Option Point
  local_to_global x y s =
      let p : Point = record { x = x; y = y } in
      elim (find (λ c. contains c.local p) (retain (λ c. c.device == s.local) (cells s.layout))) [
        | none ↦ none
        | some c ↦ some (map_point f c.local c.global p)
      ]

  -- Keep the tracked cursor in step with the real one.
  unfoldable pub pointer_absolute : ℤ → ℤ → Server → Server
  unfolding local_to_global
  pointer_absolute x y s =
      if is_captured s.mode || not (s.active == s.local)
      then s
      else elim (local_to_global x y s) [ none ↦ s | some global ↦ record s { cursor = global } ]

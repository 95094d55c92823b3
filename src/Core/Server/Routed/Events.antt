-- ===== src/Core/Server/Routed/Events.antt =====
-- crates/smkvm-core/src/server.rs: every event's actions go where they belong.
use smkvm.Base.{
  ℕ, true, ◌||◌, ltb, eqb, ◌-◌, ◌≡◌, refl, ◌∙◌, Option-cases, Bool-cases, inl, inr, none,
}
use smkvm.Base.Equality.{◌==◌, ==_iff, nat_eq}
use smkvm.Base.Int.{ℤ}
use smkvm.Base.Lists.{All, find, find_holds}
use smkvm.Base.Members.{Member-All, find-Member}
use smkvm.Layout.Model.{DeviceId, Point, Cell}
use smkvm.Layout.Geometry.{Float, contains, clamp_point, point_eq}
use smkvm.Layout.Geometry.Points.{contains-clamp_point}
use smkvm.Layout.Desktop.{cells}
use smkvm.Layout.Resolve.{Motion, locate, locate_in, snap, resolve}
use smkvm.Layout.Resolve.Lands.{HasSaneCells, IsScreen, screens-IsScreen}
use smkvm.Proto.Msg.{button, wheel, key_event}
use smkvm.Core.Server.State.{
  Event, pointer_at, pointer_by, client_up, client_monitors, client_down, client_suspended,
  client_resumed, tick, Server, is_usable,
}
use smkvm.Core.Server.Placements.{refresh_reserved}
use smkvm.Core.Server.Pointer.{
  own_cell, may_cross, hold_at_edge, count_move, put_cursor, stop_at_edge, press_edge, advance,
  settle_pending, centre, warp_to, recall_cursor, resettle,
}
use smkvm.Core.Server.Handle.{
  take_monitors, on_client_up, on_client_monitors, recall_from, drop_client, on_client_down,
  suspended_client, on_client_suspended, on_client_resumed, on_button, on_wheel, on_key, handle,
}
use smkvm.Core.Server.Invariant.{Moves, Moves-after, may_cross-Moves}
use smkvm.Core.Server.Routed.{
  IsRouted, SameHolder, same_holder, cross_to-IsRouted, deliver_position-IsRouted, HasOneOwner,
  IsOwn, own_cell-IsOwn, to_active-IsRouted,
}

module _ (f : Float) where
  put_cursor-IsRouted :
      (at : Point) (own : Cell) (s c : Server)
      → HasOneOwner c.layout
      → Moves s c
      → IsOwn c own
      → contains own.global at ≡ true
      → All (IsRouted s (put_cursor f at c).0) (put_cursor f at c).1
  unfolding put_cursor locate locate_in
  put_cursor-IsRouted at own s c one (l, y, cs, a, m, k, b) mine held =
      elim (Option-cases (find (λ d. contains d.global at) (cells c.layout))) [
        | inl n ↦ rw (n, locate, put_cursor) tt
        | inr (d, n) ↦
            let there = find-Member (λ d. contains d.global at) (cells c.layout) d n in
            let holds = find_holds (λ d. contains d.global at) (cells c.layout) d n in
            let owner : d.device ≡ c.active = one at d own there mine.0 holds held ∙ mine.1 in
            rw (n, locate, put_cursor)
              (deliver_position-IsRouted (locate_in f d at) s (record c { cursor = at }) c l
                (owner ∙ a) owner)
      ]

  stop_at_edge-IsRouted :
      (beyond : Point) (s c : Server)
      → HasSaneCells c.layout
      → HasOneOwner c.layout
      → Moves s c
      → All (IsRouted s (stop_at_edge f beyond c).0) (stop_at_edge f beyond c).1
  unfolding stop_at_edge
  stop_at_edge-IsRouted beyond s c sane one same = elim (Option-cases (own_cell c)) [
    | inl e ↦ rw (e, stop_at_edge) tt
    | inr (own, e) ↦ elim (Bool-cases (clamp_point own.global beyond == c.cursor)) [
      | inl h ↦ rw (e, stop_at_edge, h) tt
      | inr h ↦
          let at = clamp_point own.global beyond in
          let mine = own_cell-IsOwn c own e in
          let usable =
            Member-All (IsScreen f (cells c.layout)) own (cells c.layout) mine.0
              (screens-IsScreen f c.layout sane) in
          rw (e, stop_at_edge, h)
            (put_cursor-IsRouted at own s c one same mine
              (contains-clamp_point own.global beyond usable.1.0.0 usable.1.0.1))
    ]
  ]

  press_edge-IsRouted :
      (m : Motion) (now : ℕ) (s c : Server)
      → HasSaneCells c.layout
      → HasOneOwner c.layout
      → Moves s c
      → All (IsRouted s (press_edge f m now c).0) (press_edge f m now c).1
  unfolding press_edge hold_at_edge
  press_edge-IsRouted m now s c sane one same =
      let target = m.located.device in
      let r = may_cross target now c in
      let moved = may_cross-Moves f target now c in
      let all = Moves-after f s c r.0 same moved in
      elim (Bool-cases r.1) [
        | inl e ↦
            rw (e, press_edge)
              (cross_to-IsRouted target m.global m.located s r.0 (same_holder s r.0 all))
        | inr e ↦
            rw (e, press_edge)
              (stop_at_edge-IsRouted m.global s (hold_at_edge target m.global now r.0)
                (rw (moved.1) sane) (rw (moved.1) one) all)
      ]

  advance-IsRouted :
      (dx dy : ℤ) (now : ℕ) (s : Server)
      → HasSaneCells s.layout
      → HasOneOwner s.layout
      → All (IsRouted s (advance f dx dy now s).0) (advance f dx dy now s).1
  unfolding advance count_move
  advance-IsRouted dx dy now s sane one = elim (Option-cases (resolve f s.cursor dx dy s.layout)) [
    | inl e ↦ rw (e, advance) tt
    | inr (m, e) ↦
        let same : Moves s (count_move s) = (refl, refl, refl, refl, refl, refl, refl) in
        elim (Bool-cases (m.located.device == s.active)) [
          | inl a ↦
              let g = (==_iff m.located.device s.active).0 a in
              rw (e, advance, a)
                (deliver_position-IsRouted m.located s
                  (record (count_move s) { pending = none; cursor = m.global }) (count_move s) refl
                  g g)
          | inr a ↦ elim (Bool-cases (is_usable m.located.device s)) [
            | inl u ↦
                rw (e, advance, a, u) (press_edge-IsRouted m now s (count_move s) sane one same)
            | inr u ↦
                rw (e, advance, a, u)
                  (stop_at_edge-IsRouted m.global s (record (count_move s) { pending = none }) sane
                    one same)
          ]
        ]
  ]

  settle_pending-IsRouted :
      (now : ℕ) (s : Server)
      → All (IsRouted s (settle_pending f now s).0) (settle_pending f now s).1
  unfolding settle_pending
  settle_pending-IsRouted now s = elim (Option-cases s.pending) [
    | inl e ↦ rw (e, settle_pending) tt
    | inr (p, e) ↦
        elim (Bool-cases
          (eqb s.settings.switch_delay 0 || ltb (now - p.since) s.settings.switch_delay)) [
            | inl a ↦ rw (e, settle_pending, a) tt
            | inr a ↦ elim (Bool-cases (is_usable p.target s)) [
              | inr u ↦ rw (e, settle_pending, a, u) tt
              | inl u ↦ elim (Option-cases (locate f p.at s.layout)) [
                | inl n ↦ rw (e, settle_pending, a, u, n) tt
                | inr (l, n) ↦
                    rw (e, settle_pending, a, u, n)
                      (cross_to-IsRouted p.target p.at l s s (refl, refl, refl, refl))
              ]
            ]
          ]
  ]

  resettle-IsRouted :
      (s c : Server) → SameHolder s c → All (IsRouted s (resettle f c).0) (resettle f c).1
  unfolding resettle
  resettle-IsRouted s c same = elim (Option-cases (snap f c.cursor c.layout)) [
    | inl e ↦ rw (e, resettle) tt
    | inr ((p, located), e) ↦ elim (Bool-cases (located.device == c.active)) [
      | inl h ↦ rw (e, resettle, h) tt
      | inr h ↦
          rw (e, resettle, h)
            (cross_to-IsRouted located.device p located s (record c { cursor = p }) same)
    ]
  ]

  recall_from-IsRouted :
      (id : DeviceId) (s c : Server)
      → c.local ≡ s.local
      → All (IsRouted s (recall_from f id c).0) (recall_from f id c).1
  unfolding recall_from recall_cursor
  recall_from-IsRouted id s c l = elim (Bool-cases (c.active == id)) [
    | inr e ↦ rw e tt
    | inl e ↦ elim (Option-cases (find (λ d. d.device == c.local) (cells c.layout))) [
      | inl n ↦ rw (e, recall_from, n, recall_cursor) (l, tt)
      | inr (home, n) ↦ elim (Option-cases (locate f (centre f home) c.layout)) [
        | inl q ↦ rw (e, recall_from, n, recall_cursor, q, warp_to) (l, tt)
        | inr (at, q) ↦ rw (e, recall_from, n, recall_cursor, q, warp_to) (l, (l, tt))
      ]
    ]
  ]

  -- On a desktop whose screens have edges within an `i32` and of which no point belongs to two
  -- machines, whatever an event makes the server say goes where it belongs. Pointer, wheel, button
  -- and key messages go to the machine that has the cursor before and after; a leave goes to the one
  -- that had it, an enter to the one that has it now, with the keys and buttons that are held; all of
  -- these only to other machines. The server's own input is captured only if its machine had the
  -- cursor, and let go of, or its cursor moved, only if its machine has it now. A machine is told
  -- to release all at any time, and nothing else is said.
  pub handle-IsRouted :
      (event : Event) (now : ℕ) (s : Server)
      → HasSaneCells s.layout
      → HasOneOwner s.layout
      → All (IsRouted s (handle f event now s).0) (handle f event now s).1
  unfolding handle on_button on_wheel on_key on_client_up on_client_monitors take_monitors
      refresh_reserved on_client_down drop_client on_client_suspended on_client_resumed
  handle-IsRouted (pointer_at x y) now s sane one = tt
  handle-IsRouted (pointer_by dx dy) now s sane one = advance-IsRouted dx dy now s sane one
  handle-IsRouted (Event.button b down) now s sane one =
      to_active-IsRouted (button b down) s (on_button b down s).0 (λ e. (refl, (refl, e)))
  handle-IsRouted (Event.wheel w) now s sane one =
      to_active-IsRouted (wheel w) s s (λ e. (refl, (refl, e)))
  handle-IsRouted (Event.key k down repeat) now s sane one =
      to_active-IsRouted (key_event k down repeat) s (on_key k down repeat s).0
        (λ e. (refl, (refl, e)))
  handle-IsRouted (client_up id name) now s sane one = (tt, tt)
  handle-IsRouted (client_monitors id ms) now s sane one =
      resettle-IsRouted s (take_monitors id ms s) (refl, refl, refl, refl)
  handle-IsRouted (client_down id) now s sane one =
      recall_from-IsRouted id s (drop_client f id s) refl
  handle-IsRouted (client_suspended id reason) now s sane one =
      recall_from-IsRouted id s (suspended_client f id s) refl
  handle-IsRouted (client_resumed id) now s sane one = tt
  handle-IsRouted tick now s sane one = settle_pending-IsRouted now s

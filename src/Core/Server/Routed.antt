-- ===== src/Core/Server/Routed.antt =====
-- crates/smkvm-core/src/server.rs: to whom the server speaks.
pub mod Events
use smkvm.Base.{
  ℕ, Bool, true, false, not, ◌&&◌, ◌||◌, leb, ltb, eqb, ◌-◌, ◌≡◌, refl, sym, ap, ◌∙◌, is_none,
  if◌then◌else◌, Option-cases, Bool-cases, inl, inr, Option, none, some, List, [], ◌∷◌, arith,
}
use smkvm.Base.Equality.{◌==◌, ==_iff, ==_refl, nat_eq}
use smkvm.Base.Int.{ℤ}
use smkvm.Base.Lists.{All, All-retain, All-find, All_both, find, find_holds, retain}
use smkvm.Base.Members.{Member, All_Members, Member-All, find-Member}
use smkvm.Layout.Model.{DeviceId, Point, Cell, Located, Layout}
use smkvm.Layout.Geometry.{Float, contains, clamp_point, point_eq}
use smkvm.Layout.Geometry.Points.{contains-clamp_point}
use smkvm.Layout.Desktop.{cells}
use smkvm.Layout.Resolve.{Motion, locate, locate_in, snap, resolve}
use smkvm.Layout.Resolve.Lands.{HasSaneCells, IsScreen, screens-IsScreen}
use smkvm.Proto.Msg.{ServerControl, enter, leave, move_to, button, wheel, key_event, release_all}
use smkvm.Core.Server.State.{
  PointerMode, local, captured, LocalAction, set_pointer_mode, warp_cursor, Action, send, here,
  Event, pointer_at, pointer_by, client_up, client_monitors, client_down, client_suspended,
  client_resumed, tick, Pending, Server, is_usable,
}
use smkvm.Core.Server.Placements.{refresh_reserved}
use smkvm.Core.Server.Pointer.{
  cross_to, is_captured, deliver_position, own_cell, or_first, may_cross, hold_at_edge, count_move,
  put_cursor, stop_at_edge, press_edge, advance, settle_pending, centre, warp_to, recall_cursor,
  resettle, pointer_absolute,
}
use smkvm.Core.Server.Handle.{
  to_active, take_monitors, on_client_up, on_client_monitors, recall_from, drop_client,
  on_client_down, suspended_client, on_client_suspended, on_client_resumed, on_button, on_wheel,
  on_key, handle,
}
use smkvm.Core.Server.Invariant.{Moves, Moves-after, stop_at_edge-Moves, may_cross-Moves}

-- The machine is another one than the server's.
abbrev pub IsAway : Server → DeviceId → Type 0
IsAway s d = (d == s.local) ≡ false

-- An action of a step that leads from one server to another goes where it belongs.
abbrev pub IsRouted : Server → Server → Action → Type 0
IsRouted s t (send d leave) = (d ≡ s.active) × IsAway s d
IsRouted s t (send d (enter at ks bs)) =
    (d ≡ t.active) × (IsAway s d × ((ks ≡ s.keys) × (bs ≡ s.buttons)))
IsRouted s t (send d (move_to x y)) = (d ≡ s.active) × ((d ≡ t.active) × IsAway s d)
IsRouted s t (send d (button b down)) = (d ≡ s.active) × ((d ≡ t.active) × IsAway s d)
IsRouted s t (send d (wheel w)) = (d ≡ s.active) × ((d ≡ t.active) × IsAway s d)
IsRouted s t (send d (key_event k down r)) = (d ≡ s.active) × ((d ≡ t.active) × IsAway s d)
IsRouted s t (send d release_all) = Unit
IsRouted s t (send d _) = ⊥
IsRouted s t (here (set_pointer_mode captured)) = s.active ≡ s.local
IsRouted s t (here (set_pointer_mode local)) = t.active ≡ s.local
IsRouted s t (here (warp_cursor x y)) = t.active ≡ s.local
IsRouted s t (here LocalAction.release_all) = ⊥

-- What `cross_to` reads of the server.
abbrev pub SameHolder : Server → Server → Type 0
SameHolder s c =
    (c.local ≡ s.local) × (c.active ≡ s.active) × (c.keys ≡ s.keys) × (c.buttons ≡ s.buttons)

pub same_holder : (s c : Server) → Moves s c → SameHolder s c
same_holder s c (l, y, cs, a, m, k, b) = (l, a, k, b)

-- The move may be made on a server that differs in what a handler notes on the way.
cross_to-IsRouted :
    (target : DeviceId) (global : Point) (located : Located) (s c : Server)
    → SameHolder s c
    → All (IsRouted s (cross_to target global located c).0) (cross_to target global located c).1
unfolding cross_to
cross_to-IsRouted target global located s c (l, a, k, b) = elim (Bool-cases (s.active == s.local)) [
  | inl h ↦
      let home = (==_iff s.active s.local).0 h in
      elim (Bool-cases (target == s.local)) [
        | inl e ↦ let g = (==_iff target s.local).0 e in rw (l, a, h, e) (home, (g, (g, tt)))
        | inr e ↦ rw (l, a, h, e) (home, ((refl, (e, (k, b))), tt))
      ]
  | inr h ↦ elim (Bool-cases (target == s.local)) [
    | inl e ↦ let g = (==_iff target s.local).0 e in rw (l, a, h, e) ((refl, h), (g, (g, tt)))
    | inr e ↦ rw (l, a, h, e) ((refl, h), ((refl, (e, (k, b))), tt))
  ]
]

deliver_position-IsRouted :
    (located : Located) (s t c : Server)
    → c.local ≡ s.local
    → located.device ≡ s.active
    → located.device ≡ t.active
    → All (IsRouted s t) (deliver_position located c)
unfolding deliver_position
deliver_position-IsRouted located s t c l a b = elim (Bool-cases (located.device == s.local)) [
  | inl e ↦ elim (Bool-cases (is_captured c.mode)) [
    | inl m ↦ rw (l, e, m) (sym b ∙ (==_iff located.device s.local).0 e, tt)
    | inr m ↦ rw (l, e, m) tt
  ]
  | inr e ↦ rw (l, e) ((a, (b, e)), tt)
]

-- A point belongs to one machine only.
abbrev pub HasOneOwner : Layout → Type 0
HasOneOwner l =
    (p : Point) (c d : Cell)
    → Member c (cells l)
    → Member d (cells l)
    → contains c.global p ≡ true
    → contains d.global p ≡ true
    → c.device ≡ d.device

abbrev IsOwn : Server → Cell → Type 0
IsOwn s c = Member c (cells s.layout) × (c.device ≡ s.active)

own_cell-IsOwn : (s : Server) (c : Cell) → own_cell s ≡ some c → IsOwn s c
own_cell-IsOwn s c h =
    let mine = retain (λ c. c.device == s.active) (cells s.layout) in
    let all : All (IsOwn s) mine =
      All-retain (λ c. Member c (cells s.layout)) (IsOwn s) (λ c. c.device == s.active)
        (cells s.layout) (λ c t m. (m, (==_iff c.device s.active).0 t))
        (All_Members (cells s.layout)) in
    elim (Option-cases (find (λ c. contains c.global s.cursor) mine)) [
      | inl e ↦ first mine all (rw (e, own_cell) at h)
      | inr (d, e) ↦ All-find (IsOwn s) _ mine c (e ∙ (rw (e, own_cell) at h)) all
    ]
  where
    first : (cs : List Cell) → All (IsOwn s) cs → or_first none cs ≡ some c → IsOwn s c
    first [] a e = cc
    first (d ∷ cs) a e = let q : d ≡ c = cc in rw (← q) (a.0)

to_active-IsRouted :
    (msg : ServerControl) (s t : Server)
    → ((s.active == s.local) ≡ false → IsRouted s t (send s.active msg))
    → All (IsRouted s t) (to_active msg s)
to_active-IsRouted msg s t h = elim (Bool-cases (s.active == s.local)) [
  | inl e ↦ rw e tt
  | inr e ↦ rw e (h e, tt)
]

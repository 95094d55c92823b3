-- ===== src/Core/Server/Usable.antt =====
-- crates/smkvm-core/src/server.rs: the machine that has the cursor may have it.
use smkvm.Base.{ℕ, Bool, true, false, ◌≡◌, refl, is_none, Option-cases, Bool-cases, inl, inr, arith}
use smkvm.Base.Equality.{◌==◌, ==_refl, nat_eq}
use smkvm.Base.Lists.{find}
use smkvm.Base.Maps
use smkvm.Layout.Model.{DeviceId, Point, Located}
use smkvm.Layout.Geometry.{Float, point_eq}
use smkvm.Layout.Desktop.{cells, set_reserved}
use smkvm.Core.Server.State.{
  Event, pointer_at, pointer_by, client_up, client_monitors, client_down, client_suspended,
  client_resumed, tick, ready, suspended, Server, is_usable,
}
use smkvm.Core.Server.Placements.{refresh_reserved}
use smkvm.Core.Server.Pointer.{cross_to, recall_cursor, pointer_absolute}
use smkvm.Core.Server.Handle.{
  on_client_up, recall_from, drop_client, on_client_down, on_client_suspended, on_client_resumed,
  handle, suspended_client, on_button, on_wheel, on_key,
}
use smkvm.Core.Server.Invariant.{Moves, pointer_absolute-Moves, advance_keeps, settle_pending_keeps}

abbrev pub ActiveUsable : Server → Type 0
ActiveUsable s = is_usable s.active s ≡ true

Moves-ActiveUsable : (s t : Server) → Moves s t → ActiveUsable s → ActiveUsable t
unfolding is_usable
Moves-ActiveUsable s t (l, d, c, a, m, k, b) h = rw (a, l, c) h

crosses-ActiveUsable :
    (target : DeviceId) (global : Point) (located : Located) (s : Server)
    → is_usable target s ≡ true
    → ActiveUsable s
    → ActiveUsable (cross_to target global located s).0
unfolding cross_to is_usable
crosses-ActiveUsable target global located s u h = elim (Bool-cases (target == s.local)) [
  | inl e ↦ rw e u
  | inr e ↦ rw e u
]

-- The events at which the cursor is not moved for the sake of the desktop's shape.
abbrev pub is_report : Event → Bool
is_report (client_monitors id ms) = true
is_report _ = false

ready-insert :
    (id j : DeviceId) (s : Server)
    → is_usable j s ≡ true
    → is_usable j (record s { clients = Maps.insert id ready s.clients }) ≡ true
unfolding is_usable
ready-insert id j s u =
    rw (Maps.get-insert id j ready s.clients)
      (elim (Bool-cases (id == j)) [ inl e ↦ rw e (ground arith) | inr e ↦ rw e u ])

module _ (f : Float) where
  recall_from-ActiveUsable :
      (id : DeviceId) (s : Server)
      → ((s.active == id) ≡ false → ActiveUsable s)
      → ActiveUsable (recall_from f id s).0
  unfolding recall_from recall_cursor is_usable
  recall_from-ActiveUsable id s h = elim (Bool-cases (s.active == id)) [
    | inr e ↦ rw e (h e)
    | inl e ↦
        let own = ==_refl s.local in
        elim (Option-cases (find (λ c. c.device == s.local) (cells s.layout))) [
          | inl n ↦ rw (e, recall_from, n, recall_cursor, own) refl
          | inr (c, n) ↦ rw (e, recall_from, n, recall_cursor, own) refl
        ]
  ]

  -- No event but a report of monitors puts the cursor where it may not be: if it was with the
  -- server's own machine or with one that is connected and not suspended, it still is afterwards.
  -- So a machine that goes away or is suspended gives the cursor back, and none takes it that may
  -- not have it.
  pub handle-ActiveUsable :
      (event : Event) (now : ℕ) (s : Server)
      → is_report event ≡ false
      → ActiveUsable s
      → ActiveUsable (handle f event now s).0
  unfolding handle on_button on_wheel on_key on_client_up on_client_down drop_client
      refresh_reserved set_reserved on_client_suspended on_client_resumed is_usable
  handle-ActiveUsable (pointer_at x y) now s r h =
      Moves-ActiveUsable s (pointer_absolute f x y s) (pointer_absolute-Moves f x y s) h
  handle-ActiveUsable (pointer_by dx dy) now s r h =
      advance_keeps f ActiveUsable Moves-ActiveUsable crosses-ActiveUsable dx dy now s h
  handle-ActiveUsable (Event.button b down) now s r h = h
  handle-ActiveUsable (Event.wheel w) now s r h = h
  handle-ActiveUsable (Event.key k down repeat) now s r h = h
  handle-ActiveUsable (client_up id name) now s r h = ready-insert id s.active s h
  handle-ActiveUsable (client_monitors id ms) now s r h = cc
  handle-ActiveUsable (client_down id) now s r h =
      recall_from-ActiveUsable id (drop_client f id s)
        (λ n. rw (Maps.get-remove id s.active s.clients, n) h)
  handle-ActiveUsable (client_suspended id reason) now s r h =
      recall_from-ActiveUsable id (suspended_client f id s) (λ n.
        let apart : (id == s.active) ≡ false =
          ground (arith, nat_eq.same_iff id s.active, nat_eq.same_iff s.active id) in
        rw (Maps.get-insert id s.active suspended s.clients, apart) h)
  handle-ActiveUsable (client_resumed id) now s r h =
      elim (Bool-cases (is_none (Maps.get id s.clients))) [
        | inl e ↦ rw e h
        | inr e ↦ rw e (ready-insert id s.active s h)
      ]
  handle-ActiveUsable tick now s r h =
      settle_pending_keeps f ActiveUsable Moves-ActiveUsable crosses-ActiveUsable now s h

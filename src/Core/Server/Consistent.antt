-- ===== src/Core/Server/Consistent.antt =====
-- crates/smkvm-core/src/server.rs: every event leaves the server consistent.
use smkvm.Base.{
  ℕ, true, false, not, ◌||◌, ◌≡◌, refl, is_none, Option-cases, Bool-cases, inl, inr, List, [],
  arith, String,
}
use smkvm.Base.Equality.{◌==◌, ==_refl, nat_eq}
use smkvm.Base.Lists.{find}
use smkvm.Base.Maps
use smkvm.Layout.Model.{DeviceId, Layout}
use smkvm.Layout.Geometry.{Float, point_eq}
use smkvm.Layout.Desktop.{device, cells, report_monitors, set_online, set_reserved}
use smkvm.Layout.Desktop.Places.{HasDistinctIds}
use smkvm.Layout.Desktop.Identities.{report_monitors-HasDistinctIds, modify-HasDistinctIds}
use smkvm.Layout.Resolve.{snap}
use smkvm.Core.Server.State.{
  new, Event, pointer_at, pointer_by, client_up, client_monitors, client_down, client_suspended,
  client_resumed, tick, Placement, Settings, ready, suspended, Server,
}
use smkvm.Core.Server.Placements.{refresh_reserved, set_placements}
use smkvm.Core.Server.Pointer.{recall_cursor, resettle, pointer_absolute}
use smkvm.Core.Server.Handle.{
  take_monitors, on_client_monitors, recall_from, drop_client, on_client_down, on_client_suspended,
  on_client_resumed, handle, reconfigure, with_settings, on_button, on_wheel, on_key,
}
use smkvm.Core.Server.Online.{
  OnlineKnown, OnlineKnown-mono, modify-OnlineKnown, report_monitors-OnlineKnown,
  offline-OnlineKnown, snap_known,
}
use smkvm.Core.Server.Invariant.{
  is_known, HasCursor, HasDesktop, IsConsistent, Moves-IsConsistent, cross_to-IsConsistent,
  pointer_absolute-Moves, advance_keeps, settle_pending_keeps,
}
use smkvm.Core.Server.Arrivals.{
  crosses-IsConsistent, grown-HasCursor, known-insert, on_client_up-IsConsistent,
  take_monitors-IsConsistent, set_placements-IsConsistent,
}

module _ (f : Float) where
  resettle-IsConsistent : (s : Server) → IsConsistent s → IsConsistent (resettle f s).0
  unfolding resettle
  resettle-IsConsistent s h = elim (Option-cases (snap f s.cursor s.layout)) [
    | inl e ↦ rw (e, resettle) h
    | inr ((p, located), e) ↦ elim (Bool-cases (located.device == s.active)) [
      | inl a ↦ rw (e, resettle, a) h
      | inr a ↦
          rw (e, resettle, a)
            (cross_to-IsConsistent located.device p located (record s { cursor = p })
              (snap_known f (is_known s) s.cursor p located s.layout h.1.0 e) h.1)
    ]
  ]

  recall_cursor-HasCursor : (s : Server) → HasCursor (recall_cursor f s).0
  unfolding recall_cursor
  recall_cursor-HasCursor s =
      let own = ==_refl s.local in
      elim (Option-cases (find (λ c. c.device == s.local) (cells s.layout))) [
        | inl e ↦ rw (e, recall_cursor, own) (refl, refl)
        | inr (c, e) ↦ rw (e, recall_cursor, own) (refl, refl)
      ]

  recall_cursor-HasDesktop : (s : Server) → HasDesktop s → HasDesktop (recall_cursor f s).0
  unfolding recall_cursor
  recall_cursor-HasDesktop s h =
      elim (Option-cases (find (λ c. c.device == s.local) (cells s.layout))) [
        | inl e ↦ rw (e, recall_cursor) h
        | inr (c, e) ↦ rw (e, recall_cursor) h
      ]

  -- Where the cursor was not with the machine, it stays where it is.
  recall_from-IsConsistent :
      (id : DeviceId) (s : Server)
      → ((s.active == id) ≡ false → HasCursor s)
      → HasDesktop s
      → IsConsistent (recall_from f id s).0
  unfolding recall_from
  recall_from-IsConsistent id s c h = elim (Bool-cases (s.active == id)) [
    | inl e ↦ rw e (recall_cursor-HasCursor s, recall_cursor-HasDesktop s h)
    | inr e ↦ rw e (c e, h)
  ]

  known-remove :
      (id j : DeviceId) (s : Server)
      → (j == id) ≡ false
      → is_known s j ≡ true
      → (j == s.local || not (is_none (Maps.get j (Maps.remove id s.clients)))) ≡ true
  known-remove id j s n k = rw (Maps.get-remove id j s.clients, n) k

  on_client_down-IsConsistent :
      (id : DeviceId) (s : Server) → IsConsistent s → IsConsistent (on_client_down f id s).0
  unfolding on_client_down drop_client refresh_reserved set_reserved set_online
  on_client_down-IsConsistent id s h =
      let t = drop_client f id s in
      recall_from-IsConsistent id t (λ n. (h.0.0, known-remove id s.active s n h.0.1))
        (
          offline-OnlineKnown (is_known s) (is_known t) id s.layout.devices
              (λ j n k.
                known-remove id j s (ground (arith, nat_eq.same_iff id j, nat_eq.same_iff j id)) k)
              h.1.1 h.1.0,
          modify-HasDistinctIds id _ s.layout.devices (λ d. refl) h.1.1,
        )

  on_client_suspended-IsConsistent :
      (id : DeviceId) (s : Server) → IsConsistent s → IsConsistent (on_client_suspended f id s).0
  unfolding on_client_suspended
  on_client_suspended-IsConsistent id s h =
      let t : Server = record s { clients = Maps.insert id suspended s.clients } in
      let grows : (j : DeviceId) → is_known s j ≡ true → is_known t j ≡ true =
        λ j k. known-insert id j suspended s k in
      recall_from-IsConsistent id _ (λ n. grown-HasCursor s t refl refl refl grows h.0)
        (OnlineKnown-mono (is_known s) (is_known t) s.layout.devices grows h.1.0, h.1.1)

  on_client_resumed-IsConsistent :
      (id : DeviceId) (s : Server) → IsConsistent s → IsConsistent (on_client_resumed f id s).0
  unfolding on_client_resumed
  on_client_resumed-IsConsistent id s h = elim (Bool-cases (is_none (Maps.get id s.clients))) [
    | inl e ↦ rw e h
    | inr e ↦
        let t : Server = record s { clients = Maps.insert id ready s.clients } in
        let grows : (j : DeviceId) → is_known s j ≡ true → is_known t j ≡ true =
          λ j k. known-insert id j ready s k in
        rw e (
          grown-HasCursor s t refl refl refl grows h.0,
          (OnlineKnown-mono (is_known s) (is_known t) s.layout.devices grows h.1.0, h.1.1),
        )
  ]

  -- Every event leaves the server consistent: its input is captured exactly while another machine
  -- has the cursor, the cursor is with its own machine or with one that is connected, the machines
  -- that the desktop shows as online are its own and connected ones, and no two have one identity.
  pub handle-IsConsistent :
      (event : Event) (now : ℕ) (s : Server)
      → IsConsistent s
      → IsConsistent (handle f event now s).0
  unfolding handle on_button on_wheel on_key on_client_monitors
  handle-IsConsistent (pointer_at x y) now s h =
      Moves-IsConsistent s (pointer_absolute f x y s) (pointer_absolute-Moves f x y s) h
  handle-IsConsistent (pointer_by dx dy) now s h =
      advance_keeps f IsConsistent Moves-IsConsistent crosses-IsConsistent dx dy now s h
  handle-IsConsistent (Event.button b down) now s h = h
  handle-IsConsistent (Event.wheel w) now s h = h
  handle-IsConsistent (Event.key k down repeat) now s h = h
  handle-IsConsistent (client_up id name) now s h = on_client_up-IsConsistent id name s h
  handle-IsConsistent (client_monitors id ms) now s h =
      resettle-IsConsistent (take_monitors id ms s) (take_monitors-IsConsistent id ms s h)
  handle-IsConsistent (client_down id) now s h = on_client_down-IsConsistent id s h
  handle-IsConsistent (client_suspended id reason) now s h = on_client_suspended-IsConsistent id s h
  handle-IsConsistent (client_resumed id) now s h = on_client_resumed-IsConsistent id s h
  handle-IsConsistent tick now s h =
      settle_pending_keeps f IsConsistent Moves-IsConsistent crosses-IsConsistent now s h

  -- Taking a changed configuration into use leaves the server consistent.
  pub reconfigure-IsConsistent :
      (ps : List Placement) (settings : Settings) (s : Server)
      → IsConsistent s
      → IsConsistent (reconfigure f ps settings s).0
  unfolding reconfigure
  reconfigure-IsConsistent ps settings s h =
      let t = with_settings f settings s in
      resettle-IsConsistent (set_placements ps t) (set_placements-IsConsistent ps t h)

set_online-new :
    (id : DeviceId) (l : Layout)
    → OnlineKnown (λ j. j == id || false) l.devices
    → HasDistinctIds l.devices
    → OnlineKnown (λ j. j == id || false) (set_online id true l).devices
      × HasDistinctIds (set_online id true l).devices
unfolding set_online
set_online-new id l a h =
    let own : (id == id || false) ≡ true = rw (==_refl id) refl in
    (
      modify-OnlineKnown (λ j. j == id || false) id _ l.devices (λ d. refl) own a,
      modify-HasDistinctIds id _ l.devices (λ d. refl) h,
    )

-- A server starts consistent, on a desktop of which no other machine is online and no two machines
-- have one identity.
pub new-IsConsistent :
    (id : DeviceId) (name : String) (l : Layout) (settings : Settings)
    → OnlineKnown (λ j. j == id || false) l.devices
    → HasDistinctIds l.devices
    → IsConsistent (new id name l settings)
unfolding new Maps.get
new-IsConsistent id name l settings a h =
    let own : (id == id || false) ≡ true = rw (==_refl id) refl in
    elim (Bool-cases (is_none (device id l))) [
      | inl e ↦
          rw (e, new)
            (
              (==_refl id, own),
              set_online-new id
                  (record ((report_monitors id name [] l).0) {
                    edge_overflow = settings.edge_overflow;
                  })
                  (report_monitors-OnlineKnown (λ j. j == id || false) id name [] l own a)
                  (report_monitors-HasDistinctIds id name [] l h),
            )
      | inr e ↦
          rw (e, new)
            (
              (==_refl id, own),
              set_online-new id (record l { edge_overflow = settings.edge_overflow }) a h,
            )
    ]

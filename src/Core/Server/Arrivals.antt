-- ===== src/Core/Server/Arrivals.antt =====
-- crates/smkvm-core/src/server.rs: machines that arrive, report and are placed leave the server consistent.
use smkvm.Base.{
  Bool, true, not, ◌||◌, ◌≡◌, refl, ◌∙◌, is_none, Option-cases, Bool-cases, inl, inr, List, [], map,
  arith, String,
}
use smkvm.Base.Equality.{◌==◌, ==_refl, nat_eq}
use smkvm.Base.Maps
use smkvm.Layout.Model.{DeviceId, Point, Monitor, Device, Located, Layout}
use smkvm.Layout.Geometry.{point_eq}
use smkvm.Layout.Desktop.{device, report_monitors, set_reserved}
use smkvm.Layout.Desktop.Places.{HasDistinctIds}
use smkvm.Layout.Desktop.Identities.{report_monitors-HasDistinctIds, modify-HasDistinctIds}
use smkvm.Core.Server.State.{Placement, ClientHealth, ready, Server, is_usable}
use smkvm.Core.Server.Placements.{refresh_reserved, apply_placements, apply_each, set_placements}
use smkvm.Core.Server.Pointer.{cross_to}
use smkvm.Core.Server.Handle.{introduce, take_monitors, on_client_up, or_ready, name_or_short}
use smkvm.Core.Server.Online.{
  OnlineKnown, OnlineKnown-mono, modify-OnlineKnown, report_monitors-OnlineKnown,
  devices-apply_placements, devices-apply_each, devices-auto_place,
}
use smkvm.Core.Server.Invariant.{is_known, HasCursor, IsConsistent, cross_to-IsConsistent}

usable_known : (id : DeviceId) (s : Server) → is_usable id s ≡ true → is_known s id ≡ true
unfolding is_usable
usable_known id s u = elim (Option-cases (Maps.get id s.clients)) [
  | inl e ↦ let g = rw (e, is_usable) at u in rw e g
  | inr (h, e) ↦ rw e (ground arith)
]

pub crosses-IsConsistent :
    (target : DeviceId) (global : Point) (located : Located) (s : Server)
    → is_usable target s ≡ true
    → IsConsistent s
    → IsConsistent (cross_to target global located s).0
crosses-IsConsistent target global located s u h =
    cross_to-IsConsistent target global located s (usable_known target s u) h.1

-- The same machines are known, and perhaps more.
pub grown-HasCursor :
    (s t : Server)
    → t.active ≡ s.active
    → t.local ≡ s.local
    → t.mode ≡ s.mode
    → ((id : DeviceId) → is_known s id ≡ true → is_known t id ≡ true)
    → HasCursor s
    → HasCursor t
grown-HasCursor s t a l m g h = rw (a, l, m) (h.0, (let k = g s.active h.1 in rw l at k))

introduce-HasDesktop :
    (known : DeviceId → Bool) (id : DeviceId) (name : String) (l : Layout)
    → known id ≡ true
    → OnlineKnown known l.devices
    → HasDistinctIds l.devices
    → OnlineKnown known (introduce id name l).devices × HasDistinctIds (introduce id name l).devices
introduce-HasDesktop known id name l k a h = elim (Bool-cases (is_none (device id l))) [
  | inl e ↦
      rw (e, introduce)
        (
          report_monitors-OnlineKnown known id name [] l k a,
          report_monitors-HasDistinctIds id name [] l h,
        )
  | inr e ↦
      rw (e, introduce)
        (
          modify-OnlineKnown known id _ l.devices (λ d. refl) k a,
          modify-HasDistinctIds id _ l.devices (λ d. refl) h,
        )
]

pub known-insert :
    (id j : DeviceId) (h : ClientHealth) (s : Server)
    → is_known s j ≡ true
    → (j == s.local || not (is_none (Maps.get j (Maps.insert id h s.clients)))) ≡ true
known-insert id j h s k = rw (Maps.get-insert id j h s.clients) (ground arith)

inserted :
    (id : DeviceId) (h : ClientHealth) (s : Server)
    → (id == s.local || not (is_none (Maps.get id (Maps.insert id h s.clients)))) ≡ true
inserted id h s = rw (Maps.get-insert id id h s.clients, ==_refl id) (ground arith)

known-or_ready :
    (id j : DeviceId) (s : Server)
    → is_known s j ≡ true
    → (j == s.local || not (is_none (Maps.get j (or_ready id s.clients)))) ≡ true
known-or_ready id j s k = elim (Bool-cases (is_none (Maps.get id s.clients))) [
  | inl e ↦ rw e (known-insert id j ready s k)
  | inr e ↦ rw e k
]

or_ready_known :
    (id : DeviceId) (s : Server)
    → (id == s.local || not (is_none (Maps.get id (or_ready id s.clients)))) ≡ true
or_ready_known id s = elim (Bool-cases (is_none (Maps.get id s.clients))) [
  | inl e ↦ rw e (inserted id ready s)
  | inr e ↦ rw e (ground arith)
]

pub on_client_up-IsConsistent :
    (id : DeviceId) (name : String) (s : Server)
    → IsConsistent s
    → IsConsistent (on_client_up id name s).0
unfolding on_client_up
on_client_up-IsConsistent id name s h =
    let t = (on_client_up id name s).0 in
    let grows : (j : DeviceId) → is_known s j ≡ true → is_known t j ≡ true =
      λ j k. known-insert id j ready s k in
    (
      grown-HasCursor s t refl refl refl grows h.0,
      introduce-HasDesktop (is_known t) id name s.layout (inserted id ready s)
          (OnlineKnown-mono (is_known s) (is_known t) s.layout.devices grows h.1.0) h.1.1,
    )

pub take_monitors-IsConsistent :
    (id : DeviceId) (ms : List Monitor) (s : Server)
    → IsConsistent s
    → IsConsistent (take_monitors id ms s)
unfolding take_monitors refresh_reserved set_reserved
take_monitors-IsConsistent id ms s h =
    let t = take_monitors id ms s in
    let grows : (j : DeviceId) → is_known s j ≡ true → is_known t j ≡ true =
      λ j k. known-or_ready id j s k in
    let name = name_or_short id (device id s.layout) in
    let l1 = (report_monitors id name ms s.layout).0 in
    let same =
      devices-auto_place (apply_placements id s.placements l1)
      ∙ devices-apply_placements id s.placements l1 in
    (
      grown-HasCursor s t refl refl refl grows h.0,
      rw same (
        report_monitors-OnlineKnown (is_known t) id name ms s.layout (or_ready_known id s)
            (OnlineKnown-mono (is_known s) (is_known t) s.layout.devices grows h.1.0),
        report_monitors-HasDistinctIds id name ms s.layout h.1.1,
      ),
    )

pub set_placements-IsConsistent :
    (ps : List Placement) (s : Server) → IsConsistent s → IsConsistent (set_placements ps s)
unfolding set_placements refresh_reserved set_reserved
set_placements-IsConsistent ps s h =
    let ids = map (λ (d : Device). d.id) s.layout.devices in
    rw (devices-auto_place (apply_each ids ps s.layout) ∙ devices-apply_each ids ps s.layout) h

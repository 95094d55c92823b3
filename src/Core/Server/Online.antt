-- ===== src/Core/Server/Online.antt =====
-- crates/smkvm-core/src/server.rs: which machines the desktop shows as online.
use smkvm.Base.{
  ℕ, Bool, true, false, ◌≡◌, refl, sym, ap, ◌∙◌, Option-cases, Bool-cases, inl, inr, some, List, [],
  ◌∷◌, arith, String,
}
use smkvm.Base.Equality.{◌==◌, ==_iff, nat_eq, string_eq}
use smkvm.Base.Lists.{
  All, All-append, All-map, All-find, All-enumerate, All-min_by, find, enumerate,
}
use smkvm.Base.Members.{Member, Member-All, All_if_Member}
use smkvm.Layout.Model.{DeviceId, Point, Monitor, Device, Cell, Located, Rect, Layout}
use smkvm.Layout.Geometry.{Float, is_empty, contains}
use smkvm.Layout.Resolve.{snap, locate_in, nearest_index}
use smkvm.Layout.Desktop.{
  cells, device, modify, new_device, report_monitors, place_rect, monitor_of, auto_place, unplaced,
}
use smkvm.Layout.Desktop.Cells.{IsShown, cells-IsShown}
use smkvm.Layout.Desktop.Places.{HasDistinctIds, devices-auto_place_all}
use smkvm.Layout.Desktop.Reports.{KeepsId}
use smkvm.Core.Server.State.{Placement}
use smkvm.Core.Server.Placements.{wanted, apply_one, apply_all, apply_placements, apply_each}

-- The machines that are online are among those known.
abbrev pub OnlineKnown : (DeviceId → Bool) → List Device → Type 0
OnlineKnown known ds = All (λ (d : Device). d.online ≡ true → known (d.id) ≡ true) ds

pub OnlineKnown-mono :
    (known more : DeviceId → Bool) (ds : List Device)
    → ((id : DeviceId) → known id ≡ true → more id ≡ true)
    → OnlineKnown known ds
    → OnlineKnown more ds
OnlineKnown-mono known more ds h a =
    All-map (λ (d : Device). d.online ≡ true → known (d.id) ≡ true)
      (λ (d : Device). d.online ≡ true → more (d.id) ≡ true) (λ d k on. h d.id (k on)) ds a

pub modify-OnlineKnown :
    (known : DeviceId → Bool) (id : DeviceId) (f : Device → Device) (ds : List Device)
    → KeepsId f
    → known id ≡ true
    → OnlineKnown known ds
    → OnlineKnown known (modify id f ds)
unfolding modify
modify-OnlineKnown known id f [] k h a = tt
modify-OnlineKnown known id f (d ∷ ds) k h a = elim (Bool-cases (d.id == id)) [
  | inl e ↦
      let same : known (f d).id ≡ true = ap known (k d ∙ (==_iff d.id id).0 e) ∙ h in
      rw e ((λ on. same), a.1)
  | inr e ↦ rw e (a.0, modify-OnlineKnown known id f ds k h a.1)
]

pub report_monitors-OnlineKnown :
    (known : DeviceId → Bool) (id : DeviceId) (name : String) (monitors : List Monitor) (l : Layout)
    → known id ≡ true
    → OnlineKnown known l.devices
    → OnlineKnown known (report_monitors id name monitors l).0.devices
unfolding report_monitors device new_device
report_monitors-OnlineKnown known id name monitors l h a = elim (Option-cases (device id l)) [
  | inl e ↦
      rw (e, report_monitors)
        (All-append (λ (d : Device). d.online ≡ true → known (d.id) ≡ true) l.devices _ a
          ((λ on. h), tt))
  | inr (d, e) ↦ rw (e, report_monitors) (modify-OnlineKnown known id _ l.devices (λ d. refl) h a)
]

-- A machine that goes off is not online any more, so that it need not be known.
pub offline-OnlineKnown :
    (known less : DeviceId → Bool) (id : DeviceId) (ds : List Device)
    → ((j : DeviceId) → (id == j) ≡ false → known j ≡ true → less j ≡ true)
    → HasDistinctIds ds
    → OnlineKnown known ds
    → OnlineKnown less (modify id (λ d. record d { online = false }) ds)
unfolding modify
offline-OnlineKnown known less id [] h u a = tt
offline-OnlineKnown known less id (d ∷ ds) h u a = elim (Bool-cases (d.id == id)) [
  | inl e ↦
      let q : id ≡ d.id = sym ((==_iff d.id id).0 e) in
      rw e (
        (λ on. cc),
        All-map2 ds (λ x apart k on. h x.id (ap (λ i. i == x.id) q ∙ apart) (k on)) u.0 a.1,
      )
  | inr e ↦ rw e (
    (λ on. h d.id (ground (arith, nat_eq.same_iff d.id id, nat_eq.same_iff id d.id)) (a.0 on)),
    offline-OnlineKnown known less id ds h u.1 a.1,
  )
]
  where
    All-map2 :
        (ds : List Device)
        → ((x : Device)
            → (d.id == x.id) ≡ false
            → (x.online ≡ true → known x.id ≡ true)
            → x.online ≡ true
            → less x.id ≡ true)
        → All (λ (e : Device). (d.id == e.id) ≡ false) ds
        → OnlineKnown known ds
        → OnlineKnown less ds
    All-map2 [] g u a = tt
    All-map2 (x ∷ xs) g u a = (g x u.0 a.0, All-map2 xs g u.1 a.1)

devices-place_rect :
    (id : DeviceId) (m : String) (r : Rect) (l : Layout)
    → (place_rect id m r l).0.devices ≡ l.devices
unfolding place_rect
devices-place_rect id m r l = elim (Bool-cases (is_empty r)) [
  | inl e ↦ rw e refl
  | inr e ↦ elim (Option-cases (monitor_of id m l)) [
    | inl n ↦ rw (e, n, place_rect) refl
    | inr (mon, n) ↦ rw (e, n, place_rect) refl
  ]
]

devices-apply_one :
    (id : DeviceId) (name : String) (ms : List Monitor) (p : Placement) (l : Layout)
    → (apply_one id name ms p l).devices ≡ l.devices
unfolding apply_one
devices-apply_one id name ms p l = elim (Bool-cases (p.machine == name)) [
  | inr e ↦ rw e refl
  | inl e ↦ elim (Option-cases (wanted p ms)) [
    | inl n ↦ rw (e, n, apply_one) refl
    | inr (m, n) ↦ rw (e, n, apply_one) (devices-place_rect id m.id p.global l)
  ]
]

devices-apply_all :
    (id : DeviceId) (name : String) (ms : List Monitor) (ps : List Placement) (l : Layout)
    → (apply_all id name ms ps l).devices ≡ l.devices
unfolding apply_all
devices-apply_all id name ms [] l = refl
devices-apply_all id name ms (p ∷ ps) l =
    devices-apply_all id name ms ps (apply_one id name ms p l) ∙ devices-apply_one id name ms p l

pub devices-apply_placements :
    (id : DeviceId) (ps : List Placement) (l : Layout)
    → (apply_placements id ps l).devices ≡ l.devices
unfolding apply_placements
devices-apply_placements id ps l = elim (Option-cases (device id l)) [
  | inl e ↦ rw (e, apply_placements) refl
  | inr (d, e) ↦ rw (e, apply_placements) (devices-apply_all id d.name d.monitors ps l)
]

pub devices-apply_each :
    (ids : List DeviceId) (ps : List Placement) (l : Layout)
    → (apply_each ids ps l).devices ≡ l.devices
unfolding apply_each
devices-apply_each [] ps l = refl
devices-apply_each (id ∷ ids) ps l =
    devices-apply_each ids ps (apply_placements id ps l) ∙ devices-apply_placements id ps l

pub devices-auto_place : (l : Layout) → (auto_place l).devices ≡ l.devices
unfolding auto_place
devices-auto_place l = devices-auto_place_all (unplaced l) l

-- A cell is a machine's that is known.
pub cell_known :
    (known : DeviceId → Bool) (l : Layout) (c : Cell)
    → OnlineKnown known l.devices
    → Member c (cells l)
    → known c.device ≡ true
cell_known known l c a m =
    let shown = Member-All (IsShown l.placements l.devices) c (cells l) m (cells-IsShown l) in
    let at =
      Member-All (λ (d : Device). d.online ≡ true → known (d.id) ≡ true) shown.0 l.devices shown.2
        a in
    ap known shown.5 ∙ at shown.3

-- The screen that the cursor is moved to when the desktop changes is a known machine's.
pub snap_known :
    (f : Float) (known : DeviceId → Bool) (at p : Point) (located : Located) (l : Layout)
    → OnlineKnown known l.devices
    → snap f at l ≡ some (p, located)
    → known located.device ≡ true
unfolding snap locate_in nearest_index
snap_known f known at p located l a h =
    let all : All (λ (c : Cell). known (c.device) ≡ true) (cells l) =
      All_if_Member (λ (c : Cell). known (c.device) ≡ true) (cells l)
        (λ c m. cell_known known l c a m) in
    elim (Option-cases (find (λ c. contains c.global at) (cells l))) [
      | inr (c, e) ↦
          let g = rw (e, snap) at h in
          let k = All-find (λ (c : Cell). known (c.device) ≡ true) _ (cells l) c e all in cc
      | inl e ↦ elim (Option-cases (nearest_index f at (enumerate 0 (cells l)))) [
        | inl n ↦ absurd (let g = rw (e, snap, n) at h in cc)
        | inr (c, n) ↦
            let g = rw (e, snap, n) at h in
            let k =
              All-min_by (λ (c : ℕ × Cell). known (c.1.device) ≡ true) _ _ c n
                (All-enumerate (λ (c : Cell). known (c.device) ≡ true) 0 (cells l) all) in
            cc
      ]
    ]

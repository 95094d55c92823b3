-- ===== src/Layout/Desktop/Identities.antt =====
-- crates/smkvm-layout/src/model.rs: no two machines of a desktop have one identity.
use smkvm.Base.{
  Bool, false, ◌≡◌, refl, ap, ◌∙◌, Option-cases, Bool-cases, inl, inr, none, List, [], ◌∷◌, ◌++◌,
  arith, String,
}
use smkvm.Base.Equality.{◌==◌, nat_eq, string_eq, pair_eq}
use smkvm.Base.Lists.{All, All-append, All-retain, find, retain}
use smkvm.Layout.Model.{DeviceId, Monitor, Device, Layout}
use smkvm.Layout.Desktop.{
  device, modify, new_device, report_monitors, remove_device, set_online, auto_place, unplaced,
}
use smkvm.Layout.Desktop.Places.{HasDistinctIds, devices-auto_place_all}
use smkvm.Layout.Desktop.Reports.{KeepsId}

abbrev Apart : DeviceId → List Device → Type 0
Apart id ds = All (λ (e : Device). (id == e.id) ≡ false) ds

modify-Apart :
    (id j : DeviceId) (f : Device → Device) (ds : List Device)
    → KeepsId f
    → Apart j ds
    → Apart j (modify id f ds)
unfolding modify
modify-Apart id j f [] k a = tt
modify-Apart id j f (d ∷ ds) k a = elim (Bool-cases (d.id == id)) [
  | inl e ↦ rw e (ap (λ i. j == i) (k d) ∙ a.0, a.1)
  | inr e ↦ rw e (a.0, modify-Apart id j f ds k a.1)
]

pub modify-HasDistinctIds :
    (id : DeviceId) (f : Device → Device) (ds : List Device)
    → KeepsId f
    → HasDistinctIds ds
    → HasDistinctIds (modify id f ds)
unfolding modify
modify-HasDistinctIds id f [] k h = tt
modify-HasDistinctIds id f (d ∷ ds) k h = elim (Bool-cases (d.id == id)) [
  | inl e ↦ rw e (rw (k d) (h.0), h.1)
  | inr e ↦ rw e (modify-Apart id d.id f ds k h.0, modify-HasDistinctIds id f ds k h.1)
]

append-HasDistinctIds :
    (ds : List Device) (d : Device)
    → find (λ e. e.id == d.id) ds ≡ none
    → HasDistinctIds ds
    → HasDistinctIds (ds ++ d ∷ [])
unfolding find
append-HasDistinctIds [] d e h = (tt, tt)
append-HasDistinctIds (x ∷ xs) d e h =
    let apart : (x.id == d.id) ≡ false = ground (arith, e) in
    (
      All-append (λ (e : Device). (x.id == e.id) ≡ false) xs (d ∷ []) h.0 (apart, tt),
      append-HasDistinctIds xs d (rw apart at e) h.1,
    )

pub report_monitors-HasDistinctIds :
    (id : DeviceId) (name : String) (monitors : List Monitor) (l : Layout)
    → HasDistinctIds l.devices
    → HasDistinctIds (report_monitors id name monitors l).0.devices
unfolding report_monitors device new_device
report_monitors-HasDistinctIds id name monitors l h = elim (Option-cases (device id l)) [
  | inl e ↦ rw (e, report_monitors) (append-HasDistinctIds l.devices _ e h)
  | inr (d, e) ↦ rw (e, report_monitors) (modify-HasDistinctIds id _ l.devices (λ d. refl) h)
]

retain-HasDistinctIds :
    (p : Device → Bool) (ds : List Device) → HasDistinctIds ds → HasDistinctIds (retain p ds)
retain-HasDistinctIds p [] h = tt
retain-HasDistinctIds p (d ∷ ds) h = elim (Bool-cases (p d)) [
  | inl e ↦ rw e (
    All-retain (λ (e : Device). (d.id == e.id) ≡ false) (λ (e : Device). (d.id == e.id) ≡ false) p
        ds (λ x t g. g) h.0,
    retain-HasDistinctIds p ds h.1,
  )
  | inr e ↦ rw e (retain-HasDistinctIds p ds h.1)
]

-- What is done to a desktop.
pub data Change : Type 0 where
  report : DeviceId → String → List Monitor → Change
  forget : DeviceId → Change
  switch : DeviceId → Bool → Change
  arrange : Change

unfoldable pub change : Change → Layout → Layout
change (report id name monitors) l = (report_monitors id name monitors l).0
change (forget id) l = remove_device id l
change (switch id online) l = set_online id online l
change arrange l = auto_place l

-- Reports, departures, machines going on and off, and automatic placement keep identities distinct.
pub change-HasDistinctIds :
    (c : Change) (l : Layout) → HasDistinctIds l.devices → HasDistinctIds (change c l).devices
unfolding change remove_device set_online auto_place
change-HasDistinctIds (report id name monitors) l h =
    report_monitors-HasDistinctIds id name monitors l h
change-HasDistinctIds (forget id) l h = retain-HasDistinctIds _ l.devices h
change-HasDistinctIds (switch id online) l h = modify-HasDistinctIds id _ l.devices (λ d. refl) h
change-HasDistinctIds arrange l h = rw (devices-auto_place_all (unplaced l) l) h

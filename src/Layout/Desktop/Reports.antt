-- ===== src/Layout/Desktop/Reports.antt =====
-- crates/smkvm-layout/src/model.rs: what a report of monitors changes (`report_monitors`).
use smkvm.Base.{
  Bool, true, false, not, ◌&&◌, ◌≡◌, refl, ◌∙◌, ap, sym, if◌then◌else◌, Option-cases, inl, inr,
  none, some, List, [], ◌∷◌, ◌++◌, map, arith, String,
}
use mathlib.Core.Option
use smkvm.Base.Equality.{◌==◌, ==_iff, ==_refl, nat_eq, string_eq, pair_eq}
use smkvm.Base.Int.{int_eq}
use smkvm.Base.Lists.{find, find_holds, any}
use smkvm.Base.Maps
use smkvm.Layout.Model.{DeviceId, Monitor, Device, Key, Rect, Reconcile, Layout}
use smkvm.Layout.Geometry.{rect_eq}
use smkvm.Layout.Desktop.{
  device, modify, new_device, reconcile_one, reconcile, report_monitors, placement,
}

-- A change of devices that leaves identities alone.
abbrev pub KeepsId : (Device → Device) → Type 0
KeepsId f = (d : Device) → (f d).id ≡ d.id

find-modify :
    (id j : DeviceId) (f : Device → Device) (ds : List Device)
    → KeepsId f
    → find (λ d. d.id == j) (modify id f ds)
      ≡ (if id == j then Option.map f (find (λ d. d.id == id) ds) else find (λ d. d.id == j) ds)
unfolding find modify
find-modify id j f [] k = ground arith
find-modify id j f (d ∷ ds) k = ground (arith, k d, find-modify id j f ds k)

pub ids-modify :
    (id : DeviceId) (f : Device → Device) (ds : List Device)
    → KeepsId f
    → map (λ d. d.id) (modify id f ds) ≡ map (λ d. d.id) ds
unfolding modify
ids-modify id f [] k = refl
ids-modify id f (d ∷ ds) k = ground (arith, k d, ids-modify id f ds k)

-- The monitor had another size before.
abbrev pub is_resized : List Monitor → Monitor → Bool
is_resized old m = elim (find (λ o. o.id == m.id) old) [
  | none ↦ false
  | some prev ↦ not (prev.local.w == m.local.w && prev.local.h == m.local.h)
]

reconcile_one-places :
    (id : DeviceId) (old : List Monitor) (m : Monitor) (k : Key) (r : List (Key × Rect) × Reconcile)
    → Maps.get k (reconcile_one id old m r).0
      ≡ (if k == (id, m.id) && is_resized old m then none else Maps.get k r.0)
unfolding reconcile_one
reconcile_one-places id old m k r = elim (Option-cases (find (λ o. o.id == m.id) old)) [
  | inl e ↦ rw (e, reconcile_one) (ground arith)
  | inr (prev, e) ↦
      rw (e, reconcile_one)
        (ground (
          arith,
          Maps.get-remove (id, m.id) k r.0,
          rect_eq.same_iff prev.local m.local,
          int_eq.same_iff prev.local.w m.local.w,
          int_eq.same_iff prev.local.h m.local.h,
        ))
]

reconcile-places :
    (id : DeviceId) (old new : List Monitor) (k : Key) (r : List (Key × Rect) × Reconcile)
    → Maps.get k (reconcile id old new r).0
      ≡ (if any (λ m. k == (id, m.id) && is_resized old m) new then none else Maps.get k r.0)
unfolding reconcile
reconcile-places id old [] k r = refl
reconcile-places id old (m ∷ ms) k r = ground (
  arith,
  reconcile-places id old ms k (reconcile_one id old m r),
  reconcile_one-places id old m k r,
)

-- The same against what the machine had.
abbrev pub was_resized : DeviceId → Monitor → Layout → Bool
was_resized id m l = elim (device id l) [ none ↦ false | some d ↦ is_resized d.monitors m ]

abbrev pub reported : DeviceId → String → List Monitor → Device
reported id name monitors = record { id = id; name = name; monitors = monitors; online = true }

find-append_other {ℓ} :
    {A : Type ℓ} (p : A → Bool) (xs : List A) (y : A)
    → p y ≡ false
    → find p (xs ++ y ∷ []) ≡ find p xs
unfolding find
find-append_other p [] y h = rw h refl
find-append_other p (x ∷ xs) y h = ground (arith, find-append_other p xs y)

find-append_new {ℓ} :
    {A : Type ℓ} (p : A → Bool) (xs : List A) (y : A)
    → p y ≡ true
    → find p xs ≡ none
    → find p (xs ++ y ∷ []) ≡ some y
unfolding find
find-append_new p [] y h e = rw h refl
find-append_new p (x ∷ xs) y h e = ground (arith, find-append_new p xs y)

resized_fresh :
    (id : DeviceId) (k : Key) (l : Layout) (ms : List Monitor)
    → device id l ≡ none
    → any (λ m. k == (id, m.id) && was_resized id m l) ms ≡ false
resized_fresh id k l [] e = refl
resized_fresh id k l (m ∷ ms) e =
    let h : was_resized id m l ≡ false = rw (e, was_resized) refl in
    ground (arith, h, resized_fresh id k l ms e)

resized_known :
    (id : DeviceId) (k : Key) (d : Device) (l : Layout) (ms : List Monitor)
    → device id l ≡ some d
    → any (λ m. k == (id, m.id) && was_resized id m l) ms
      ≡ any (λ m. k == (id, m.id) && is_resized d.monitors m) ms
resized_known id k d l [] e = refl
resized_known id k d l (m ∷ ms) e =
    let h : was_resized id m l ≡ is_resized d.monitors m = rw (e, was_resized) refl in
    rw (h, resized_known id k d l ms e) refl

-- After a report the machine has the name and the monitors it told and is online, and every other
-- machine is as it was. A place is forgotten exactly if it belongs to a reported monitor that had
-- another size before.
pub report_monitors_effect :
    (id : DeviceId) (name : String) (monitors : List Monitor) (l : Layout)
    → (device id (report_monitors id name monitors l).0 ≡ some (reported id name monitors))
      × ((j : DeviceId)
          → (id == j) ≡ false
          → device j (report_monitors id name monitors l).0 ≡ device j l)
      × ((k : Key)
          → placement k.0 k.1 (report_monitors id name monitors l).0 ≡ (
              if any (λ n. k == (id, n.id) && was_resized id n l) monitors
              then none
              else placement k.0 k.1 l))
unfolding report_monitors device new_device placement
report_monitors_effect id name monitors l = elim (Option-cases (device id l)) [
  | inl e ↦
      let new = reported id name monitors in
      (
        rw (e, report_monitors) (find-append_new (λ d. d.id == id) l.devices new (==_refl id) e),
        (λ j n. rw (e, report_monitors) (find-append_other (λ d. d.id == j) l.devices new n)),
        (λ k. rw (e, report_monitors) (sym (rw (resized_fresh id k l monitors e) refl))),
      )
  | inr (d, e) ↦ (
    rw (e, report_monitors)
        (find-modify id id _ l.devices (λ d. refl)
          ∙ rw (==_refl id, e)
              (ap (λ i. some (reported i name monitors))
                ((==_iff d.id id).0 (find_holds (λ d. d.id == id) l.devices d e)))),
    (λ j n. rw (e, report_monitors) (find-modify id j _ l.devices (λ d. refl) ∙ rw n refl)),
    (λ k.
        rw (e, report_monitors)
          (rw (resized_known id k d l monitors e) (reconcile-places id d.monitors monitors k _))),
  )
]

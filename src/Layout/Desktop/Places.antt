-- ===== src/Layout/Desktop/Places.antt =====
-- crates/smkvm-layout/src/model.rs: every monitor gets a spot (`auto_place`).
use smkvm.Base.{
  Bool, true, false, ◌≡◌, refl, ◌∙◌, ap, is_none, Option-cases, Bool-cases, inl, inr, some, List,
  [], ◌∷◌, map, arith,
}
use smkvm.Base.Equality.{◌==◌, ==_iff, ==_refl, nat_eq, string_eq, pair_eq}
use smkvm.Base.Lists.{All, All-append, All-map, All_image, All-retain, find, find-none, retain}
use smkvm.Base.Members.{
  Member, All_Members, All_if_Member, Member-All, any-Member, Member-append_left,
  Member-append_right, Member-retain,
}
use smkvm.Base.Maps
use smkvm.Layout.Model.{Point, Monitor, Device, Key, Rect, Layout}
use smkvm.Layout.Desktop.{
  device, monitor, monitor_of, place, unplaced_of, unplaced_in, unplaced, auto_place_all,
  auto_origin, auto_place,
}

-- No two machines have one identity.
abbrev pub HasDistinctIds : List Device → Type 0
HasDistinctIds [] = Unit
HasDistinctIds (d ∷ ds) = All (λ (e : Device). (d.id == e.id) ≡ false) ds × HasDistinctIds ds

-- The machine of an identity is the one that has it.
find_device :
    (ds : List Device) (d : Device)
    → HasDistinctIds ds
    → Member d ds
    → find (λ e. e.id == d.id) ds ≡ some d
unfolding find
find_device [] d h m = elim m [ ]
find_device (x ∷ xs) d h (inl e) =
    let q = ap (λ (y : Device). y.id == d.id) e in ground (arith, q, (==_iff d.id d.id).1 refl)
find_device (x ∷ xs) d h (inr m) =
    let apart = Member-All (λ (e : Device). (x.id == e.id) ≡ false) d xs m h.0 in
    rw apart (find_device xs d h.1 m)

abbrev IsKnown : Layout → Key → Type 0
IsKnown l k = is_none (monitor_of k.0 k.1 l) ≡ false

monitor-IsKnown :
    (l : Layout) (d : Device) (m : Monitor)
    → HasDistinctIds l.devices
    → Member d l.devices
    → Member m d.monitors
    → IsKnown l (d.id, m.id)
unfolding monitor_of device monitor
monitor-IsKnown l d m h i j =
    rw (find_device l.devices d h i, monitor_of)
      (elim (Option-cases (find (λ (n : Monitor). n.id == m.id) d.monitors)) [
        | inl e ↦
            let found = any-Member (λ (n : Monitor). n.id == m.id) d.monitors m j (==_refl m.id) in
            let lost = find-none (λ (n : Monitor). n.id == m.id) d.monitors e in cc
        | inr (n, e) ↦ rw e refl
      ])

abbrev pub IsPlaced : Layout → Key → Type 0
IsPlaced l k = is_none (Maps.get k l.placements) ≡ false

devices-place : (k : Key) (at : Point) (l : Layout) → (place k.0 k.1 at l).0.devices ≡ l.devices
unfolding place
devices-place k at l = elim (Option-cases (monitor_of k.0 k.1 l)) [
  | inl e ↦ rw (e, place) refl
  | inr (m, e) ↦ rw (e, place) refl
]

place_keeps :
    (k j : Key) (at : Point) (l : Layout) → IsPlaced l j → IsPlaced (place k.0 k.1 at l).0 j
unfolding place
place_keeps k j at l h = elim (Option-cases (monitor_of k.0 k.1 l)) [
  | inl e ↦ rw (e, place) h
  | inr (m, e) ↦ rw (e, place, Maps.get-insert (k.0, k.1) j) (ground arith)
]

place-IsPlaced :
    (k : Key) (at : Point) (l : Layout) → IsKnown l k → IsPlaced (place k.0 k.1 at l).0 k
unfolding place
place-IsPlaced k at l h = elim (Option-cases (monitor_of k.0 k.1 l)) [
  | inl e ↦ let g = rw e at h in cc
  | inr (m, e) ↦ rw (e, place, Maps.get-insert (k.0, k.1) k, ==_refl {A = Key} (k.0, k.1)) refl
]

pub devices-auto_place_all :
    (ks : List Key) (l : Layout) → (auto_place_all ks l).devices ≡ l.devices
unfolding auto_place_all
devices-auto_place_all [] l = refl
devices-auto_place_all (k ∷ ks) l =
    devices-auto_place_all ks (place k.0 k.1 (auto_origin k.0 k.1 l) l).0
    ∙ devices-place k (auto_origin k.0 k.1 l) l

-- Placing the monitors of a list takes nobody's place away.
auto_place_all_keeps :
    (ks : List Key) (j : Key) (l : Layout) → IsPlaced l j → IsPlaced (auto_place_all ks l) j
unfolding auto_place_all
auto_place_all_keeps [] j l h = h
auto_place_all_keeps (k ∷ ks) j l h =
    auto_place_all_keeps ks j (place k.0 k.1 (auto_origin k.0 k.1 l) l).0
      (place_keeps k j (auto_origin k.0 k.1 l) l h)

place_keeps-IsKnown :
    (k j : Key) (at : Point) (l : Layout) → IsKnown l j → IsKnown (place k.0 k.1 at l).0 j
unfolding monitor_of device
place_keeps-IsKnown k j at l h = rw (devices-place k at l, monitor_of) h

auto_place_all-IsPlaced :
    (ks : List Key) (l : Layout) → All (IsKnown l) ks → All (IsPlaced (auto_place_all ks l)) ks
unfolding auto_place_all
auto_place_all-IsPlaced [] l a = tt
auto_place_all-IsPlaced (k ∷ ks) l a =
    let at = auto_origin k.0 k.1 l in
    let l1 = (place k.0 k.1 at l).0 in
    (
      auto_place_all_keeps ks k l1 (place-IsPlaced k at l a.0),
      auto_place_all-IsPlaced ks l1
          (All-map (IsKnown l) (IsKnown l1) (λ j h. place_keeps-IsKnown k j at l h) ks a.1),
    )

-- A monitor of a machine is placed, or among those that are not.
placed_or_listed :
    (places : List (Key × Rect)) (ds : List Device) (d : Device) (k : Key)
    → Member d ds
    → Member k (map (λ m. (d.id, m.id)) d.monitors)
    → is_none (Maps.get k places) ≡ true
    → Member k (unplaced_in places ds)
unfolding unplaced_in
placed_or_listed places [] d k i j h = elim i [ ]
placed_or_listed places (x ∷ xs) d k (inl e) j h =
    Member-append_left k (unplaced_of places x) (unplaced_in places xs)
      (rw e (Member-retain (λ k. is_none (Maps.get k places)) _ k j h))
placed_or_listed places (x ∷ xs) d k (inr i) j h =
    Member-append_right k (unplaced_of places x) (unplaced_in places xs)
      (placed_or_listed places xs d k i j h)

retain_nothing {ℓ} :
    {A : Type ℓ} (p : A → Bool) (xs : List A) → All (λ x. p x ≡ false) xs → retain p xs ≡ []
retain_nothing p [] a = refl
retain_nothing p (x ∷ xs) a = ground (arith, retain_nothing p xs)

unplaced_in_nil :
    (places : List (Key × Rect)) (ds : List Device)
    → All
        (λ (d : Device).
          All
            (λ (k : Key). is_none (Maps.get k places) ≡ false)
            (map (λ m. (d.id, m.id)) d.monitors))
        ds
    → unplaced_in places ds ≡ []
unfolding unplaced_in
unplaced_in_nil places [] a = refl
unplaced_in_nil places (d ∷ ds) a =
    let here = retain_nothing (λ (k : Key). is_none (Maps.get k places)) _ a.0 in
    rw here (unplaced_in_nil places ds a.1)

unplaced-IsKnown :
    (l : Layout) (ds : List Device)
    → HasDistinctIds l.devices
    → All (λ d. Member d l.devices) ds
    → All (IsKnown l) (unplaced_in l.placements ds)
unfolding unplaced_in
unplaced-IsKnown l [] h a = tt
unplaced-IsKnown l (d ∷ ds) h a =
    All-append (IsKnown l) (unplaced_of l.placements d) (unplaced_in l.placements ds)
      (All-retain (IsKnown l) (IsKnown l) (λ k. is_none (Maps.get k l.placements)) _ (λ k t g. g)
        (All_image (IsKnown l) (λ (m : Monitor). (d.id, m.id)) d.monitors
          (All_if_Member (λ (m : Monitor). IsKnown l (d.id, m.id)) d.monitors
            (λ m i. monitor-IsKnown l d m h a.0 i))))
      (unplaced-IsKnown l ds h a.1)

-- Where no two machines have one identity, automatic placement leaves no monitor without a spot, and
-- takes none away.
pub unplaced-auto_place :
    (l : Layout)
    → HasDistinctIds l.devices
    → (unplaced (auto_place l) ≡ []) × ((k : Key) → IsPlaced l k → IsPlaced (auto_place l) k)
unfolding auto_place unplaced
unplaced-auto_place l h =
    let ks = unplaced l in
    let keeps : (k : Key) → IsPlaced l k → IsPlaced (auto_place l) k =
      λ k g. auto_place_all_keeps ks k l g in
    let listed =
      auto_place_all-IsPlaced ks l (unplaced-IsKnown l l.devices h (All_Members l.devices)) in
    (
      rw (devices-auto_place_all ks l) (
          unplaced_in_nil (auto_place l).placements l.devices (
            All_if_Member _ l.devices (λ d i.
              All_if_Member (IsPlaced (auto_place l)) (map (λ m. (d.id, m.id)) d.monitors) (λ k j.
                elim (Bool-cases (is_none (Maps.get k l.placements))) [
                  | inl e ↦
                      Member-All (IsPlaced (auto_place l)) k ks
                        (placed_or_listed l.placements l.devices d k i j e) listed
                  | inr e ↦ keeps k e
                ])))),
      keeps,
    )

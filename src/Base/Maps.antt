-- ===== src/Base/Maps.antt =====
-- `HashMap` and `BTreeMap` as association lists. The order in which the code walks a `HashMap` is
-- the order of the list, which no theorem fixes.
use mathlib.Core.Path.{◌≡◌, refl}
use mathlib.Core.Bool.{true, Bool, not}
use mathlib.Core.Logic.{inl, inr}
use mathlib.Core.Option.{Option, none, some}
use mathlib.Core.List.{List, [], ◌∷◌}
use native.Mathlib.Omega.{arith}
use smkvm.Base.Tests.{if◌then◌else◌, Bool-cases}
use smkvm.Base.Equality.{PartialEq, ◌==◌}
use smkvm.Base.Lists.{contains, retain, All}

module _ {ℓ κ} {K : Type ℓ} {V : Type κ} where
  abbrev pub keys : List (K × V) → List K
  keys [] = []
  keys ((k, v) ∷ m) = k ∷ keys m

module _ {ℓ κ} {K : Type ℓ} {V : Type κ} ⦃e : PartialEq K⦄ where
  unfoldable pub get : K → List (K × V) → Option V
  get k [] = none
  get k ((j, v) ∷ m) = if j == k then some v else get k m

  unfoldable pub insert : K → V → List (K × V) → List (K × V)
  insert k v [] = (k, v) ∷ []
  insert k v ((j, w) ∷ m) = if j == k then (k, v) ∷ m else (j, w) ∷ insert k v m

  unfoldable pub remove : K → List (K × V) → List (K × V)
  remove k = retain (λ p. not (p.0 == k))

  pub get-insert :
      (k j : K) (v : V) (m : List (K × V))
      → get j (insert k v m) ≡ (if k == j then some v else get j m)
  unfolding get insert
  get-insert k j v [] = refl
  get-insert k j v ((i, w) ∷ m) =
      ground (arith, e.same_iff k j, e.same_iff i k, e.same_iff i j, get-insert k j v m)

  pub get-remove :
      (k j : K) (m : List (K × V)) → get j (remove k m) ≡ (if j == k then none else get j m)
  unfolding get remove
  get-remove k j [] = ground arith
  get-remove k j ((i, w) ∷ m) =
      ground (arith, e.same_iff j k, e.same_iff i k, e.same_iff i j, get-remove k j m)

  -- `retain` on a test of the key.
  pub get-retain :
      (p : K → Bool) (j : K) (m : List (K × V))
      → get j (retain (λ x. p x.0) m) ≡ (if p j then get j m else none)
  unfolding get
  get-retain p j [] = ground arith
  get-retain p j ((i, w) ∷ m) = ground (arith, e.same_iff i j, get-retain p j m)

module _ {ℓ κ ι} {K : Type ℓ} {V : Type κ} ⦃e : PartialEq K⦄ (P : K × V → Type ι) where
  pub All-insert : (k : K) (v : V) (m : List (K × V)) → P (k, v) → All P m → All P (insert k v m)
  unfolding insert
  All-insert k v [] h a = (h, tt)
  All-insert k v ((j, w) ∷ m) h a = ground (arith, All-insert k v m h a.1)

  pub All-get : (k : K) (v : V) (m : List (K × V)) → get k m ≡ some v → All P m → P (k, v)
  unfolding get
  All-get k v [] h a = cc
  All-get k v ((j, w) ∷ m) h a = elim (Bool-cases (j == k)) [
    | inl hit ↦ ground (arith, (e.same_iff j k).0 hit)
    | inr miss ↦ All-get k v m (rw miss at h) a.1
  ]

module _ {ℓ κ} {K : Type ℓ} {V : Type κ} ⦃e : PartialEq K⦄ where
  pub remove_absent : (k : K) (m : List (K × V)) → get k m ≡ none → remove k m ≡ m
  unfolding get remove
  remove_absent k [] h = refl
  remove_absent k ((j, v) ∷ m) h = ground (arith, remove_absent k m)

  -- Every entry's key is among the keys.
  pub keys_all {ι} :
      (P : K → Type ι) (m : List (K × V))
      → ((k : K) → contains (keys m) k ≡ true → P k)
      → All (λ (p : K × V). P (p.0)) m
  keys_all P [] h = tt
  keys_all P ((k, v) ∷ m) h =
      (h k (ground (arith, e.same_iff k k)), keys_all P m (λ j c. h j (ground arith)))

  pub contains-keys-retain :
      (q : K × V → Bool) (m : List (K × V)) (k : K) (v : V)
      → get k m ≡ some v
      → q (k, v) ≡ true
      → contains (keys (retain q m)) k ≡ true
  unfolding get
  contains-keys-retain q [] k v g h = cc
  contains-keys-retain q ((j, w) ∷ m) k v g h =
      ground (arith, e.same_iff j k, contains-keys-retain q m k v)

  -- The entries whose keys are not listed.
  abbrev pub without : List K → List (K × V) → List (K × V)
  without ks m = retain (λ p. not (contains ks p.0)) m

  pub without-nil : (m : List (K × V)) → without [] m ≡ m
  without-nil [] = refl
  without-nil (p ∷ m) = ground (arith, without-nil m)

  pub without-remove :
      (k : K) (ks : List K) (m : List (K × V)) → without ks (remove k m) ≡ without (k ∷ ks) m
  unfolding remove
  without-remove k ks [] = refl
  without-remove k ks ((j, v) ∷ m) =
      ground (arith, e.same_iff j k, e.same_iff k j, without-remove k ks m)

  pub remove-insert : (k : K) (v : V) (m : List (K × V)) → remove k (insert k v m) ≡ remove k m
  unfolding remove insert
  remove-insert k v [] = ground (arith, e.same_iff k k)
  remove-insert k v ((j, w) ∷ m) =
      ground (arith, e.same_iff k k, e.same_iff j k, remove-insert k v m)

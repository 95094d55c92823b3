-- ===== src/Base/Lists.antt =====
-- Slices and vectors as lists, measured by the native numbers, and the iterator adapters that the
-- code uses, over Boolean tests.
use Prim.Native.Nat.{ℕ, zero, suc, ◌+◌, ◌-◌, ◌≤◌, min}
use mathlib.Core.Path.{◌≡◌, refl, ap}
use mathlib.Core.Bool.{Bool, true, false, ◌&&◌, ◌||◌}
use mathlib.Core.Logic.{inl, inr}
use mathlib.Core.Option.{Option, none, some}
use mathlib.Core.List.{List, [], ◌∷◌, ◌++◌, map}
use native.Mathlib.Omega.{arith}
use smkvm.Base.Tests.{if◌then◌else◌, Bool-cases}
use smkvm.Base.Equality.{PartialEq, ◌==◌}

module _ {ℓ} {A : Type ℓ} where
  abbrev pub length : List A → ℕ
  length [] = 0
  length (x ∷ xs) = suc (length xs)

  abbrev pub take : ℕ → List A → List A
  take zero xs = []
  take (suc n) [] = []
  take (suc n) (x ∷ xs) = x ∷ take n xs

  abbrev pub drop : ℕ → List A → List A
  drop zero xs = xs
  drop (suc n) [] = []
  drop (suc n) (x ∷ xs) = drop n xs

  pub length-append : (xs ys : List A) → length (xs ++ ys) ≡ length xs + length ys
  length-append [] ys = omega arith
  length-append (x ∷ xs) ys = omega (arith, length-append xs ys)

  pub length-take : (n : ℕ) (xs : List A) → length (take n xs) ≡ min n (length xs)
  length-take zero xs = omega arith
  length-take (suc n) [] = omega arith
  length-take (suc n) (x ∷ xs) = omega (arith, length-take n xs)

  pub length-drop : (n : ℕ) (xs : List A) → length (drop n xs) ≡ length xs - n
  length-drop zero xs = omega arith
  length-drop (suc n) [] = omega arith
  length-drop (suc n) (x ∷ xs) = omega (arith, length-drop n xs)

  pub take-append-drop : (n : ℕ) (xs : List A) → take n xs ++ drop n xs ≡ xs
  take-append-drop zero xs = refl
  take-append-drop (suc n) [] = refl
  take-append-drop (suc n) (x ∷ xs) = ap (◌∷◌ x) (take-append-drop n xs)

  pub drop-append : (n : ℕ) (xs ys : List A) → n ≤ length xs → drop n (xs ++ ys) ≡ drop n xs ++ ys
  drop-append zero xs ys h = refl
  drop-append (suc n) [] ys h = absurd (omega arith)
  drop-append (suc n) (x ∷ xs) ys h = drop-append n xs ys (omega arith)

  pub take-append : (n : ℕ) (xs ys : List A) → n ≤ length xs → take n (xs ++ ys) ≡ take n xs
  take-append zero xs ys h = refl
  take-append (suc n) [] ys h = absurd (omega arith)
  take-append (suc n) (x ∷ xs) ys h = ap (◌∷◌ x) (take-append n xs ys (omega arith))

  pub drop-length_append : (xs ys : List A) → drop (length xs) (xs ++ ys) ≡ ys
  drop-length_append [] ys = refl
  drop-length_append (x ∷ xs) ys = drop-length_append xs ys

  pub take-length_append : (xs ys : List A) → take (length xs) (xs ++ ys) ≡ xs
  take-length_append [] ys = refl
  take-length_append (x ∷ xs) ys = ap (◌∷◌ x) (take-length_append xs ys)

  pub drop-drop : (m n : ℕ) (xs : List A) → drop m (drop n xs) ≡ drop (n + m) xs
  drop-drop m zero xs = ground arith
  drop-drop zero (suc n) [] = ground arith
  drop-drop (suc m) (suc n) [] = let e : suc n + suc m ≡ suc (n + suc m) = omega arith in rw e
  drop-drop m (suc n) (x ∷ xs) =
      let e : suc n + m ≡ suc (n + m) = omega arith in rw e (drop-drop m n xs)

  -- The next piece of a list, put behind what was taken before.
  pub take-take-drop : (m n : ℕ) (xs : List A) → take m xs ++ take n (drop m xs) ≡ take (m + n) xs
  take-take-drop zero n xs = ground arith
  take-take-drop (suc m) zero [] = ground arith
  take-take-drop (suc m) (suc n) [] = let e : suc m + suc n ≡ suc (m + suc n) = omega arith in rw e
  take-take-drop (suc m) n (x ∷ xs) =
      let e : suc m + n ≡ suc (m + n) = omega arith in rw e (ap (◌∷◌ x) (take-take-drop m n xs))

  pub take_all : (n : ℕ) (xs : List A) → length xs ≤ n → take n xs ≡ xs
  take_all zero [] h = refl
  take_all (suc n) [] h = refl
  take_all zero (x ∷ xs) h = absurd (omega arith)
  take_all (suc n) (x ∷ xs) h = ap (◌∷◌ x) (take_all n xs (omega arith))

module _ {ℓ} {A : Type ℓ} where
  -- Rust's `Vec::retain`, and `filter` by a Boolean test.
  abbrev pub retain : (A → Bool) → List A → List A
  retain p [] = []
  retain p (x ∷ xs) = if p x then x ∷ retain p xs else retain p xs

  abbrev pub any : (A → Bool) → List A → Bool
  any p [] = false
  any p (x ∷ xs) = p x || any p xs

  abbrev pub all : (A → Bool) → List A → Bool
  all p [] = true
  all p (x ∷ xs) = p x && all p xs

  pub length-retain : (p : A → Bool) (xs : List A) → length (retain p xs) ≤ length xs
  length-retain p [] = omega arith
  length-retain p (x ∷ xs) = ground (arith, length-retain p xs)

  pub retain-append :
      (p : A → Bool) (xs ys : List A) → retain p (xs ++ ys) ≡ retain p xs ++ retain p ys
  retain-append p [] ys = refl
  retain-append p (x ∷ xs) ys = ground (arith, retain-append p xs ys)

  pub retain-retain :
      (p q : A → Bool) (xs : List A) → retain p (retain q xs) ≡ retain (λ x. q x && p x) xs
  retain-retain p q [] = refl
  retain-retain p q (x ∷ xs) = ground (arith, retain-retain p q xs)

-- A predicate that holds of each entry.
abbrev pub All {ℓ κ} : {A : Type ℓ} → (A → Type κ) → List A → Type κ
All P [] = Unit
All P (x ∷ xs) = P x × All P xs

module _ {ℓ κ} {A : Type ℓ} (P : A → Type κ) where
  pub All-append : (xs ys : List A) → All P xs → All P ys → All P (xs ++ ys)
  All-append [] ys hx hy = hy
  All-append (x ∷ xs) ys hx hy = (hx.0, All-append xs ys hx.1 hy)

  pub All_of : ((x : A) → P x) → (xs : List A) → All P xs
  All_of h [] = tt
  All_of h (x ∷ xs) = (h x, All_of h xs)

module _ {ℓ κ ι} {A : Type ℓ} (P : A → Type κ) (Q : A → Type ι) where
  pub All-map : ((x : A) → P x → Q x) → (xs : List A) → All P xs → All Q xs
  All-map h [] a = tt
  All-map h (x ∷ xs) a = (h x a.0, All-map h xs a.1)

  -- What passes the test satisfies more.
  pub All-retain :
      (p : A → Bool) (xs : List A)
      → ((x : A) → p x ≡ true → P x → Q x)
      → All P xs
      → All Q (retain p xs)
  All-retain p [] h a = tt
  All-retain p (x ∷ xs) h a = elim (Bool-cases (p x)) [
    | inl e ↦ rw e (h x e a.0, All-retain p xs h a.1)
    | inr e ↦ rw e (All-retain p xs h a.1)
  ]

module _ {ℓ} {A : Type ℓ} ⦃e : PartialEq A⦄ where
  abbrev pub contains : List A → A → Bool
  contains [] a = false
  contains (x ∷ xs) a = x == a || contains xs a

  pub contains-append :
      (xs ys : List A) (a : A) → contains (xs ++ ys) a ≡ (contains xs a || contains ys a)
  contains-append [] ys a = refl
  contains-append (x ∷ xs) ys a = ground (arith, contains-append xs ys a)

module _ {ℓ} {A : Type ℓ} where
  pub retain_congr :
      (p q : A → Bool) (xs : List A) → All (λ x. p x ≡ q x) xs → retain p xs ≡ retain q xs
  retain_congr p q [] a = refl
  retain_congr p q (x ∷ xs) a = ground (arith, a.0, retain_congr p q xs a.1)

module _ {ℓ} {A : Type ℓ} where
  -- `iter().find(…)`
  unfoldable pub find : (A → Bool) → List A → Option A
  find p [] = none
  find p (x ∷ xs) = if p x then some x else find p xs

  pub find_holds : (p : A → Bool) (xs : List A) (a : A) → find p xs ≡ some a → p a ≡ true
  unfolding find
  find_holds p [] a h = cc
  find_holds p (x ∷ xs) a h = elim (Bool-cases (p x)) [
    | inl e ↦ let q : x ≡ a = ground arith in rw (← q) e
    | inr e ↦ find_holds p xs a (ground arith)
  ]

  -- What is found is an entry.
  pub All-find {κ} :
      (P : A → Type κ) (p : A → Bool) (xs : List A) (a : A) → find p xs ≡ some a → All P xs → P a
  unfolding find
  All-find P p [] a h all = cc
  All-find P p (x ∷ xs) a h all = elim (Bool-cases (p x)) [
    | inl e ↦ let q : x ≡ a = ground arith in rw (← q) (all.0)
    | inr e ↦ All-find P p xs a (ground arith) all.1
  ]

  pub find-none : (p : A → Bool) (xs : List A) → find p xs ≡ none → any p xs ≡ false
  unfolding find
  find-none p [] h = refl
  find-none p (x ∷ xs) h = ground (arith, find-none p xs)

module _ {ℓ} {A : Type ℓ} where
  -- `iter().enumerate()`, from an index on.
  unfoldable pub enumerate : ℕ → List A → List (ℕ × A)
  enumerate i [] = []
  enumerate i (x ∷ xs) = (i, x) ∷ enumerate (i + 1) xs

  -- The loop of `min_by`: an entry takes the place of the one kept only if it is less.
  unfoldable pub least : (A → A → Bool) → A → List A → A
  least less kept [] = kept
  least less kept (x ∷ xs) = least less (if less x kept then x else kept) xs

  unfoldable pub min_by : (A → A → Bool) → List A → Option A
  unfolding least
  min_by less [] = none
  min_by less (x ∷ xs) = some (least less x xs)

  pub min_by-none : (less : A → A → Bool) (xs : List A) → min_by less xs ≡ none → xs ≡ []
  unfolding min_by
  min_by-none less [] h = refl
  min_by-none less (x ∷ xs) h = cc

  pub enumerate_nil : (i : ℕ) (xs : List A) → enumerate i xs ≡ [] → xs ≡ []
  unfolding enumerate
  enumerate_nil i [] h = refl
  enumerate_nil i (x ∷ xs) h = cc

  pub All-enumerate {κ} :
      (P : A → Type κ) (i : ℕ) (xs : List A)
      → All P xs
      → All (λ (p : ℕ × A). P (p.1)) (enumerate i xs)
  unfolding enumerate
  All-enumerate P i [] a = tt
  All-enumerate P i (x ∷ xs) a = (a.0, All-enumerate P (i + 1) xs a.1)

  All-least {κ} :
      (P : A → Type κ) (less : A → A → Bool) (kept : A) (xs : List A)
      → P kept
      → All P xs
      → P (least less kept xs)
  unfolding least
  All-least P less kept [] h a = h
  All-least P less kept (x ∷ xs) h a = elim (Bool-cases (less x kept)) [
    | inl e ↦ rw e (All-least P less x xs a.0 a.1)
    | inr e ↦ rw e (All-least P less kept xs h a.1)
  ]

  pub All-min_by {κ} :
      (P : A → Type κ) (less : A → A → Bool) (xs : List A) (a : A)
      → min_by less xs ≡ some a
      → All P xs
      → P a
  unfolding min_by
  All-min_by P less [] a h all = cc
  All-min_by P less (x ∷ xs) a h all =
      let q : least less x xs ≡ a = ground arith in rw (← q) (All-least P less x xs all.0 all.1)

module _ {ℓ κ ι} {A : Type ℓ} {B : Type κ} (P : B → Type ι) (f : A → B) where
  pub All_image : (xs : List A) → All (λ a. P (f a)) xs → All P (map f xs)
  All_image [] a = tt
  All_image (x ∷ xs) a = (a.0, All_image xs a.1)

module _ {ℓ κ ι} {A : Type ℓ} (P : A → Type κ) (Q : A → Type ι) where
  pub All_both : (xs : List A) → All P xs → All Q xs → All (λ x. P x × Q x) xs
  All_both [] p q = tt
  All_both (x ∷ xs) p q = ((p.0, q.0), All_both xs p.1 q.1)

-- ===== src/Base/Members.antt =====
-- An entry of a list, with its place.
use mathlib.Core.Path.{◌≡◌, refl}
use mathlib.Core.Bool.{Bool, true}
use mathlib.Core.Logic.{◌⊎◌, inl, inr}
use mathlib.Core.Option.{some}
use mathlib.Core.List.{List, [], ◌∷◌, ◌++◌}
use native.Mathlib.Omega.{arith}
use smkvm.Base.Tests.{Bool-cases}
use smkvm.Base.Lists.{All, All-map, All-find, find, retain, any}

abbrev pub Member : {A : Type 0} → A → List A → Type 0
Member a [] = ⊥
Member a (x ∷ xs) = (x ≡ a) ⊎ Member a xs

module _ {A : Type 0} where
  All_Members_in :
      (xs ys : List A) → ((a : A) → Member a ys → Member a xs) → All (λ a. Member a xs) ys
  All_Members_in xs [] h = tt
  All_Members_in xs (y ∷ ys) h = (h y (inl refl), All_Members_in xs ys (λ a m. h a (inr m)))

  -- Every entry is an entry.
  pub All_Members : (xs : List A) → All (λ a. Member a xs) xs
  All_Members xs = All_Members_in xs xs (λ a m. m)

  pub Member-append_left : (a : A) (xs ys : List A) → Member a xs → Member a (xs ++ ys)
  Member-append_left a [] ys m = elim m [ ]
  Member-append_left a (x ∷ xs) ys (inl e) = inl e
  Member-append_left a (x ∷ xs) ys (inr m) = inr (Member-append_left a xs ys m)

  pub Member-append_right : (a : A) (xs ys : List A) → Member a ys → Member a (xs ++ ys)
  Member-append_right a [] ys m = m
  Member-append_right a (x ∷ xs) ys m = inr (Member-append_right a xs ys m)

  pub Member-append : (a : A) (xs ys : List A) → Member a (xs ++ ys) → Member a xs ⊎ Member a ys
  Member-append a [] ys m = inr m
  Member-append a (x ∷ xs) ys (inl e) = inl (inl e)
  Member-append a (x ∷ xs) ys (inr m) = elim (Member-append a xs ys m) [
    | inl l ↦ inl (inr l)
    | inr r ↦ inr r
  ]

  pub Member-All {κ} : (P : A → Type κ) (a : A) (xs : List A) → Member a xs → All P xs → P a
  Member-All P a [] m all = elim m [ ]
  Member-All P a (x ∷ xs) (inl e) all = rw (← e) (all.0)
  Member-All P a (x ∷ xs) (inr m) all = Member-All P a xs m all.1

  pub All_if_Member {κ} : (P : A → Type κ) (xs : List A) → ((a : A) → Member a xs → P a) → All P xs
  All_if_Member P xs h = All-map (λ a. Member a xs) P h xs (All_Members xs)

  pub find-Member : (p : A → Bool) (xs : List A) (a : A) → find p xs ≡ some a → Member a xs
  find-Member p xs a h = All-find (λ x. Member x xs) p xs a h (All_Members xs)

  -- An entry that passes the test is found, or one before it.
  pub any-Member : (p : A → Bool) (xs : List A) (a : A) → Member a xs → p a ≡ true → any p xs ≡ true
  any-Member p [] a m h = elim m [ ]
  any-Member p (x ∷ xs) a (inl e) h = ground arith
  any-Member p (x ∷ xs) a (inr m) h = ground (arith, any-Member p xs a m h)

  pub Member-retain :
      (p : A → Bool) (xs : List A) (a : A) → Member a xs → p a ≡ true → Member a (retain p xs)
  Member-retain p [] a m h = elim m [ ]
  Member-retain p (x ∷ xs) a (inl e) h = let q : p x ≡ true = rw e h in rw q (inl e)
  Member-retain p (x ∷ xs) a (inr m) h = elim (Bool-cases (p x)) [
    | inl e ↦ rw e (inr (Member-retain p xs a m h))
    | inr e ↦ rw e (Member-retain p xs a m h)
  ]

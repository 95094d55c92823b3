-- ===== src/Base/Sets.antt =====
-- `BTreeSet` (and `HashSet`, whose order the code never reads) as the list of its elements in order.
use mathlib.Core.Path.{◌≡◌, refl}
use mathlib.Core.Bool.{Bool, not, ◌&&◌, ◌||◌}
use mathlib.Core.List.{List, [], ◌∷◌}
use native.Mathlib.Omega.{arith}
use smkvm.Base.Tests.{if◌then◌else◌}
use smkvm.Base.Equality.{PartialEq, ◌==◌, Ord}
use smkvm.Base.Lists.{contains, retain, All}

module _ {ℓ} {A : Type ℓ} ⦃e : PartialEq A⦄ ⦃o : Ord A⦄ where
  unfoldable pub insert : A → List A → List A
  insert a [] = a ∷ []
  insert a (x ∷ xs) = if x == a then x ∷ xs else if o.lt a x then a ∷ x ∷ xs else x ∷ insert a xs

  pub contains-insert :
      (a b : A) (xs : List A) → contains (insert a xs) b ≡ (a == b || contains xs b)
  unfolding insert
  contains-insert a b [] = refl
  contains-insert a b (x ∷ xs) =
      ground (arith, contains-insert a b xs, e.same_iff x a, e.same_iff x b, e.same_iff a b)

  pub All-insert {κ} : (P : A → Type κ) (a : A) (xs : List A) → P a → All P xs → All P (insert a xs)
  unfolding insert
  All-insert P a [] h t = (h, tt)
  All-insert P a (x ∷ xs) h t = ground (arith, All-insert P a xs h t.1)

  -- `iter().collect::<BTreeSet<_>>()`
  unfoldable pub collect : List A → List A
  collect [] = []
  collect (x ∷ xs) = insert x (collect xs)

  pub contains-collect : (xs : List A) (a : A) → contains (collect xs) a ≡ contains xs a
  unfolding collect
  contains-collect [] a = refl
  contains-collect (x ∷ xs) a =
      ground (arith, contains-collect xs a, contains-insert x a (collect xs))

module _ {ℓ} {A : Type ℓ} ⦃e : PartialEq A⦄ where
  unfoldable pub remove : A → List A → List A
  remove a = retain (λ x. not (x == a))

  pub contains-retain :
      (p : A → Bool) (xs : List A) (a : A) → contains (retain p xs) a ≡ (p a && contains xs a)
  contains-retain p [] a = ground arith
  contains-retain p (x ∷ xs) a = ground (arith, contains-retain p xs a, e.same_iff x a)

  pub contains-remove :
      (a b : A) (xs : List A) → contains (remove a xs) b ≡ (not (b == a) && contains xs b)
  unfolding remove
  contains-remove a b xs = contains-retain (λ x. not (x == a)) xs b

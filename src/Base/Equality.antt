-- ===== src/Base/Equality.antt =====
-- Rust's `PartialEq` as an interface: a test that decides equality.
use mathlib.Core.Path.{◌≡◌, refl}
use mathlib.Core.Logic.{◌↔◌}
use mathlib.Core.Bool.{Bool, true, ◌&&◌, ◌||◌}
use native.Mathlib.Omega.{arith}
use Prim.Native.Nat.{ℕ}
use Prim.Native.String.{String, compare}
use text.Mathlib.Text.{◌==◌ as str_eq, is_lt}
use text.Mathlib.TextEquality.{eq_iff}
use smkvm.Base.Tests.{eqb, eqb_iff, ltb}

pub record PartialEq {ℓ} (A : Type ℓ) : Type ℓ where
  pub same : A → A → Bool
  pub same_iff : (x y : A) → (same x y ≡ true) ↔ (x ≡ y)

infix 50 ◌==◌
abbrev pub ◌==◌ {ℓ} : {A : Type ℓ} ⦃e : PartialEq A⦄ → A → A → Bool
◌==◌ ⦃e⦄ = e.same

module _ {ℓ} {A : Type ℓ} ⦃e : PartialEq A⦄ where
  pub ==_iff : (a b : A) → ((a == b) ≡ true) ↔ (a ≡ b)
  ==_iff a b = e.same_iff a b

  pub ==_refl : (a : A) → (a == a) ≡ true
  ==_refl a = (e.same_iff a a).1 refl

instance abbrev pub nat_eq : PartialEq ℕ
nat_eq = record { same = eqb; same_iff = eqb_iff }

instance abbrev pub string_eq : PartialEq String
string_eq = record { same = str_eq; same_iff = eq_iff }

-- Rust's tuples compare field by field.
abbrev pub pair_beq {ℓ κ} :
    {A : Type ℓ} {B : Type κ} ⦃e : PartialEq A⦄ ⦃d : PartialEq B⦄ → A × B → A × B → Bool
pair_beq ⦃e⦄ ⦃d⦄ p q = e.same p.0 q.0 && d.same p.1 q.1

pub pair_beq_iff {ℓ κ} :
    {A : Type ℓ} {B : Type κ} ⦃e : PartialEq A⦄ ⦃d : PartialEq B⦄ (p q : A × B)
    → (pair_beq p q ≡ true) ↔ (p ≡ q)
pair_beq_iff ⦃e⦄ ⦃d⦄ p q = ground (arith, e.same_iff p.0 q.0, d.same_iff p.1 q.1)

instance abbrev pub pair_eq {ℓ κ} :
    {A : Type ℓ} {B : Type κ} ⦃e : PartialEq A⦄ ⦃d : PartialEq B⦄ → PartialEq (A × B)
pair_eq = record { same = pair_beq; same_iff = pair_beq_iff }

-- Rust's `Ord`, as far as the containers use it: the strict test.
pub record Ord {ℓ} (A : Type ℓ) : Type ℓ where
  pub lt : A → A → Bool

instance abbrev pub nat_ord : Ord ℕ
nat_ord = record { lt = ltb }

instance abbrev pub string_ord : Ord String
string_ord = record { lt = λ s t. is_lt (compare s t) }

-- Tuples are ordered lexicographically.
instance abbrev pub pair_ord {ℓ κ} :
    {A : Type ℓ} {B : Type κ} ⦃e : PartialEq A⦄ ⦃a : Ord A⦄ ⦃b : Ord B⦄ → Ord (A × B)
pair_ord ⦃e⦄ ⦃a⦄ ⦃b⦄ = record { lt = λ p q. a.lt p.0 q.0 || (e.same p.0 q.0 && b.lt p.1 q.1) }

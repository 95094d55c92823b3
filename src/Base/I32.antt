-- ===== src/Base/I32.antt =====
-- Rust's `i32` as the integer that it stands for. The release build has no overflow checks, so
-- a sum or a difference wraps round at 2 ^ 32.
use Prim.Native.Nat.{suc, ◌+◌, ◌%◌, ◌/◌, ◌≤◌}
use mathlib.Core.Path.{◌≡◌, refl}
use native.Mathlib.Omega.{arith}
use smkvm.Base.Tests.{if◌then◌else◌}
use smkvm.Base.Int.{ℤ, pos, negsuc, pos_part, neg_part, sub_ℕ, ◌+ℤ◌, ◌-ℤ◌, lt_ℤ, le_ℤ}

abbrev pub min_value : ℤ
min_value = negsuc 2147483647

abbrev pub max_value : ℤ
max_value = pos 2147483647

-- The value of an integer's low 32 bits.
unfoldable pub wrap : ℤ → ℤ
wrap (pos n) = sub_ℕ ((n + 2147483648) % 4294967296) 2147483648
wrap (negsuc n) = sub_ℕ 2147483647 ((n + 2147483648) % 4294967296)

unfoldable pub add : ℤ → ℤ → ℤ
unfolding wrap ◌+ℤ◌
add a b = wrap (a +ℤ b)

unfoldable pub sub : ℤ → ℤ → ℤ
unfolding wrap ◌-ℤ◌
sub a b = wrap (a -ℤ b)

abbrev pub min : ℤ → ℤ → ℤ
min a b = if le_ℤ a b then a else b

abbrev pub max : ℤ → ℤ → ℤ
max a b = if le_ℤ a b then b else a

-- `Ord::clamp`, which panics where the bounds are out of order.
abbrev pub clamp : ℤ → ℤ → ℤ → ℤ
clamp x lo hi = if lt_ℤ x lo then lo else if lt_ℤ hi x then hi else x

unfoldable pub saturating_add : ℤ → ℤ → ℤ
unfolding ◌+ℤ◌
saturating_add a b = clamp (a +ℤ b) min_value max_value

-- `/ 2` rounds towards zero.
unfoldable pub half : ℤ → ℤ
half (pos n) = pos (n / 2)
half (negsuc n) = sub_ℕ 0 (suc n / 2)

abbrev pub Fits : ℤ → Type 0
Fits a = (neg_part a ≤ 2147483648) × (pos_part a ≤ 2147483647)

pub wrap_exact : (a : ℤ) → Fits a → wrap a ≡ a
unfolding wrap
wrap_exact (pos n) h = ground arith
wrap_exact (negsuc n) h = ground arith

pub wrap-Fits : (a : ℤ) → Fits (wrap a)
unfolding wrap
wrap-Fits (pos n) = ground arith
wrap-Fits (negsuc n) = ground arith

pub add_exact : (a b : ℤ) → Fits (a +ℤ b) → add a b ≡ a +ℤ b
unfolding add
add_exact a b h = wrap_exact (a +ℤ b) h

pub sub_exact : (a b : ℤ) → Fits (a -ℤ b) → sub a b ≡ a -ℤ b
unfolding sub
sub_exact a b h = wrap_exact (a -ℤ b) h

wraps : add max_value (pos 1) ≡ min_value
unfolding add
wraps = refl

wraps_back : sub min_value (pos 1) ≡ max_value
unfolding sub
wraps_back = refl

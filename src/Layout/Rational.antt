-- ===== src/Layout/Rational.antt =====
-- A Float for runs: exact fractions, with a zero denominator for what is not finite.
use smkvm.Base.{ℕ, zero, suc, ◌*◌, ◌/◌, not, eqb}
use smkvm.Base.Int.{ℤ, pos, negsuc, ◌+ℤ◌, ◌-ℤ◌, sub_ℕ, lt_ℤ, le_ℤ, int_eq}
use smkvm.Base.Equality.{◌==◌}
use smkvm.Layout.Geometry.{Float}

abbrev scale : ℕ → ℤ → ℤ
scale k (pos n) = pos (k * n)
scale k (negsuc n) = sub_ℕ 0 (k * suc n)

abbrev times : ℤ → ℤ → ℤ
unfolding ◌-ℤ◌
times (pos n) b = scale n b
times (negsuc n) b = pos 0 -ℤ scale (suc n) b

abbrev Fraction : Type 0
Fraction = ℤ × ℕ

abbrev over : Fraction → Fraction → Fraction
unfolding ◌-ℤ◌
over (a, b) (pos zero, d) = (pos 0, 0)
over (a, b) (pos (suc n), d) = (scale d a, b * suc n)
over (a, b) (negsuc n, d) = (pos 0 -ℤ scale d a, b * suc n)

abbrev absolute : ℤ → ℤ
absolute (pos n) = pos n
absolute (negsuc n) = pos (suc n)

abbrev floored : Fraction → ℤ
floored (pos n, b) = pos (n / b)
floored (negsuc n, b) = negsuc (n / b)

abbrev pub fractions : Float
unfolding ◌-ℤ◌ ◌+ℤ◌
fractions = record {
  F = Fraction;
  from_i32 = λ a. (a, 1);
  add = λ p q. (scale q.1 p.0 +ℤ scale p.1 q.0, p.1 * q.1);
  sub = λ p q. (scale q.1 p.0 -ℤ scale p.1 q.0, p.1 * q.1);
  mul = λ p q. (times p.0 q.0, p.1 * q.1);
  div = over;
  abs = λ p. (absolute p.0, p.1);
  lt = λ p q. lt_ℤ (scale q.1 p.0) (scale p.1 q.0);
  le = λ p q. le_ℤ (scale q.1 p.0) (scale p.1 q.0);
  eq = λ p q. scale q.1 p.0 == scale p.1 q.0;
  is_finite = λ p. not (eqb p.1 0);
  floor = floored;
  round = λ p. floored (scale 2 p.0 +ℤ pos p.1, 2 * p.1);
}

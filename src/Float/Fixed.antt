-- ===== src/Float/Fixed.antt =====
-- A concrete number type that meets the laws: naturals in millionths, with no NaN and no infinity.
use Prim.Native.Nat.{ℕ, zero, suc, ◌+◌, ◌-◌, ◌*◌, ◌/◌, ◌^◌, ◌≤◌, ◌<◌, min}
use native.Mathlib.Nat.{
  mul-le-mul, mul-le-mul_left, mul-div_cancel_left, le-div_iff_mul-le, div-mul-le_self,
}
use daemon_choir.Base.{decimal, refl, true, arith, leb, ◌==◌, if◌then◌else◌}
use daemon_choir.Float.{F64, IsIeee}

abbrev pub Fixed : Type 0
Fixed = ℕ

abbrev unit : ℕ
unit = 1_000_000

abbrev fixed_lit : ℕ → ℕ → ℕ
fixed_lit m zero = m * unit
fixed_lit m (suc zero) = m * 100_000
fixed_lit m _ = m * 10_000

instance abbrev pub fixed_f64 : F64 Fixed
fixed_f64 = record {
  of_nat = λ n. n * unit;
  lit = fixed_lit;
  add = λ x y. x + y;
  sub = λ x y. x - y;
  mul = λ x y. x * y / unit;
  div = λ x y. x * unit / y;
  le = leb;
  is_finite = λ _. true;
  floor = λ x. x / unit * unit;
  round = λ x. (x + 500_000) / unit * unit;
  powf = λ x y. if y == 0 then unit else x;
  powi = λ x _. x * x / unit;
  ln = λ x. x - unit;
  sin = λ x. x;
  to_u64 = λ x. min (x / unit) (2 ^ 64 - 1);
  display = λ x. decimal (x / unit);
}

-- Division in order, where `omega` does not see that the divisor is one and the same.
div_mono : (k a b : ℕ) → 0 < k → a ≤ b → a / k ≤ b / k
div_mono k a b pos h = (le-div_iff_mul-le pos).1 (omega (arith, div-mul-le_self a k))

lit_pos : (m k : ℕ) → 0 < m → k ≤ 2 → 0 < fixed_lit m k
lit_pos m zero h _ = omega arith
lit_pos m (suc zero) h _ = omega arith
lit_pos m (suc (suc k)) h _ = omega arith

lit_lt_unit : (m k : ℕ) → m < 10 ^ k → k ≤ 2 → fixed_lit m k < unit
lit_lt_unit m zero h _ = omega arith
lit_lt_unit m (suc zero) h _ = omega arith
lit_lt_unit m (suc (suc zero)) h _ = omega arith
lit_lt_unit m (suc (suc (suc k))) h g = absurd (omega arith)

pub Fixed-IsIeee : IsIeee Fixed
Fixed-IsIeee = record {
  le_refl_left = λ x y h. ground arith;
  le_refl_right = λ x y h. ground arith;
  le_trans = λ x y z h k. ground arith;
  le_total = λ x y _ _. ground arith;
  nat_mono = λ m n h. ground arith;
  nat_lt = λ m n h _. ground arith;
  nat_finite = λ n h. refl;
  sub_mono = λ m x y _ h. ground arith;
  sub_self = λ m _. ground arith;
  sub_pos = λ x y _ _ h. ground arith;
  sub_finite = λ x m _ _ _. refl;
  add_mono = λ c x y _ h. ground arith;
  add_nonneg = λ x y h k. ground arith;
  add_mono_nonneg = λ a b x y _ _ h k. ground arith;
  add_zero = λ c _. ground arith;
  mul_mono = λ k x y _ _ h. let h' : x ≤ y = ground arith in ground (arith, mul-le-mul_left k h');
  mul_zero = λ k _ _. ground arith;
  mul_one = λ x. omega arith;
  mul_comm = λ x y. ground arith;
  div_mono = λ k x y p _ h. ground (arith, div_mono k (x * unit) (y * unit));
  div_zero = λ k p _. ground arith;
  div_self = λ k p _. ground (arith, mul-div_cancel_left unit {n = k});
  lit_pos = λ m k p q. ground (arith, lit_pos m k);
  lit_lt_one = λ m k p q. ground (arith, lit_lt_unit m k);
  lit_finite = λ m k _ _. refl;
  floor_mono = λ x y h. ground arith;
  floor_nat = λ n h. ground arith;
  round_mono = λ x y h. ground arith;
  round_nat = λ n h. ground arith;
  to_u64_mono = λ x y h. ground arith;
  to_u64_nat = λ n h. ground arith;
  powf_zero = λ x. refl;
  powi_zero = refl;
  powi_mono = λ x y _ h. let h' : x ≤ y = ground arith in ground (arith, mul-le-mul h' h');
  powi_one = refl;
  ln_one = refl;
}

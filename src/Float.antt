-- ===== src/Float.antt =====
-- `f64`, which no file of the repository implements: the operations and literals that the program
-- uses, as an interface, and the laws of IEEE 754 arithmetic (rounding to nearest) that the
-- theorems rely on.
pub mod Fixed
use daemon_choir.Base.{
  String, ℕ, ◌≡◌, Bool, true, false, if◌then◌else◌, ◌&&◌, not, Option, none, some, ◌<◌, ◌≤◌, ◌^◌,
  ◌⊎◌,
}

pub record F64 (F : Type 0) : Type 0 where
  -- `n as f64`, and the literals `0.0`, `1000.0`, ...
  pub of_nat : ℕ → F
  -- the literal m / 10^k: `lit 3 1` is `0.3`
  pub lit : ℕ → ℕ → F
  pub add : F → F → F
  pub sub : F → F → F
  pub mul : F → F → F
  pub div : F → F → F
  -- `a <= b`, which is false at NaN; `a >= b` is `le b a`
  pub le : F → F → Bool
  pub is_finite : F → Bool
  pub floor : F → F
  pub round : F → F
  pub powf : F → F → F
  pub powi : F → ℕ → F
  pub ln : F → F
  pub sin : F → F
  -- `x as u64` and `x as usize`, which saturate, and take NaN to 0
  pub to_u64 : F → ℕ
  -- `{}`
  pub display : F → String

infix 4 ◌≼◌ ◌≺◌
abbrev pub ◌≼◌ : {F : Type 0} ⦃f : F64 F⦄ → F → F → Type 0
◌≼◌ ⦃f⦄ x y = f.le x y ≡ true

-- `x < y` of two numbers, of which neither is NaN
abbrev pub ◌≺◌ : {F : Type 0} ⦃f : F64 F⦄ → F → F → Type 0
◌≺◌ ⦃f⦄ x y = (f.le x y ≡ true) × (f.le y x ≡ false)

abbrev pub IsFinite : {F : Type 0} ⦃f : F64 F⦄ → F → Type 0
IsFinite ⦃f⦄ x = f.is_finite x ≡ true

module _ {F : Type 0} ⦃f : F64 F⦄ where
  open f use {of_nat, le}

  abbrev pub lt : F → F → Bool
  lt x y = le x y && not (le y x)

  abbrev pub nought : F
  nought = of_nat 0

  abbrev pub one : F
  one = of_nat 1

  -- `x.clamp(lo, hi)`: `none` is its assertion `lo <= hi` that fails. NaN stays NaN.
  abbrev pub clamp : F → F → F → Option F
  clamp x lo hi =
      if le lo hi then some (if lt x lo then lo else if lt hi x then hi else x) else none

-- What IEEE 754 says of these operations. `x ≼ y` says that neither is NaN. Where infinities would
-- make a NaN, a law asks for a finite operand.
pub record IsIeee (F : Type 0) ⦃f : F64 F⦄ : Type 0 where
  pub le_refl_left : (x y : F) → x ≼ y → x ≼ x
  pub le_refl_right : (x y : F) → x ≼ y → y ≼ y
  pub le_trans : (x y z : F) → x ≼ y → y ≼ z → x ≼ z
  pub le_total : (x y : F) → x ≼ x → y ≼ y → (x ≼ y) ⊎ (y ≼ x)
  -- integers convert in order, and exactly up to 2^53
  pub nat_mono : (m n : ℕ) → m ≤ n → f.of_nat m ≼ f.of_nat n
  pub nat_lt : (m n : ℕ) → m < n → n ≤ 2 ^ 53 → f.of_nat m ≺ f.of_nat n
  pub nat_finite : (n : ℕ) → n ≤ 2 ^ 64 → IsFinite (f.of_nat n)
  -- each operation is exact, rounded in order
  pub sub_mono : (m x y : F) → IsFinite m → x ≼ y → f.sub x m ≼ f.sub y m
  pub sub_self : (m : F) → IsFinite m → f.sub m m ≡ nought
  pub sub_pos : (x y : F) → IsFinite x → IsFinite y → x ≺ y → nought ≺ f.sub y x
  pub sub_finite : (x m : F) → nought ≼ m → m ≼ x → IsFinite x → IsFinite (f.sub x m)
  pub add_mono : (c x y : F) → IsFinite c → x ≼ y → f.add c x ≼ f.add c y
  pub add_nonneg : (x y : F) → nought ≼ x → nought ≼ y → nought ≼ f.add x y
  pub add_mono_nonneg :
      (a b x y : F) → nought ≼ a → nought ≼ x → a ≼ b → x ≼ y → f.add a x ≼ f.add b y
  pub add_zero : (c : F) → IsFinite c → f.add c nought ≼ c × (c ≼ f.add c nought)
  pub mul_mono : (k x y : F) → nought ≺ k → IsFinite k → x ≼ y → f.mul k x ≼ f.mul k y
  pub mul_zero : (k : F) → nought ≺ k → IsFinite k → f.mul k nought ≡ nought
  pub mul_one : (x : F) → f.mul x one ≡ x
  pub mul_comm : (x y : F) → f.mul x y ≡ f.mul y x
  pub div_mono : (k x y : F) → nought ≺ k → IsFinite k → x ≼ y → f.div x k ≼ f.div y k
  pub div_zero : (k : F) → nought ≺ k → IsFinite k → f.div nought k ≡ nought
  pub div_self : (k : F) → nought ≺ k → IsFinite k → f.div k k ≡ one
  -- decimal literals of at most two places
  pub lit_pos : (m k : ℕ) → 0 < m → k ≤ 2 → nought ≺ f.lit m k
  pub lit_lt_one : (m k : ℕ) → m < 10 ^ k → k ≤ 2 → f.lit m k ≺ one
  pub lit_finite : (m k : ℕ) → m ≤ 2 ^ 64 → k ≤ 2 → IsFinite (f.lit m k)
  pub floor_mono : (x y : F) → x ≼ y → f.floor x ≼ f.floor y
  pub floor_nat : (n : ℕ) → n ≤ 2 ^ 53 → f.floor (f.of_nat n) ≡ f.of_nat n
  pub round_mono : (x y : F) → x ≼ y → f.round x ≼ f.round y
  pub round_nat : (n : ℕ) → n ≤ 2 ^ 53 → f.round (f.of_nat n) ≡ f.of_nat n
  pub to_u64_mono : (x y : F) → x ≼ y → f.to_u64 x ≤ f.to_u64 y
  pub to_u64_nat : (n : ℕ) → n ≤ 2 ^ 53 → f.to_u64 (f.of_nat n) ≡ n
  pub powf_zero : (x : F) → f.powf x nought ≡ one
  pub powi_zero : f.powi nought 2 ≡ nought
  pub powi_mono : (x y : F) → nought ≼ x → x ≼ y → f.powi x 2 ≼ f.powi y 2
  pub powi_one : f.powi one 2 ≡ one
  pub ln_one : f.ln one ≡ nought

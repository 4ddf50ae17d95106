-- ===== src/Events/Hash/Xor.antt =====
-- Exclusive or at every width: it undoes itself, and stays inside its word.
use Prim.Native.Nat.{differ, digits, bit_xor, bit_xor-bitwise}
use native.Mathlib.Nat.{pow-suc}
use daemon_choir.Base.{
  ℕ, zero, suc, ◌+◌, ◌*◌, ◌/◌, ◌%◌, ◌^◌, ◌≤◌, ◌<◌, ◌≡◌, refl, sym, ◌∙◌, ◌-◌, arith,
}

abbrev xor_digits : ℕ → ℕ → ℕ → ℕ
xor_digits n a b = digits (λ y. y) differ n a b

xor_digits_zero : (n b : ℕ) → xor_digits n 0 b ≡ b
xor_digits_zero zero b = refl
xor_digits_zero (suc n) b = refl

-- Any count of digits that is not below the number itself gives the same result.
xor_digits_enough : (n a b extra : ℕ) → a ≤ n → xor_digits (n + extra) a b ≡ xor_digits n a b
xor_digits_enough n zero b extra h = xor_digits_zero (n + extra) b ∙ sym (xor_digits_zero n b)
xor_digits_enough (suc n) (suc a) b extra h =
    let e : suc n + extra ≡ suc (n + extra) = omega arith in
    rw (e, xor_digits_enough n (suc a / 2) (b / 2) extra (omega arith))
xor_digits_enough zero (suc a) b extra h = absurd (omega arith)

-- The lowest digit, and the rest.
pub bit_xor_step : (a b : ℕ) → bit_xor a b ≡ bit_xor (a / 2) (b / 2) * 2 + differ (a % 2) (b % 2)
bit_xor_step zero b = simp bit_xor-bitwise (omega arith)
bit_xor_step (suc a) b =
    let half = suc a / 2 in
    let e : half + (a - half) ≡ a = omega arith in
    simp bit_xor-bitwise
      (omega (arith, rw e at (xor_digits_enough half half (b / 2) (a - half) (omega arith))))

differ_undo : (p q : ℕ) → p < 2 → q < 2 → differ (differ p q) q ≡ p
differ_undo zero zero _ _ = refl
differ_undo zero (suc zero) _ _ = refl
differ_undo (suc zero) zero _ _ = refl
differ_undo (suc zero) (suc zero) _ _ = refl
differ_undo (suc (suc p)) q h _ = absurd (omega arith)
differ_undo p (suc (suc q)) _ h = absurd (omega arith)

differ-lt : (p q : ℕ) → p < 2 → q < 2 → differ p q < 2
differ-lt zero q h k = k
differ-lt (suc p) zero h k = h
differ-lt (suc p) (suc q) h k = omega (arith, differ-lt p q)

-- Both numbers have at most `n` digits.
xor_undo_fuel : (n a b : ℕ) → a ≤ n → b ≤ n → bit_xor (bit_xor a b) b ≡ a
xor_undo_fuel zero zero zero _ _ = refl
xor_undo_fuel zero zero (suc b) _ q = absurd (omega arith)
xor_undo_fuel zero (suc a) b p _ = absurd (omega arith)
xor_undo_fuel (suc n) a b p q =
    let low = differ-lt (a % 2) (b % 2) (omega arith) (omega arith) in
    let rest : bit_xor a b / 2 ≡ bit_xor (a / 2) (b / 2) = omega (arith, bit_xor_step a b) in
    let last : bit_xor a b % 2 ≡ differ (a % 2) (b % 2) = omega (arith, bit_xor_step a b) in
    rw (bit_xor_step (bit_xor a b) b, rest, last)
      (omega (
        arith,
        differ_undo (a % 2) (b % 2),
        xor_undo_fuel n (a / 2) (b / 2) (omega arith) (omega arith),
      ))

-- A second exclusive or with the same number undoes the first.
pub bit_xor_undo : (a b : ℕ) → bit_xor (bit_xor a b) b ≡ a
bit_xor_undo a b = xor_undo_fuel (a + b) a b (omega arith) (omega arith)

-- The result needs no more binary digits than the two numbers.
pub bit_xor-lt : (k a b : ℕ) → a < 2 ^ k → b < 2 ^ k → bit_xor a b < 2 ^ k
bit_xor-lt zero zero zero _ _ = omega arith
bit_xor-lt zero zero (suc b) _ q = absurd (omega arith)
bit_xor-lt zero (suc a) b p _ = absurd (omega arith)
bit_xor-lt (suc k) a b p q =
    omega (
      arith,
      pow-suc 2 k,
      bit_xor_step a b,
      differ-lt (a % 2) (b % 2),
      bit_xor-lt k (a / 2) (b / 2),
    )

differ_comm : (p q : ℕ) → differ p q ≡ differ q p
differ_comm zero zero = refl
differ_comm zero (suc q) = refl
differ_comm (suc p) zero = refl
differ_comm (suc p) (suc q) = differ_comm p q

xor_comm_fuel : (n a b : ℕ) → a ≤ n → b ≤ n → bit_xor a b ≡ bit_xor b a
xor_comm_fuel zero zero zero _ _ = refl
xor_comm_fuel zero zero (suc b) _ q = absurd (omega arith)
xor_comm_fuel zero (suc a) b p _ = absurd (omega arith)
xor_comm_fuel (suc n) a b p q = omega (
  arith,
  bit_xor_step a b,
  bit_xor_step b a,
  differ_comm (a % 2) (b % 2),
  xor_comm_fuel n (a / 2) (b / 2) (omega arith) (omega arith),
)

pub bit_xor_comm : (a b : ℕ) → bit_xor a b ≡ bit_xor b a
bit_xor_comm a b = xor_comm_fuel (a + b) a b (omega arith) (omega arith)

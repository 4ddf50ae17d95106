-- ===== src/Osc/Histogram.antt =====
-- `PrometheusHistogram` of osc.rs.
use daemon_choir.Base.{
  suc, true, false, refl, ◌∙◌, ℕ, ◌+◌, ◌≤◌, ◌<◌, ◌^◌, ◌≡◌, Bool, List, [], ◌∷◌, if◌then◌else◌,
  add64, arith, length,
}
use daemon_choir.Float.{F64, IsIeee, ◌≼◌}

pub record PrometheusHistogram : Type 0 where
  pub sum_us : ℕ
  pub count : ℕ
  pub bucket_le_5 : ℕ
  pub bucket_le_10 : ℕ
  pub bucket_le_20 : ℕ

-- `PrometheusHistogram::default`
abbrev pub empty : PrometheusHistogram
empty = record { sum_us = 0; count = 0; bucket_le_5 = 0; bucket_le_10 = 0; bucket_le_20 = 0 }

-- `fetch_add(1)` if the test holds
abbrev bump : Bool → ℕ → ℕ
bump test n = if test then add64 n 1 else n

unfoldable pub observe : {F : Type 0} ⦃f : F64 F⦄ → PrometheusHistogram → F → PrometheusHistogram
observe ⦃f⦄ h ms = record {
  sum_us = add64 h.sum_us (f.to_u64 (f.mul ms (f.of_nat 1000)));
  count = add64 h.count 1;
  bucket_le_5 = bump (f.le ms (f.of_nat 5)) h.bucket_le_5;
  bucket_le_10 = bump (f.le ms (f.of_nat 10)) h.bucket_le_10;
  bucket_le_20 = bump (f.le ms (f.of_nat 20)) h.bucket_le_20;
}

unfoldable pub observe_all :
    {F : Type 0} ⦃f : F64 F⦄ → PrometheusHistogram → List F → PrometheusHistogram
observe_all h [] = h
observe_all h (ms ∷ rest) = observe_all (observe h ms) rest

-- The buckets are cumulative, as Prometheus wants them.
pub record IsCumulative (h : PrometheusHistogram) : Type 0 where
  pub le_5_10 : h.bucket_le_5 ≤ h.bucket_le_10
  pub le_10_20 : h.bucket_le_10 ≤ h.bucket_le_20
  pub le_20_count : h.bucket_le_20 ≤ h.count

abbrev bit : Bool → ℕ
bit test = if test then 1 else 0

bit_mono : (b c : Bool) {m n : ℕ} → (b ≡ true → c ≡ true) → m ≤ n → bit b + m ≤ bit c + n
bit_mono true true up le = omega arith
bit_mono true false up le = absurd (let e = up refl in grind arith)
bit_mono false true up le = omega arith
bit_mono false false up le = omega arith

bump_lem :
    (test : Bool) (n rest : ℕ)
    → n + suc rest < 2 ^ 64
    → (bump test n ≡ n + bit test) × (bump test n + rest < 2 ^ 64)
bump_lem true n rest room = (omega arith, omega arith)
bump_lem false n rest room = (omega arith, omega arith)

module _ {F : Type 0} ⦃f : F64 F⦄ where
  -- how many observations are at most this many milliseconds
  abbrev pub count_at_most : ℕ → List F → ℕ
  count_at_most bound [] = 0
  count_at_most bound (ms ∷ rest) = bit (f.le ms (f.of_nat bound)) + count_at_most bound rest

  observe_all-count :
      (h : PrometheusHistogram) (l : List F)
      → h.count + length l < 2 ^ 64
      → (observe_all h l).count ≡ h.count + length l
  unfolding observe_all observe
  observe_all-count h [] room = omega arith
  observe_all-count h (ms ∷ rest) room =
      let ih = observe_all-count (observe h ms) rest (omega arith) in omega arith

  -- a bucket after a list of observations, as a function of the bucket before
  bucket_all : ℕ → ℕ → List F → ℕ
  bucket_all bound n [] = n
  bucket_all bound n (ms ∷ rest) = bucket_all bound (bump (f.le ms (f.of_nat bound)) n) rest

  bucket_all-exact :
      (bound n : ℕ) (l : List F)
      → n + length l < 2 ^ 64
      → bucket_all bound n l ≡ n + count_at_most bound l
  unfolding bucket_all
  bucket_all-exact bound n [] room = omega arith
  bucket_all-exact bound n (ms ∷ rest) room =
      let step = bump_lem (f.le ms (f.of_nat bound)) n (length rest) room in
      let ih = bucket_all-exact bound (bump (f.le ms (f.of_nat bound)) n) rest step.1 in omega arith

  observe_all-buckets :
      (h : PrometheusHistogram) (l : List F)
      → ((observe_all h l).bucket_le_5 ≡ bucket_all 5 h.bucket_le_5 l)
        × ((observe_all h l).bucket_le_10 ≡ bucket_all 10 h.bucket_le_10 l)
        × ((observe_all h l).bucket_le_20 ≡ bucket_all 20 h.bucket_le_20 l)
  unfolding observe_all observe bucket_all
  observe_all-buckets h [] = (refl, refl, refl)
  observe_all-buckets h (ms ∷ rest) = observe_all-buckets (observe h ms) rest

  count_at_most_mono :
      IsIeee F → (m n : ℕ) (l : List F) → m ≤ n → count_at_most m l ≤ count_at_most n l
  count_at_most_mono laws m n [] le = omega arith
  count_at_most_mono laws m n (ms ∷ rest) le =
      let ih = count_at_most_mono laws m n rest le in
      let up : ms ≼ f.of_nat m → ms ≼ f.of_nat n =
        λ at_most. laws.le_trans ms (f.of_nat m) (f.of_nat n) at_most (laws.nat_mono m n le) in
      bit_mono (f.le ms (f.of_nat m)) (f.le ms (f.of_nat n)) up ih

  count_at_most-le_length : (n : ℕ) (l : List F) → count_at_most n l ≤ length l
  count_at_most-le_length n [] = omega arith
  count_at_most-le_length n (ms ∷ rest) = let ih = count_at_most-le_length n rest in ground arith

  -- For numbers that obey IEEE 754 and fewer than 2^64 observations from the empty histogram on:
  -- the count is their number, each bucket has exactly those at most the milliseconds that it is
  -- named for, and a wider bucket has at least as many as a narrower one, as a cumulative
  -- histogram must.
  pub observe_all-counts :
      IsIeee F
      → (l : List F) → length l < 2 ^ 64
      → ((observe_all empty l).count ≡ length l)
        × ((observe_all empty l).bucket_le_5 ≡ count_at_most 5 l)
        × ((observe_all empty l).bucket_le_10 ≡ count_at_most 10 l)
        × ((observe_all empty l).bucket_le_20 ≡ count_at_most 20 l)
        × IsCumulative (observe_all empty l)
  observe_all-counts laws l room =
      let b = observe_all-buckets empty l in
      let n = observe_all-count empty l (omega arith) in
      let b5 = b.0 ∙ bucket_all-exact 5 0 l (omega arith) in
      let b10 = b.1 ∙ bucket_all-exact 10 0 l (omega arith) in
      let b20 = b.2 ∙ bucket_all-exact 20 0 l (omega arith) in
      let up_10 = count_at_most_mono laws 5 10 l (omega arith) in
      let up_20 = count_at_most_mono laws 10 20 l (omega arith) in
      let up = count_at_most-le_length 20 l in
      (
        omega arith,
        omega arith,
        omega arith,
        omega arith,
        record { le_5_10 = omega arith; le_10_20 = omega arith; le_20_count = omega arith },
      )

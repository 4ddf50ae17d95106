-- ===== src/Aggregator/Percentile.antt =====
-- The latency that aggregator.rs calls the 95th percentile, and its independence of the order of arrival.
use daemon_choir.Base.{
  ℕ, zero, suc, ◌+◌, ◌≤◌, ◌<◌, ◌≡◌, refl, some, List, [], ◌∷◌, if◌then◌else◌, leb, length,
  get_elem?, arith,
}
use daemon_choir.Float.{F64}
use daemon_choir.Aggregator.Window.{insert_sorted, sort_unstable, percentile_index, raw_p95_latency}

-- From `lo` upwards, in ascending order.
abbrev Ascending : ℕ → List ℕ → Type 0
Ascending lo [] = Unit
Ascending lo (x ∷ xs) = (lo ≤ x) × Ascending x xs

insert_sorted-Ascending :
    (x lo : ℕ) (l : List ℕ) → lo ≤ x → Ascending lo l → Ascending lo (insert_sorted x l)
unfolding insert_sorted
insert_sorted-Ascending x lo [] h _ = (h, tt)
insert_sorted-Ascending x lo (y ∷ ys) h (p, ps) = ground (arith, insert_sorted-Ascending x y ys)

sort-Ascending : (l : List ℕ) → Ascending 0 (sort_unstable l)
unfolding sort_unstable
sort-Ascending [] = tt
sort-Ascending (x ∷ xs) =
    insert_sorted-Ascending x 0 (sort_unstable xs) (omega arith) (sort-Ascending xs)

length-insert_sorted : (x : ℕ) (l : List ℕ) → length (insert_sorted x l) ≡ suc (length l)
unfolding insert_sorted
length-insert_sorted x [] = refl
length-insert_sorted x (y ∷ ys) = ground (arith, length-insert_sorted x ys)

pub length-sort : (l : List ℕ) → length (sort_unstable l) ≡ length l
unfolding sort_unstable
length-sort [] = refl
length-sort (x ∷ xs) = omega (arith, length-insert_sorted x (sort_unstable xs), length-sort xs)

-- How many numbers are at most `v`, and at least `v`.
abbrev pub count_le : ℕ → List ℕ → ℕ
count_le v [] = 0
count_le v (x ∷ xs) = (if leb x v then 1 else 0) + count_le v xs

abbrev pub count_ge : ℕ → List ℕ → ℕ
count_ge v [] = 0
count_ge v (x ∷ xs) = (if leb v x then 1 else 0) + count_ge v xs

count_le-insert_sorted :
    (v x : ℕ) (l : List ℕ) → count_le v (insert_sorted x l) ≡ count_le v (x ∷ l)
unfolding insert_sorted
count_le-insert_sorted v x [] = refl
count_le-insert_sorted v x (y ∷ ys) = ground (arith, count_le-insert_sorted v x ys)

count_ge-insert_sorted :
    (v x : ℕ) (l : List ℕ) → count_ge v (insert_sorted x l) ≡ count_ge v (x ∷ l)
unfolding insert_sorted
count_ge-insert_sorted v x [] = refl
count_ge-insert_sorted v x (y ∷ ys) = ground (arith, count_ge-insert_sorted v x ys)

count_le-sort : (v : ℕ) (l : List ℕ) → count_le v (sort_unstable l) ≡ count_le v l
unfolding sort_unstable
count_le-sort v [] = refl
count_le-sort v (x ∷ xs) =
    omega (arith, count_le-insert_sorted v x (sort_unstable xs), count_le-sort v xs)

count_ge-sort : (v : ℕ) (l : List ℕ) → count_ge v (sort_unstable l) ≡ count_ge v l
unfolding sort_unstable
count_ge-sort v [] = refl
count_ge-sort v (x ∷ xs) =
    omega (arith, count_ge-insert_sorted v x (sort_unstable xs), count_ge-sort v xs)

Ascending-le : (lo v : ℕ) (l : List ℕ) (i : ℕ) → Ascending lo l → get_elem? l i ≡ some v → lo ≤ v
Ascending-le lo v [] i _ e = absurd (ground arith)
Ascending-le lo v (x ∷ xs) zero (p, ps) e = ground arith
Ascending-le lo v (x ∷ xs) (suc i) (p, ps) e = omega (arith, Ascending-le x v xs i ps e)

-- The numbers up to place `i` are at most the one there,
sorted_count_le :
    (lo v : ℕ) (l : List ℕ) (i : ℕ) → Ascending lo l → get_elem? l i ≡ some v → suc i ≤ count_le v l
sorted_count_le lo v [] i _ e = absurd (ground arith)
sorted_count_le lo v (x ∷ xs) zero (p, ps) e = ground arith
sorted_count_le lo v (x ∷ xs) (suc i) (p, ps) e =
    ground (arith, Ascending-le x v xs i ps e, sorted_count_le x v xs i ps e)

Ascending-count_ge : (lo v : ℕ) (l : List ℕ) → Ascending lo l → v ≤ lo → count_ge v l ≡ length l
Ascending-count_ge lo v [] _ h = refl
Ascending-count_ge lo v (x ∷ xs) (p, ps) h = ground (arith, Ascending-count_ge x v xs ps)

-- and those from there on at least that one.
sorted_count_ge :
    (lo v : ℕ) (l : List ℕ) (i : ℕ)
    → Ascending lo l
    → get_elem? l i ≡ some v
    → length l ≤ count_ge v l + i
sorted_count_ge lo v [] i _ e = omega arith
sorted_count_ge lo v (x ∷ xs) zero (p, ps) e = ground (arith, Ascending-count_ge x v xs ps)
sorted_count_ge lo v (x ∷ xs) (suc i) (p, ps) e = ground (arith, sorted_count_ge x v xs i ps e)

-- The rank of what stands at a place of the sorted list.
rank_of_place :
    (l : List ℕ) (v i : ℕ)
    → get_elem? (sort_unstable l) i ≡ some v
    → (suc i ≤ count_le v l) × (length l ≤ count_ge v l + i)
rank_of_place l v i e = (
  rw (← count_le-sort v l) (sorted_count_le 0 v (sort_unstable l) i (sort-Ascending l) e),
  rw (← count_ge-sort v l, ← length-sort l)
      (sorted_count_ge 0 v (sort_unstable l) i (sort-Ascending l) e),
)

get_elem?_total :
    {A : Type 0} (l : List A) (i : ℕ) → i < length l → (a : A) × (get_elem? l i ≡ some a)
get_elem?_total [] i h = absurd (omega arith)
get_elem?_total (x ∷ xs) zero h = (x, refl)
get_elem?_total (x ∷ xs) (suc i) h = get_elem?_total xs i (omega arith)

percentile_index-lt : (F : Type 0) ⦃f : F64 F⦄ (n : ℕ) → 0 < n → percentile_index F n < n
unfolding percentile_index
percentile_index-lt F n h = omega arith

module _ {F : Type 0} ⦃f : F64 F⦄ where
  open f use {of_nat}

  -- Of a window with latencies, the value is one that at least `index + 1` latencies do not
  -- exceed and that at least `length - index` latencies reach, where `index` is what the code
  -- computes: 95% of their number in floating point, rounded down and at most the last place. No
  -- index is out of bounds, whatever the floating-point operations return.
  pub raw_p95_rank :
      (l : List ℕ)
      → 0 < length l
      → let index = percentile_index F (length l) in
        (v : ℕ) × (raw_p95_latency l ≡ some (of_nat v))
        × (index < length l)
        × (suc index ≤ count_le v l)
        × (length l ≤ count_ge v l + index)
  unfolding raw_p95_latency
  raw_p95_rank [] h = absurd (omega arith)
  raw_p95_rank (x ∷ xs) h =
      let l = x ∷ xs in
      let lt = percentile_index-lt F (length l) h in
      let (v, e) =
        get_elem?_total (sort_unstable l) (percentile_index F (length l)) (rw (length-sort l) lt) in
      let (below, above) = rank_of_place l v (percentile_index F (length l)) e in
      (v, rw (length-sort l, e), lt, below, above)

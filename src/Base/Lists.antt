-- ===== src/Base/Lists.antt =====
-- Lists measured and indexed by native numbers, under the library's names.
use Prim.Native.Nat.{ℕ, zero, suc, ◌+◌}
use mathlib.Core.Path.{◌≡◌, refl, ap}
use mathlib.Core.List.{List, [], ◌∷◌, ◌++◌, map}
use mathlib.Core.Option.{Option, none, some}
use mathlib.Core.Bool.{Bool, true, false}
use daemon_choir.Base.Tests.{if◌then◌else◌, Bool-cases}
use mathlib.Core.Logic.{inl, inr}
use native.Mathlib.Omega.{arith}

module _ {ℓ} {A : Type ℓ} where
  abbrev pub length : List A → ℕ
  length [] = 0
  length (x ∷ xs) = suc (length xs)

  abbrev pub get_elem? : List A → ℕ → Option A
  get_elem? [] i = none
  get_elem? (x ∷ xs) zero = some x
  get_elem? (x ∷ xs) (suc i) = get_elem? xs i

  abbrev pub take : ℕ → List A → List A
  take zero xs = []
  take (suc n) [] = []
  take (suc n) (x ∷ xs) = x ∷ take n xs

  abbrev pub drop : ℕ → List A → List A
  drop zero xs = xs
  drop (suc n) [] = []
  drop (suc n) (x ∷ xs) = drop n xs

  abbrev pub replicate : ℕ → A → List A
  replicate zero a = []
  replicate (suc n) a = a ∷ replicate n a

  abbrev pub All {κ} : (A → Type κ) → List A → Type κ
  All P [] = Unit
  All P (x ∷ xs) = P x × All P xs

  pub length-append : (xs ys : List A) → length (xs ++ ys) ≡ length xs + length ys
  length-append [] ys = omega arith
  length-append (x ∷ xs) ys = omega (arith, length-append xs ys)

  pub length-replicate : (n : ℕ) (a : A) → length (replicate n a) ≡ n
  length-replicate zero a = refl
  length-replicate (suc n) a = ap suc (length-replicate n a)

  pub All-append {κ} : (P : A → Type κ) (xs ys : List A) → All P xs → All P ys → All P (xs ++ ys)
  All-append P [] ys _ q = q
  All-append P (x ∷ xs) ys (p, ps) q = (p, All-append P xs ys ps q)

  pub All-mono {κ μ} :
      (P : A → Type κ) (Q : A → Type μ) (xs : List A) → ((a : A) → P a → Q a) → All P xs → All Q xs
  All-mono P Q [] f _ = tt
  All-mono P Q (x ∷ xs) f (p, ps) = (f x p, All-mono P Q xs f ps)

module _ {ℓ κ} {A : Type ℓ} {B : Type κ} where
  pub length-map : (f : A → B) (xs : List A) → length (map f xs) ≡ length xs
  length-map f [] = refl
  length-map f (x ∷ xs) = ap suc (length-map f xs)

  pub map-map {μ} :
      {C : Type μ} (g : B → C) (f : A → B) (xs : List A) → map g (map f xs) ≡ map (λ x. g (f x)) xs
  map-map g f [] = refl
  map-map g f (x ∷ xs) = ap (λ l. g (f x) ∷ l) (map-map g f xs)

module _ {ℓ} {A : Type ℓ} where
  unfoldable pub filter : (A → Bool) → List A → List A
  filter keep [] = []
  filter keep (a ∷ l) = let rest = filter keep l in if keep a then a ∷ rest else rest

  pub filter-ext : (p q : A → Bool) (l : List A) → ((a : A) → p a ≡ q a) → filter p l ≡ filter q l
  unfolding filter
  filter-ext p q [] same = refl
  filter-ext p q (a ∷ l) same = rw (same a, filter-ext p q l same) refl

  pub filter-keep :
      (p : A → Bool) (a : A) (l : List A) → p a ≡ true → filter p (a ∷ l) ≡ a ∷ filter p l
  unfolding filter
  filter-keep p a l e = rw e refl

  pub filter-nil : (p : A → Bool) → filter p [] ≡ []
  unfolding filter
  filter-nil p = refl

  pub filter-drop :
      (p : A → Bool) (a : A) (l : List A) → p a ≡ false → filter p (a ∷ l) ≡ filter p l
  unfolding filter
  filter-drop p a l e = rw e refl

  pub filter-append : (p : A → Bool) (l m : List A) → filter p (l ++ m) ≡ filter p l ++ filter p m
  unfolding filter
  filter-append p [] m = refl
  filter-append p (a ∷ l) m =
      let ih = filter-append p l m in
      elim (Bool-cases (p a)) [ inl e ↦ rw (e, ih) refl | inr e ↦ rw (e, ih) refl ]

module _ {ℓ κ} {A : Type ℓ} {B : Type κ} where
  pub map-append : (g : A → B) (l m : List A) → map g (l ++ m) ≡ map g l ++ map g m
  map-append g [] m = refl
  map-append g (a ∷ l) m = ap (λ t. g a ∷ t) (map-append g l m)

module _ {ℓ} {A : Type ℓ} where
  -- A write out of bounds changes nothing.
  abbrev pub set : List A → ℕ → A → List A
  set [] i v = []
  set (x ∷ xs) zero v = v ∷ xs
  set (x ∷ xs) (suc i) v = x ∷ set xs i v

  -- the list without the element at this place
  abbrev pub remove : List A → ℕ → List A
  remove [] i = []
  remove (x ∷ xs) zero = xs
  remove (x ∷ xs) (suc i) = x ∷ remove xs i

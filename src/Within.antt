-- ===== src/Within.antt =====
-- Lists that come from another by leaving some of its items out: what is left of a queue that drops.
use daemon_choir.Base.{List, [], ◌∷◌, ◌++◌}

-- The first list is the second without some of its items, in the same order.
pub data IsWithin {A : Type 0} : List A → List A → Type 0 where
  done : IsWithin [] []
  drops : {y : A} {xs ys : List A} → IsWithin xs ys → IsWithin xs (y ∷ ys)
  keeps : {x : A} {xs ys : List A} → IsWithin xs ys → IsWithin (x ∷ xs) (x ∷ ys)

module _ {A : Type 0} where
  pub IsWithin-keeps :
      {xs ys : List A} (a : A) → IsWithin xs ys → IsWithin (xs ++ (a ∷ [])) (ys ++ (a ∷ []))
  IsWithin-keeps a done = keeps done
  IsWithin-keeps a (drops w) = drops (IsWithin-keeps a w)
  IsWithin-keeps a (keeps w) = keeps (IsWithin-keeps a w)

  pub IsWithin-drops : {xs ys : List A} (a : A) → IsWithin xs ys → IsWithin xs (ys ++ (a ∷ []))
  IsWithin-drops a done = drops done
  IsWithin-drops a (drops w) = drops (IsWithin-drops a w)
  IsWithin-drops a (keeps w) = keeps (IsWithin-drops a w)

  pub IsWithin-append :
      {xs ys us vs : List A} → IsWithin xs ys → IsWithin us vs → IsWithin (xs ++ us) (ys ++ vs)
  IsWithin-append done v = v
  IsWithin-append (drops w) v = drops (IsWithin-append w v)
  IsWithin-append (keeps w) v = keeps (IsWithin-append w v)

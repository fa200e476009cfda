-- ===== src/Prelude/Sublists.antt =====
-- Lists with some members left out.
use mathlib.Core.List.{List, [], ◌∷◌, ◌++◌}

module _ {ℓ} {A : Type ℓ} where
  -- The first list is the second, with some of its members left out.
  pub data Sublist : List A → List A → Type ℓ where
    empty : Sublist [] []
    skip : (x : A) {xs ys : List A} → Sublist xs ys → Sublist xs (x ∷ ys)
    keep : (x : A) {xs ys : List A} → Sublist xs ys → Sublist (x ∷ xs) (x ∷ ys)

  pub Sublist_refl : (xs : List A) → Sublist xs xs
  Sublist_refl [] = empty
  Sublist_refl (x ∷ xs) = keep x (Sublist_refl xs)

  pub Sublist_none : (xs : List A) → Sublist [] xs
  Sublist_none [] = empty
  Sublist_none (x ∷ xs) = skip x (Sublist_none xs)

  pub Sublist_append :
      {xs ys us vs : List A} → Sublist xs ys → Sublist us vs → Sublist (xs ++ us) (ys ++ vs)
  Sublist_append empty t = t
  Sublist_append (skip x s) t = skip x (Sublist_append s t)
  Sublist_append (keep x s) t = keep x (Sublist_append s t)

  pub Sublist_more : {xs ys : List A} (y : A) → Sublist xs ys → Sublist xs (ys ++ y ∷ [])
  Sublist_more y empty = skip y empty
  Sublist_more y (skip x s) = skip x (Sublist_more y s)
  Sublist_more y (keep x s) = keep x (Sublist_more y s)

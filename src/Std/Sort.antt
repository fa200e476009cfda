-- ===== src/Std/Sort.antt =====
-- sort.Slice, as insertion by the order that it is given, and what holds of its result.
use api_test.Prelude.{
  suc, ◌≡◌, ◌⊎◌, inl, inr, refl, sym, ap, ◌∙◌, Bool, true, false, List, [], ◌∷◌, if◌then◌else◌,
  length, All, Bool-cases,
}
use mathlib.Core.Path.{subst}
use mathlib.Core.List.{Permᴰ}

module _ {ℓ} {A : Type ℓ} (before : A → A → Bool) where
  unfoldable pub insert_by : A → List A → List A
  insert_by a [] = a ∷ []
  insert_by a (b ∷ rest) =
      let behind = insert_by a rest in if before b a then b ∷ behind else a ∷ b ∷ rest

  unfoldable pub sort_by : List A → List A
  unfolding insert_by
  sort_by [] = []
  sort_by (a ∷ rest) = insert_by a (sort_by rest)

  -- No element stands behind one that it comes before.
  abbrev pub IsSortedBy : List A → Type 0
  IsSortedBy [] = Unit
  IsSortedBy (a ∷ []) = Unit
  IsSortedBy (a ∷ b ∷ rest) = (before b a ≡ false) × IsSortedBy (b ∷ rest)

  pub length-insert_by : (a : A) (xs : List A) → length (insert_by a xs) ≡ suc (length xs)
  unfolding insert_by
  length-insert_by a [] = refl
  length-insert_by a (b ∷ rest) = elim (Bool-cases (before b a)) [
    | inl first ↦ rw first (ap suc (length-insert_by a rest))
    | inr last ↦ rw last refl
  ]

  pub length-sort_by : (xs : List A) → length (sort_by xs) ≡ length xs
  unfolding sort_by
  length-sort_by [] = refl
  length-sort_by (a ∷ rest) = length-insert_by a (sort_by rest) ∙ ap suc (length-sort_by rest)

  pub All-insert_by {κ} :
      (P : A → Type κ) (a : A) (xs : List A) → P a → All P xs → All P (insert_by a xs)
  unfolding insert_by
  All-insert_by P a [] p ps = (p, tt)
  All-insert_by P a (b ∷ rest) p (q, ps) = elim (Bool-cases (before b a)) [
    | inl first ↦ rw first (q, All-insert_by P a rest p ps)
    | inr last ↦ rw last (p, (q, ps))
  ]

  pub All-sort_by {κ} : (P : A → Type κ) (xs : List A) → All P xs → All P (sort_by xs)
  unfolding sort_by
  All-sort_by P [] ps = tt
  All-sort_by P (a ∷ rest) (p, ps) = All-insert_by P a (sort_by rest) p (All-sort_by P rest ps)

  -- Two elements that the order tells apart.
  abbrev pub Comparable : A → A → Type 0
  Comparable a b = (before a b ≡ true) ⊎ (before b a ≡ true)

  abbrev pub Apart : List A → Type ℓ
  Apart [] = Unit
  Apart (a ∷ rest) = All (Comparable a) rest × Apart rest

  abbrev pub Asymmetric : Type ℓ
  Asymmetric = (a b : A) → before a b ≡ true → before b a ≡ false

  abbrev pub Transitive : Type ℓ
  Transitive = (a b c : A) → before a b ≡ true → before b c ≡ true → before a c ≡ true

module _ {ℓ} {A : Type ℓ} (before : A → A → Bool) (asym : Asymmetric before) where
  pub insert_by-IsSortedBy :
      (a : A) (xs : List A) → IsSortedBy before xs → IsSortedBy before (insert_by before a xs)
  unfolding insert_by
  insert_by-IsSortedBy a [] h = tt
  insert_by-IsSortedBy a (b ∷ []) h = elim (Bool-cases (before b a)) [
    | inl first ↦ rw first (asym b a first, tt)
    | inr last ↦ rw last (last, tt)
  ]
  insert_by-IsSortedBy a (b ∷ c ∷ rest) (bc, h) = elim (Bool-cases (before b a)) [
    | inr last ↦ rw last (last, (bc, h))
    | inl first ↦ rw first (elim (Bool-cases (before c a)) [
      | inl second ↦ rw second (bc, rw second at (insert_by-IsSortedBy a (c ∷ rest) h))
      | inr third ↦ rw third (asym b a first, (third, h))
    ])
  ]

  pub sort_by-IsSortedBy : (xs : List A) → IsSortedBy before (sort_by before xs)
  unfolding sort_by
  sort_by-IsSortedBy [] = tt
  sort_by-IsSortedBy (a ∷ rest) =
      insert_by-IsSortedBy a (sort_by before rest) (sort_by-IsSortedBy rest)

module _ {ℓ} {A : Type ℓ} (before : A → A → Bool) (asym : Asymmetric before)
    (trans : Transitive before) where
  insert_by_first :
      (a b : A) (xs : List A) → before a b ≡ false → insert_by before b (a ∷ xs) ≡ b ∷ a ∷ xs
  unfolding insert_by
  insert_by_first a b xs h = rw h refl

  insert_by_behind :
      (a b : A) (xs : List A)
      → before a b ≡ true
      → insert_by before b (a ∷ xs) ≡ a ∷ insert_by before b xs
  unfolding insert_by
  insert_by_behind a b xs h = rw h refl

  insert_by_one :
      (a b : A)
      → before a b ≡ true
      → insert_by before a (insert_by before b []) ≡ insert_by before b (insert_by before a [])
  unfolding insert_by
  insert_by_one a b ab = rw (ab, asym a b ab) refl

  insert_by_comm :
      (a b : A) (xs : List A)
      → before a b ≡ true
      → insert_by before a (insert_by before b xs) ≡ insert_by before b (insert_by before a xs)
  insert_by_comm a b [] ab = insert_by_one a b ab
  insert_by_comm a b (c ∷ rest) ab = elim (Bool-cases (before c a)) [
    | inl ca ↦
        let cb = trans c a b ca ab in
        rw (insert_by_behind c b rest cb, insert_by_behind c a rest ca)
          (rw
            (
              insert_by_behind c a (insert_by before b rest) ca,
              insert_by_behind c b (insert_by before a rest) cb,
            )
            (ap (λ r. c ∷ r) (insert_by_comm a b rest ab)))
    | inr ca ↦ elim (Bool-cases (before c b)) [
      | inl cb ↦
          rw (insert_by_behind c b rest cb, insert_by_first c a rest ca)
            (rw
              (insert_by_first c a (insert_by before b rest) ca, insert_by_behind a b (c ∷ rest) ab)
              (ap (λ r. a ∷ r) (sym (insert_by_behind c b rest cb))))
      | inr cb ↦
          rw (insert_by_first c b rest cb, insert_by_first c a rest ca)
            (rw
              (
                insert_by_first b a (c ∷ rest) (asym a b ab),
                insert_by_behind a b (c ∷ rest) ab,
                insert_by_first c b rest cb,
              )
              refl)
    ]
  ]

  insert_by_swap :
      (a b : A) (xs : List A)
      → Comparable before a b
      → insert_by before a (insert_by before b xs) ≡ insert_by before b (insert_by before a xs)
  insert_by_swap a b xs (inl ab) = insert_by_comm a b xs ab
  insert_by_swap a b xs (inr ba) = sym (insert_by_comm b a xs ba)

  All-perm {κ} : (P : A → Type κ) {xs ys : List A} → Permᴰ xs ys → All P xs → All P ys
  All-perm P Permᴰ.nil h = h
  All-perm P (Permᴰ.cons e p) (h, hs) = (rw (← e) h, All-perm P p hs)
  All-perm P (Permᴰ.swap e f) (h, (k, hs)) = (rw (← f) k, (rw (← e) h, hs))
  All-perm P (Permᴰ.trans p q) h = All-perm P q (All-perm P p h)

  Comparable-sym : (a b : A) → Comparable before a b → Comparable before b a
  Comparable-sym a b (inl h) = inr h
  Comparable-sym a b (inr h) = inl h

  Apart-perm : {xs ys : List A} → Permᴰ xs ys → Apart before xs → Apart before ys
  Apart-perm Permᴰ.nil h = h
  Apart-perm (Permᴰ.cons {a} e p) (h, hs) =
      rw (← e) (All-perm (Comparable before a) p h, Apart-perm p hs)
  Apart-perm (Permᴰ.swap {a} {b} {b' = b'} {l} e f) ((ab, ha), (hb, hs)) =
      subst (λ z. Apart before (z ∷ b' ∷ l)) f
        (subst (λ z. Apart before (b ∷ z ∷ l)) e ((Comparable-sym a b ab, hb), (ha, hs)))
  Apart-perm (Permᴰ.trans p q) h = Apart-perm q (Apart-perm p h)

  -- The result does not depend on the order in which the elements stand.
  pub sort_by-perm :
      {xs ys : List A} → Permᴰ xs ys → Apart before xs → sort_by before xs ≡ sort_by before ys
  unfolding sort_by
  sort_by-perm Permᴰ.nil h = refl
  sort_by-perm (Permᴰ.cons {a} e p) (h, hs) = rw (← e) (ap (insert_by before a) (sort_by-perm p hs))
  sort_by-perm (Permᴰ.swap {a} {b} {l = l} e f) ((ab, _), _) =
      rw (← e, ← f) (insert_by_swap a b (sort_by before l) ab)
  sort_by-perm (Permᴰ.trans p q) h = sort_by-perm p h ∙ sort_by-perm q (Apart-perm p h)

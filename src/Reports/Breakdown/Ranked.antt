-- ===== src/Reports/Breakdown/Ranked.antt =====
-- The order in which groups are shown, and that it does not depend on how Go visits a map.
use api_test.Prelude.{
  ◌≡◌, ◌⊎◌, refl, sym, true, false, [], ◌∷◌, ltb, ◌==◌, All, arith, Bool-cases, inl, inr,
}
use mathlib.Core.List.{Permᴰ}
use api_test.Std.Text.{Text, str_eq}
use api_test.Std.Sort.{
  Comparable, Apart, Asymmetric, Transitive, sort_by-perm, sort_by-IsSortedBy, IsSortedBy,
}
use api_test.Std.Http.{Table}
use api_test.Audit.Memory.{text_lt}
use api_test.Reports.Aggregate.{Counts}
use api_test.Reports.Breakdown.{ranks_before, rank}
use api_test.Reports.Breakdown.Grouped.{Distinct}

text_lt_asym : (s t : Text) → text_lt s t ≡ true → text_lt t s ≡ false
unfolding text_lt
text_lt_asym [] [] h = refl
text_lt_asym [] (c ∷ t) h = refl
text_lt_asym (c ∷ s) [] h = cc
text_lt_asym (c ∷ s) (d ∷ t) h = ground (arith, text_lt_asym s t)

text_lt_trans : (s t u : Text) → text_lt s t ≡ true → text_lt t u ≡ true → text_lt s u ≡ true
unfolding text_lt
text_lt_trans [] [] u h k = cc
text_lt_trans [] (d ∷ t) [] h k = cc
text_lt_trans [] (d ∷ t) (e ∷ u) h k = refl
text_lt_trans (c ∷ s) [] u h k = cc
text_lt_trans (c ∷ s) (d ∷ t) [] h k = cc
text_lt_trans (c ∷ s) (d ∷ t) (e ∷ u) h k = ground (arith, text_lt_trans s t u)

text_lt_total : (s t : Text) → str_eq s t ≡ false → (text_lt s t ≡ true) ⊎ (text_lt t s ≡ true)
unfolding text_lt str_eq
text_lt_total [] [] h = cc
text_lt_total [] (d ∷ t) h = inl refl
text_lt_total (c ∷ s) [] h = inr refl
text_lt_total (c ∷ s) (d ∷ t) h = elim (Bool-cases (c == d)) [
  | inl same ↦ elim (text_lt_total s t (ground arith)) [
    | inl lt ↦ inl (ground arith)
    | inr gt ↦ inr (ground arith)
  ]
  | inr other ↦ elim (Bool-cases (ltb c d)) [
    | inl lt ↦ inl (ground arith)
    | inr gt ↦ inr (ground arith)
  ]
]

pub ranks_before_asym : Asymmetric ranks_before
unfolding ranks_before
ranks_before_asym (j, a) (k, b) h = ground (arith, text_lt_asym j k)

ranks_before_trans : Transitive ranks_before
unfolding ranks_before
ranks_before_trans (i, a) (j, b) (k, c) h g = ground (arith, text_lt_trans i j k)

ranks_before_total :
    (j k : Text) (a b : Counts) → str_eq j k ≡ false → Comparable ranks_before (j, a) (k, b)
unfolding ranks_before
ranks_before_total j k a b h = elim (text_lt_total j k h) [
  | inl lt ↦ elim (Bool-cases (ltb a.count b.count)) [
    | inl less ↦ inr (ground arith)
    | inr more ↦ inl (ground arith)
  ]
  | inr gt ↦ elim (Bool-cases (ltb b.count a.count)) [
    | inl less ↦ inl (ground arith)
    | inr more ↦ inr (ground arith)
  ]
]

apart_from :
    (k : Text) (a : Counts) (m : Table Counts)
    → All (λ (g : Text × Counts). str_eq k g.0 ≡ false) m
    → All (Comparable ranks_before (k, a)) m
apart_from k a [] h = tt
apart_from k a ((j, b) ∷ m) (new, h) = (ranks_before_total k j a b new, apart_from k a m h)

Distinct-Apart : (m : Table Counts) → Distinct m → Apart ranks_before m
Distinct-Apart [] h = tt
Distinct-Apart ((k, a) ∷ m) (new, h) = (apart_from k a m new, Distinct-Apart m h)

-- Groups are ranked alike in whatever order they are listed first.
pub rank-perm :
    (m : Table Counts) {shuffled : Table Counts}
    → Distinct m
    → Permᴰ m shuffled
    → rank shuffled ≡ rank m
unfolding rank
rank-perm m h p =
    sym (sort_by-perm ranks_before ranks_before_asym ranks_before_trans p (Distinct-Apart m h))

-- No group stands behind one that it comes before.
pub rank-IsSortedBy : (m : Table Counts) → IsSortedBy ranks_before (rank m)
unfolding rank
rank-IsSortedBy m = sort_by-IsSortedBy ranks_before ranks_before_asym m

-- ===== src/Reports/Breakdown/Ordered.antt =====
-- The whole ranking of the groups, of which the answer shows the first.
use api_test.Prelude.{
  ℕ, zero, suc, ◌+◌, ◌<◌, ◌≡◌, ◌⊎◌, refl, ap, ◌∙◌, false, List, [], ◌∷◌, length, take, ◌==◌, All,
  arith, Bool-cases, inl, inr,
}
use api_test.Std.Text.{Text, str_eq, str_eq_iff}
use api_test.Std.Sort.{insert_by, sort_by, IsSortedBy, All-insert_by}
use api_test.Std.Float.{Float64}
use api_test.Std.Http.{Table}
use api_test.Audit.Event.{Event}
use api_test.Audit.Memory.{text_lt}
use api_test.Reports.Aggregate.{Counts}
use api_test.Reports.Breakdown.{ranks_before, rank, group_by, Group, groups_out}
use api_test.Reports.Breakdown.Grouped.{
  Distinct, group_by-Distinct, sum_groups, sum_groups-group_by,
}
use api_test.Reports.Breakdown.Ranked.{rank-IsSortedBy}

sum_groups-insert_by :
    (g : Text × Counts) (m : Table Counts)
    → sum_groups (insert_by ranks_before g m) ≡ g.1.count + sum_groups m
unfolding sum_groups insert_by
sum_groups-insert_by g [] = refl
sum_groups-insert_by g (h ∷ m) = elim (Bool-cases (ranks_before h g)) [
  | inl first ↦ rw first (omega (arith, sum_groups-insert_by g m))
  | inr last ↦ rw last refl
]

sum_groups-rank : (m : Table Counts) → sum_groups (rank m) ≡ sum_groups m
unfolding rank sort_by sum_groups
sum_groups-rank [] = refl
sum_groups-rank (g ∷ m) =
    sum_groups-insert_by g (rank m) ∙ ap (λ n. g.1.count + n) (sum_groups-rank m)

str_eq_sym : (s t : Text) → str_eq s t ≡ false → str_eq t s ≡ false
str_eq_sym s t h = ground (arith, str_eq_iff s t, str_eq_iff t s)

insert_by-Distinct :
    (k : Text) (a : Counts) (m : Table Counts)
    → All (λ (g : Text × Counts). str_eq k g.0 ≡ false) m
    → Distinct m
    → Distinct (insert_by ranks_before (k, a) m)
unfolding insert_by
insert_by-Distinct k a [] new h = (tt, tt)
insert_by-Distinct k a ((j, b) ∷ m) (differs, new) (new_j, h) =
    elim (Bool-cases (ranks_before (j, b) (k, a))) [
      | inl first ↦ rw first (
        All-insert_by ranks_before (λ (g : Text × Counts). str_eq j g.0 ≡ false) (k, a) m
            (str_eq_sym k j differs) new_j,
        insert_by-Distinct k a m new h,
      )
      | inr last ↦ rw last ((differs, new), (new_j, h))
    ]

All-rank : (P : Text × Counts → Type 0) (m : Table Counts) → All P m → All P (rank m)
unfolding rank sort_by
All-rank P [] h = tt
All-rank P (g ∷ m) (p, h) = All-insert_by ranks_before P g (rank m) p (All-rank P m h)

rank-Distinct : (m : Table Counts) → Distinct m → Distinct (rank m)
unfolding rank sort_by
rank-Distinct [] h = tt
rank-Distinct ((k, a) ∷ m) (new, h) =
    insert_by-Distinct k a (rank m) (All-rank (λ (g : Text × Counts). str_eq k g.0 ≡ false) m new)
      (rank-Distinct m h)

module _ (F : Float64) where
  -- A group stands before one with fewer events, or with as many and no smaller key.
  abbrev Above : Group F → Group F → Type 0
  Above g h = (h.count < g.count) ⊎ (h.count ≡ g.count) × (text_lt h.key g.key ≡ false)

  abbrev IsRanked : List (Group F) → Type 0
  IsRanked [] = Unit
  IsRanked (g ∷ []) = Unit
  IsRanked (g ∷ h ∷ groups) = Above g h × IsRanked (h ∷ groups)

  abbrev Apart : List (Group F) → Type 0
  Apart [] = Unit
  Apart (g ∷ groups) = All (λ (h : Group F). str_eq g.key h.key ≡ false) groups × Apart groups

  abbrev total : List (Group F) → ℕ
  total [] = 0
  total (g ∷ groups) = g.count + total groups

  -- The ranking of some events: no key stands twice, the groups count all events, the ones with more
  -- events come first, and among those with as many the smaller keys.
  pub record IsRanking (events : List Event) (groups : List (Group F)) : Type 0 where
    pub ranked : IsRanked groups
    pub apart : Apart groups
    pub complete : total groups ≡ length events

  above_of :
      (j k : Text) (a b : Counts)
      → ranks_before (k, b) (j, a) ≡ false
      → (b.count < a.count) ⊎ (b.count ≡ a.count) × (text_lt k j ≡ false)
  unfolding ranks_before
  above_of j k a b h = elim (Bool-cases (b.count == a.count)) [
    | inl same ↦ inr (ground arith)
    | inr differs ↦ inl (ground arith)
  ]

  groups_out-IsRanked : (m : Table Counts) → IsSortedBy ranks_before m → IsRanked (groups_out F m)
  unfolding groups_out
  groups_out-IsRanked [] h = tt
  groups_out-IsRanked ((k, a) ∷ []) h = tt
  groups_out-IsRanked ((k, a) ∷ (j, b) ∷ m) (first, h) =
      (above_of k j a b first, groups_out-IsRanked ((j, b) ∷ m) h)

  groups_out-All :
      (k : Text) (m : Table Counts)
      → All (λ (g : Text × Counts). str_eq k g.0 ≡ false) m
      → All (λ (h : Group F). str_eq k h.key ≡ false) (groups_out F m)
  unfolding groups_out
  groups_out-All k [] h = tt
  groups_out-All k ((j, a) ∷ m) (new, h) = (new, groups_out-All k m h)

  groups_out-Apart : (m : Table Counts) → Distinct m → Apart (groups_out F m)
  unfolding groups_out
  groups_out-Apart [] h = tt
  groups_out-Apart ((k, a) ∷ m) (new, h) = (groups_out-All k m new, groups_out-Apart m h)

  total-groups_out : (m : Table Counts) → total (groups_out F m) ≡ sum_groups m
  unfolding groups_out sum_groups
  total-groups_out [] = refl
  total-groups_out ((k, a) ∷ m) = ap (λ n. a.count + n) (total-groups_out m)

  pub take-groups_out :
      (n : ℕ) (m : Table Counts) → groups_out F (take n m) ≡ take n (groups_out F m)
  unfolding groups_out
  take-groups_out zero m = refl
  take-groups_out (suc n) [] = refl
  take-groups_out (suc n) ((k, a) ∷ m) = rw (take-groups_out n m) refl

  pub groups_out-IsRanking :
      (key_of : Event → Text) (events : List Event)
      → IsRanking events (groups_out F (rank (group_by key_of events [])))
  groups_out-IsRanking key_of events =
      let m = group_by key_of events [] in
      record {
        ranked = groups_out-IsRanked (rank m) (rank-IsSortedBy m);
        apart = groups_out-Apart (rank m) (rank-Distinct m (group_by-Distinct key_of events [] tt));
        complete =
            total-groups_out (rank m)
            ∙ (sum_groups-rank m
                ∙ (sum_groups-group_by key_of events [] ∙ (unfold sum_groups in omega arith)));
      }

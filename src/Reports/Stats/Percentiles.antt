-- ===== src/Reports/Stats/Percentiles.antt =====
-- What a percentile is.
use api_test.Prelude.{
  ℕ, zero, suc, ◌-◌, ◌≤◌, ◌<◌, ◌≡◌, refl, sym, ap, ◌∙◌, Bool, true, ◌||◌, List, [], ◌∷◌, ltb, ◌==◌,
  length, get_elem?, any, arith,
}
use api_test.Prelude.Int.{ℤ, pos, negsuc, leb_ℤ}
use api_test.Std.Float.{Float64}
use api_test.Std.Sort.{IsSortedBy, insert_by, sort_by, sort_by-IsSortedBy, length-sort_by}
use api_test.Reports.Stats.{sort_durations, clamp_index, value_or_zero, rank_index, percentile}

-- The number stands in the list.
unfoldable pub holds : ℕ → List ℕ → Bool
holds d ds = any (λ e. e == d) ds

holds-insert_by :
    (d e : ℕ) (ds : List ℕ) → holds d (insert_by (λ a b. ltb a b) e ds) ≡ ((e == d) || holds d ds)
unfolding holds insert_by
holds-insert_by d e [] = refl
holds-insert_by d e (b ∷ ds) = ground (arith, holds-insert_by d e ds)

holds-cons : (d e : ℕ) (ds : List ℕ) → holds d (e ∷ ds) ≡ ((e == d) || holds d ds)
unfolding holds
holds-cons d e ds = refl

pub holds-sort_durations : (d : ℕ) (ds : List ℕ) → holds d (sort_durations ds) ≡ holds d ds
unfolding sort_durations
holds-sort_durations d [] = refl
holds-sort_durations d (e ∷ ds) =
    holds-insert_by d e (sort_by (λ a b. ltb a b) ds)
    ∙ (ap (λ r. (e == d) || r) (holds-sort_durations d ds) ∙ sym (holds-cons d e ds))

get_elem?-holds :
    (ds : List ℕ) (i : ℕ) → i < length ds → holds (value_or_zero (get_elem? ds i)) ds ≡ true
unfolding holds value_or_zero
get_elem?-holds [] i h = elim h [ ]
get_elem?-holds (d ∷ ds) zero h = ground arith
get_elem?-holds (d ∷ ds) (suc i) h = ground (arith, get_elem?-holds ds i (omega arith))

clamp_index_bounds : (n : ℕ) (z : ℤ) → 0 < n → clamp_index n z < n
unfolding clamp_index
clamp_index_bounds n (negsuc i) h = h
clamp_index_bounds n (pos i) h = ground arith

clamp_index_mono : (n : ℕ) (y z : ℤ) → leb_ℤ y z ≡ true → clamp_index n y ≤ clamp_index n z
unfolding clamp_index
clamp_index_mono n (negsuc i) z h = omega arith
clamp_index_mono n (pos i) (negsuc j) h = cc
clamp_index_mono n (pos i) (pos j) h = ground arith

from_head :
    (d : ℕ) (ds : List ℕ) (j : ℕ)
    → IsSortedBy (λ a b. ltb a b) (d ∷ ds)
    → j < length (d ∷ ds)
    → d ≤ value_or_zero (get_elem? (d ∷ ds) j)
unfolding value_or_zero
from_head d ds zero s h = omega arith
from_head d [] (suc j) s h = absurd (omega arith)
from_head d (e ∷ ds) (suc j) (de, s) h = let tail = from_head e ds j s (omega arith) in ground arith

ascending_at :
    (ds : List ℕ) (i j : ℕ)
    → IsSortedBy (λ a b. ltb a b) ds
    → i ≤ j
    → j < length ds
    → value_or_zero (get_elem? ds i) ≤ value_or_zero (get_elem? ds j)
unfolding value_or_zero
ascending_at [] i j s le h = elim h [ ]
ascending_at (d ∷ ds) zero j s le h = from_head d ds j s h
ascending_at (d ∷ ds) (suc i) zero s le h = absurd (omega arith)
ascending_at (d ∷ []) (suc i) (suc j) s le h = absurd (omega arith)
ascending_at (d ∷ e ∷ ds) (suc i) (suc j) (de, s) le h =
    ascending_at (e ∷ ds) i j s (omega arith) (omega arith)

sort_durations-IsSortedBy : (ds : List ℕ) → IsSortedBy (λ a b. ltb a b) (sort_durations ds)
unfolding sort_durations
sort_durations-IsSortedBy ds = sort_by-IsSortedBy (λ a b. ltb a b) (λ a b h. ground arith) ds

-- A larger fraction of a number is not truncated to a smaller index.
abbrev pub Monotone : Float64 → Type 0
Monotone F =
    (n m k : ℕ)
    → m ≤ k
    → leb_ℤ (F.to_int (F.mul (F.of_int (pos n)) (F.decimal m 2)))
        (F.to_int (F.mul (F.of_int (pos n)) (F.decimal k 2)))
      ≡ true

module _ (F : Float64) where
  percentile_held :
      (ds : List ℕ) (p : F.Float) → 0 < length ds → holds (percentile F ds p) ds ≡ true
  unfolding percentile
  percentile_held [] p h = elim h [ ]
  percentile_held (d ∷ ds) p h =
      get_elem?-holds (d ∷ ds) _ (clamp_index_bounds (length (d ∷ ds)) _ h)

  percentile-cons :
      (d : ℕ) (ds : List ℕ) (p : F.Float)
      → percentile F (d ∷ ds) p
        ≡ value_or_zero (get_elem? (d ∷ ds) (rank_index F (length (d ∷ ds)) p))
  unfolding percentile
  percentile-cons d ds p = refl

  percentile_ordered :
      (sorted : List ℕ) (m k : ℕ)
      → Monotone F
      → m ≤ k
      → IsSortedBy (λ a b. ltb a b) sorted
      → percentile F sorted (F.decimal m 2) ≤ percentile F sorted (F.decimal k 2)
  unfolding rank_index
  percentile_ordered [] m k mono le s = unfold percentile in (omega arith)
  percentile_ordered (d ∷ ds) m k mono le s =
      rw (percentile-cons d ds (F.decimal m 2), percentile-cons d ds (F.decimal k 2))
        (ascending_at (d ∷ ds) _ _ s
          (clamp_index_mono (length (d ∷ ds)) _ _ (mono (length (d ∷ ds) - 1) m k le))
          (clamp_index_bounds (length (d ∷ ds)) _ (omega arith)))

  -- The percentiles of durations that a handler sorted: ordered as their fractions are.
  pub percentile_mono :
      (ds : List ℕ) (m k : ℕ)
      → Monotone F
      → m ≤ k
      → percentile F (sort_durations ds) (F.decimal m 2)
        ≤ percentile F (sort_durations ds) (F.decimal k 2)
  percentile_mono ds m k mono le =
      percentile_ordered (sort_durations ds) m k mono le (sort_durations-IsSortedBy ds)

  -- A percentile of some durations is one of them.
  pub percentile-sort_durations :
      (ds : List ℕ) (p : F.Float)
      → 0 < length ds
      → holds (percentile F (sort_durations ds) p) ds ≡ true
  percentile-sort_durations ds p some_ds =
      sym (holds-sort_durations (percentile F (sort_durations ds) p) ds)
      ∙ percentile_held (sort_durations ds) p
          (unfold sort_durations in (omega (arith, length-sort_by (λ (a b : ℕ). ltb a b) ds)))

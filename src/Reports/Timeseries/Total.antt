-- ===== src/Reports/Timeseries/Total.antt =====
-- No event of the window is lost between the buckets or counted twice.
use api_test.Prelude.{
  ℕ, zero, suc, ◌+◌, ◌/◌, ◌≤◌, ◌<◌, ◌≡◌, refl, ◌∙◌, Bool, true, false, ◌&&◌, ◌||◌, not, List, [],
  ◌∷◌, ltb, leb, length, arith, Bool-cases, inl, inr,
}
use api_test.Audit.Event.{Event}
use api_test.Reports.Aggregate.{Counts, bump, select}
use api_test.Reports.Timeseries.{
  elapsed, total_buckets, bump_at, empty_buckets, place, place_all, count_buckets,
}

-- Between the window's ends, the later one left out.
unfoldable pub in_window : ℕ → ℕ → Event → Bool
in_window from to ev = leb from ev.timestamp && ltb ev.timestamp to

unfoldable pub sum_counts : List Counts → ℕ
sum_counts [] = 0
sum_counts (a ∷ bs) = a.count + sum_counts bs

sum_counts-empty_buckets : (n : ℕ) → sum_counts (empty_buckets n) ≡ 0
unfolding sum_counts empty_buckets
sum_counts-empty_buckets zero = refl
sum_counts-empty_buckets (suc n) = omega (arith, sum_counts-empty_buckets n)

length-empty_buckets : (n : ℕ) → length (empty_buckets n) ≡ n
unfolding empty_buckets
length-empty_buckets zero = refl
length-empty_buckets (suc n) = omega (arith, length-empty_buckets n)

length-bump_at : (i : ℕ) (ev : Event) (bs : List Counts) → length (bump_at i ev bs) ≡ length bs
unfolding bump_at
length-bump_at i ev [] = refl
length-bump_at zero ev (b ∷ bs) = refl
length-bump_at (suc i) ev (b ∷ bs) = omega (arith, length-bump_at i ev bs)

sum_counts-bump_at :
    (i : ℕ) (ev : Event) (bs : List Counts)
    → i < length bs
    → sum_counts (bump_at i ev bs) ≡ sum_counts bs + 1
unfolding sum_counts bump_at bump
sum_counts-bump_at i ev [] h = elim h [ ]
sum_counts-bump_at zero ev (b ∷ bs) h = omega arith
sum_counts-bump_at (suc i) ev (b ∷ bs) h = omega (arith, sum_counts-bump_at i ev bs (omega arith))

quotient_mono : (a b w : ℕ) → 0 < w → a ≤ b → a / w < b / w + 1
quotient_mono a b w pos h = grind arith

module _ (from to width : ℕ) (wide : 0 < width) where
  index_in_range :
      (ev : Event)
      → from ≤ ev.timestamp
      → ev.timestamp < to
      → elapsed from ev.timestamp / width < total_buckets from to width
  unfolding total_buckets
  index_in_range ev lo hi =
      let below =
        quotient_mono (elapsed from ev.timestamp) (elapsed from to) width wide (omega arith) in
      ground arith

  place_inside :
      (total : ℕ) (ev : Event) (bs : List Counts)
      → total ≡ total_buckets from to width
      → in_window from to ev ≡ true
      → place from to width total ev bs ≡ bump_at (elapsed from ev.timestamp / width) ev bs
  unfolding place in_window
  place_inside total ev bs e inside =
      let below = index_in_range ev (ground arith) (ground arith) in
      let after : ltb ev.timestamp from ≡ false = ground arith in
      let before : ltb ev.timestamp to ≡ true = ground arith in
      let held : leb total (elapsed from ev.timestamp / width) ≡ false = ground arith in
      rw (after, before, held) refl

  place_outside :
      (total : ℕ) (ev : Event) (bs : List Counts)
      → in_window from to ev ≡ false
      → place from to width total ev bs ≡ bs
  unfolding place in_window
  place_outside total ev bs outside =
      let missed : (ltb ev.timestamp from || not (ltb ev.timestamp to)) ≡ true = ground arith in
      rw missed refl

  length-place :
      (total : ℕ) (ev : Event) (bs : List Counts)
      → total ≡ total_buckets from to width
      → length (place from to width total ev bs) ≡ length bs
  length-place total ev bs e = elim (Bool-cases (in_window from to ev)) [
    | inl inside ↦ rw (place_inside total ev bs e inside) (length-bump_at _ ev bs)
    | inr outside ↦ rw (place_outside total ev bs outside) refl
  ]

  sum_counts-place_all :
      (total : ℕ) (events : List Event) (bs : List Counts)
      → total ≡ total_buckets from to width
      → length bs ≡ total
      → sum_counts (place_all from to width total events bs)
        ≡ sum_counts bs + length (select (in_window from to) events)
  unfolding place_all select
  sum_counts-place_all total [] bs e size = omega arith
  sum_counts-place_all total (ev ∷ events) bs e size = elim (Bool-cases (in_window from to ev)) [
    | inl inside ↦
        let below =
          index_in_range ev (unfold in_window in (ground arith))
            (unfold in_window in (ground arith)) in
        let bs' = bump_at (elapsed from ev.timestamp / width) ev bs in
        rw (inside, place_inside total ev bs e inside)
          (omega (
            arith,
            sum_counts-place_all total events bs' e (length-bump_at _ ev bs ∙ size),
            sum_counts-bump_at (elapsed from ev.timestamp / width) ev bs (omega arith),
          ))
    | inr outside ↦
        rw (outside, place_outside total ev bs outside)
          (sum_counts-place_all total events bs e size)
  ]

  length-place_all :
      (total : ℕ) (events : List Event) (bs : List Counts)
      → total ≡ total_buckets from to width
      → length (place_all from to width total events bs) ≡ length bs
  unfolding place_all
  length-place_all total [] bs e = refl
  length-place_all total (ev ∷ events) bs e =
      length-place_all total events (place from to width total ev bs) e ∙ length-place total ev bs e

  pub length-count_buckets :
      (events : List Event)
      → length (count_buckets from to width events) ≡ total_buckets from to width
  unfolding count_buckets
  length-count_buckets events =
      length-place_all (total_buckets from to width) events
        (empty_buckets (total_buckets from to width)) refl
      ∙ length-empty_buckets (total_buckets from to width)

  pub sum_counts-count_buckets :
      (events : List Event)
      → sum_counts (count_buckets from to width events) ≡ length (select (in_window from to) events)
  unfolding count_buckets
  sum_counts-count_buckets events =
      let total = total_buckets from to width in
      omega (
        arith,
        sum_counts-place_all total events (empty_buckets total) refl (length-empty_buckets total),
        sum_counts-empty_buckets total,
      )

-- ===== src/Reports/Timeseries/Slots.antt =====
-- Which events a bucket counts.
use api_test.Prelude.{
  ℕ, zero, suc, ◌+◌, ◌-◌, ◌*◌, ◌/◌, ◌≤◌, ◌<◌, ◌≡◌, ◌≢◌, refl, Bool, true, false, ◌&&◌, not, ◌||◌,
  List, [], ◌∷◌, some, ltb, leb, if◌then◌else◌, get_elem?, arith, ap, ◌∙◌, Bool-cases, inl, inr,
}
use api_test.Audit.Event.{Event}
use api_test.Reports.Aggregate.{Counts, no_counts, bump, select, add_all}
use api_test.Reports.Timeseries.{
  max_duration, elapsed, total_buckets, bump_at, empty_buckets, place, place_all, count_buckets,
}

-- The i-th stretch of the window, its end left out.
unfoldable pub in_slot : ℕ → ℕ → ℕ → ℕ → Event → Bool
in_slot from to width i ev =
    leb (from + i * width) ev.timestamp
    && ltb ev.timestamp (from + suc i * width)
    && ltb ev.timestamp to

pub div-slot : (n w i : ℕ) → 0 < w → i * w ≤ n → n < suc i * w → n / w ≡ i
div-slot n w i pos lo hi = grind arith

pub slot-div : (n w : ℕ) → 0 < w → (n / w * w ≤ n) × (n < suc (n / w) * w)
slot-div n w pos = grind arith

bump_at_same :
    (i : ℕ) (ev : Event) (bs : List Counts) {a : Counts}
    → get_elem? bs i ≡ some a
    → get_elem? (bump_at i ev bs) i ≡ some (bump ev a)
unfolding bump_at
bump_at_same i ev [] h = cc
bump_at_same zero ev (b ∷ bs) h = cc
bump_at_same (suc i) ev (b ∷ bs) h = bump_at_same i ev bs h

bump_at_other :
    (i j : ℕ) (ev : Event) (bs : List Counts)
    → i ≢ j
    → get_elem? (bump_at i ev bs) j ≡ get_elem? bs j
unfolding bump_at
bump_at_other i j ev [] h = refl
bump_at_other zero zero ev (b ∷ bs) h = absurd (h refl)
bump_at_other zero (suc j) ev (b ∷ bs) h = refl
bump_at_other (suc i) zero ev (b ∷ bs) h = refl
bump_at_other (suc i) (suc j) ev (b ∷ bs) h = bump_at_other i j ev bs (ground arith)

empty_buckets_lem : (n i : ℕ) → i < n → get_elem? (empty_buckets n) i ≡ some no_counts
unfolding empty_buckets
empty_buckets_lem zero i h = elim h [ ]
empty_buckets_lem (suc n) zero h = refl
empty_buckets_lem (suc n) (suc i) h = empty_buckets_lem n i (omega arith)

in_slot_bounds :
    (from to width i : ℕ) (ev : Event)
    → in_slot from to width i ev ≡ true
    → (from + i * width ≤ ev.timestamp)
      × (ev.timestamp < from + suc i * width)
      × (ev.timestamp < to)
unfolding in_slot
in_slot_bounds from to width i ev h = ground arith

bounds-in_slot :
    (from to width i : ℕ) (ev : Event)
    → from + i * width ≤ ev.timestamp
    → ev.timestamp < from + suc i * width
    → ev.timestamp < to
    → in_slot from to width i ev ≡ true
unfolding in_slot
bounds-in_slot from to width i ev lo hi end = ground arith

ne_slot : (p : ℕ → Bool) {i j : ℕ} → i ≡ j → p i ≡ true → p j ≡ false → ⊥
ne_slot p {i} {j} same at_i at_j = cc

add_all_if :
    (p : Event → Bool) (ev : Event) (events : List Event) (a : Counts)
    → add_all (select p events) (if p ev then bump ev a else a) ≡ add_all (select p (ev ∷ events)) a
unfolding select add_all
add_all_if p ev events a = elim (Bool-cases (p ev)) [ inl t ↦ rw t refl | inr t ↦ rw t refl ]

module _ (from to width : ℕ) (wide : 0 < width) (short : to - from ≤ max_duration) where
  index-in_slot :
      (i : ℕ) (ev : Event)
      → in_slot from to width i ev ≡ true
      → elapsed from ev.timestamp / width ≡ i
  index-in_slot i ev h =
      let (lo, hi, end) = in_slot_bounds from to width i ev h in
      div-slot (elapsed from ev.timestamp) width i wide (omega arith) (omega arith)

  in_slot-index :
      (ev : Event)
      → from ≤ ev.timestamp
      → ev.timestamp < to
      → in_slot from to width (elapsed from ev.timestamp / width) ev ≡ true
  in_slot-index ev lo hi =
      let (low, high) = slot-div (elapsed from ev.timestamp) width wide in
      bounds-in_slot from to width (elapsed from ev.timestamp / width) ev (omega arith)
        (omega arith) hi

  place_here :
      (total i : ℕ) (ev : Event) (bs : List Counts)
      → i < total
      → in_slot from to width i ev ≡ true
      → place from to width total ev bs ≡ bump_at i ev bs
  unfolding place
  place_here total i ev bs below here =
      let (lo, hi, end) = in_slot_bounds from to width i ev here in
      let after : ltb ev.timestamp from ≡ false = ground arith in
      let before : ltb ev.timestamp to ≡ true = ground arith in
      let inside : leb total i ≡ false = ground arith in
      rw (after, before, index-in_slot i ev here, inside) refl

  place_elsewhere :
      (total i : ℕ) (ev : Event) (bs : List Counts)
      → in_slot from to width i ev ≡ false
      → get_elem? (place from to width total ev bs) i ≡ get_elem? bs i
  unfolding place
  place_elsewhere total i ev bs other =
      elim (Bool-cases (ltb ev.timestamp from || not (ltb ev.timestamp to))) [
        | inl outside ↦ rw outside refl
        | inr inside ↦
            rw inside (elim (Bool-cases (leb total (elapsed from ev.timestamp / width))) [
              | inl over ↦ rw over refl
              | inr under ↦ rw under (
                  bump_at_other (elapsed from ev.timestamp / width) i ev bs (λ same.
                    ne_slot (λ (k : ℕ). in_slot from to width k ev) same
                      (in_slot-index ev (ground arith) (ground arith)) other))
            ])
      ]

  place_lem :
      (total i : ℕ) (ev : Event) (bs : List Counts) {a : Counts}
      → i < total
      → get_elem? bs i ≡ some a
      → get_elem? (place from to width total ev bs) i
        ≡ some (if in_slot from to width i ev then bump ev a else a)
  place_lem total i ev bs {a} below h = elim (Bool-cases (in_slot from to width i ev)) [
    | inl here ↦ rw (here, place_here total i ev bs below here) (bump_at_same i ev bs h)
    | inr other ↦ rw (other, place_elsewhere total i ev bs other) h
  ]

  place_all_lem :
      (total i : ℕ) (events : List Event) (bs : List Counts) {a : Counts}
      → i < total
      → get_elem? bs i ≡ some a
      → get_elem? (place_all from to width total events bs) i
        ≡ some (add_all (select (in_slot from to width i) events) a)
  unfolding place_all select add_all
  place_all_lem total i [] bs below h = h
  place_all_lem total i (ev ∷ events) bs {a} below h =
      place_all_lem total i events (place from to width total ev bs) below
        (place_lem total i ev bs below h)
      ∙ ap some (add_all_if (in_slot from to width i) ev events a)

  -- Each bucket holds the count, the errors and the durations of the events that the query returned
  -- between its start and the next one's, and before the window's end.
  pub bucket_events :
      (i : ℕ) (events : List Event)
      → i < total_buckets from to width
      → get_elem? (count_buckets from to width events) i
        ≡ some (add_all (select (in_slot from to width i) events) no_counts)
  unfolding count_buckets
  bucket_events i events below =
      place_all_lem (total_buckets from to width) i events
        (empty_buckets (total_buckets from to width)) below
        (empty_buckets_lem (total_buckets from to width) i below)

-- ===== src/Reports/Aggregate.antt =====
-- Counts of events (the `aggregate` of pkg/httpsrv/portal_audit_aggregations.go), with the averages
-- that are shown of them, and the sums that the counts are compared with.
use api_test.Prelude.{
  ℕ, ◌+◌, Bool, List, [], ◌∷◌, ltb, if◌then◌else◌, not, ◌≡◌, length, arith, refl, ◌∙◌,
}
use api_test.Prelude.Int.{ℤ, pos, add_int}
use api_test.Std.Float.{Float64}
use api_test.Audit.Event.{Event}

-- The counts are lengths of what one query returns.
pub record Counts : Type 0 where
  pub count : ℕ
  pub errors : ℕ
  pub duration_ms : ℤ

abbrev pub no_counts : Counts
no_counts = record { count = 0; errors = 0; duration_ms = pos 0 }

unfoldable pub bump : Event → Counts → Counts
unfolding add_int
bump ev a = record {
  count = a.count + 1;
  errors = if ev.success then a.errors else a.errors + 1;
  duration_ms = add_int a.duration_ms (pos ev.duration_ms);
}

-- The events that pass a test, in their order.
unfoldable pub select : (Event → Bool) → List Event → List Event
select p [] = []
select p (ev ∷ events) = let rest = select p events in if p ev then ev ∷ rest else rest

-- All of a list, counted from a start.
unfoldable pub add_all : List Event → Counts → Counts
unfolding bump
add_all [] a = a
add_all (ev ∷ events) a = add_all events (bump ev a)

-- The events that count as errors.
unfoldable pub failed : List Event → List Event
unfolding select
failed events = select (λ ev. not ev.success) events

errors-bump :
    (ev : Event) (events : List Event) (a : Counts)
    → (bump ev a).errors + length (failed events) ≡ a.errors + length (failed (ev ∷ events))
unfolding bump failed
errors-bump ev events a = ground arith

count-bump : (ev : Event) (a : Counts) → (bump ev a).count ≡ a.count + 1
unfolding bump
count-bump ev a = refl

-- What is counted of a list: its length and the number of its failures.
pub add_all_counts :
    (events : List Event) (a : Counts)
    → ((add_all events a).count ≡ a.count + length events)
      × ((add_all events a).errors ≡ a.errors + length (failed events))
unfolding add_all
add_all_counts [] a = (omega arith, unfold failed in (omega arith))
add_all_counts (ev ∷ events) a =
    let (counts, errors) = add_all_counts events (bump ev a) in
    (omega (arith, counts, count-bump ev a), errors ∙ errors-bump ev events a)

module _ (F : Float64) where
  open F use {Float, of_int, decimal, add, mul, div, to_int}

  unfoldable pub round1 : Float → Float
  round1 v = div (of_int (to_int (add (mul v (decimal 10 0)) (decimal 5 1)))) (decimal 10 0)

  unfoldable pub round3 : Float → Float
  round3 v = div (of_int (to_int (add (mul v (decimal 1000 0)) (decimal 5 1)))) (decimal 1000 0)

  unfoldable pub average : Counts → Float
  unfolding round1
  average a =
      round1
        (if ltb 0 a.count then div (of_int a.duration_ms) (of_int (pos a.count)) else decimal 0 0)

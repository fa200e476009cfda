-- ===== src/Reports/Timeseries/Answer.antt =====
-- The answers of the handler that counts events by time.
use api_test.Prelude.{
  ℕ, zero, suc, ◌+◌, ◌-◌, ◌*◌, ◌/◌, ◌≤◌, ◌<◌, ◌≡◌, refl, ap, ◌∙◌, false, List, [], ◌∷◌, Option,
  some, ltb, get_elem?, length, arith,
}
use api_test.Prelude.Result.{ok}
use api_test.Prelude.Int.{pos, negsuc, ℤ}
use api_test.Std.Text.{Text, text}
use api_test.Std.Strconv.{atoi}
use api_test.Std.Float.{Float64}
use api_test.Std.Http.{Table, values_get, Response, json, failure, raw, nothing}
use api_test.Audit.Event.{Event}
use api_test.Audit.Memory.{QueryFilter}
use api_test.Reports.Filter.{
  AuditLog, Window, second, parse_query_filter, window_of, bucket_seconds, clamp_bucket,
}
use api_test.Reports.Aggregate.{Counts, no_counts, select, add_all}
use api_test.Reports.Timeseries.{
  max_duration, max_buckets, elapsed, total_buckets, count_buckets, Bucket, Timeseries, bucket_out,
  buckets_out, timeseries_of, audit_timeseries,
}
use api_test.Reports.Timeseries.Slots.{in_slot, slot-div, bucket_events}
use api_test.Reports.Timeseries.Total.{
  in_window, sum_counts, length-count_buckets, sum_counts-count_buckets,
}

pub window_ordered : (now : ℕ) (f : QueryFilter) → (window_of now f).from ≤ (window_of now f).to
unfolding window_of
window_ordered now f = ground arith

clamp_bucket_bounds : (n : ℤ) → (1 ≤ clamp_bucket n) × (clamp_bucket n ≤ 3600)
unfolding clamp_bucket
clamp_bucket_bounds (negsuc n) = omega arith
clamp_bucket_bounds (pos zero) = omega arith
clamp_bucket_bounds (pos (suc n)) = ground arith

pub bucket_seconds_bounds :
    (q : Table (List Text)) → (1 ≤ bucket_seconds q) × (bucket_seconds q ≤ 3600)
unfolding bucket_seconds
bucket_seconds_bounds q = clamp_bucket_bounds (atoi (values_get q (text "bucket_seconds"))).0

mul_le : (a b w : ℕ) → a ≤ b → a * w ≤ b * w
mul_le a b w h = grind arith

-- A window that passes the check on the number of buckets is shorter than a duration can be.
window_short :
    (from to bucket : ℕ)
    → 1 ≤ bucket
    → bucket ≤ 3600
    → total_buckets from to (bucket * second) ≤ max_buckets
    → to - from ≤ max_duration
unfolding total_buckets
window_short from to bucket lo hi few =
    let width = bucket * second in
    let (_, top) = slot-div (elapsed from to) width (omega arith) in
    let count : suc (elapsed from to / width) ≤ 10000 = ground arith in
    let below = mul_le (suc (elapsed from to / width)) 10000 width count in omega arith

module _ (F : Float64) where
  -- The buckets of an answer.
  unfoldable pub shown : Response (Timeseries F) → List (Bucket F)
  shown r = elim (r.body) [ json t ↦ t.buckets | failure e ↦ [] | raw e ↦ [] | nothing ↦ [] ]

  pub sum_shown : List (Bucket F) → ℕ
  sum_shown [] = 0
  sum_shown (b ∷ bs) = b.count + sum_shown bs

  buckets_out_lem :
      (from width i j : ℕ) (bs : List Counts) {a : Counts}
      → get_elem? bs j ≡ some a
      → get_elem? (buckets_out F from width i bs) j ≡ some (bucket_out F (from + (i + j) * width) a)
  unfolding buckets_out
  buckets_out_lem from width i j [] h = cc
  buckets_out_lem from width i zero (b ∷ bs) {a} h =
      let here : b ≡ a = cc in let e : i + 0 ≡ i = omega arith in rw (e, here) refl
  buckets_out_lem from width i (suc j) (b ∷ bs) h =
      let e : i + suc j ≡ suc i + j = omega arith in
      rw e (buckets_out_lem from width (suc i) j bs h)

  length-buckets_out :
      (from width i : ℕ) (bs : List Counts) → length (buckets_out F from width i bs) ≡ length bs
  unfolding buckets_out
  length-buckets_out from width i [] = refl
  length-buckets_out from width i (b ∷ bs) = omega (arith, length-buckets_out from width (suc i) bs)

  sum_shown-buckets_out :
      (from width i : ℕ) (bs : List Counts)
      → sum_shown (buckets_out F from width i bs) ≡ sum_counts bs
  unfolding sum_shown buckets_out sum_counts bucket_out
  sum_shown-buckets_out from width i [] = refl
  sum_shown-buckets_out from width i (b ∷ bs) =
      omega (arith, sum_shown-buckets_out from width (suc i) bs)

  shown-timeseries_of :
      (w : Window) (bucket : ℕ) (events : List Event)
      → total_buckets w.from w.to (bucket * second) ≤ max_buckets
      → (((timeseries_of F w bucket (ok events)).status) ≡ 200)
        × (shown (timeseries_of F w bucket (ok events))
            ≡ buckets_out F w.from
                (bucket * second)
                0
                (count_buckets w.from w.to (bucket * second) events))
  unfolding timeseries_of shown
  shown-timeseries_of w bucket events few =
      let fits : ltb max_buckets (total_buckets w.from w.to (bucket * second)) ≡ false =
        ground arith in
      (rw fits refl, rw fits refl)

  module _ (parse_time : Text → Option ℕ) (log : AuditLog) (now : ℕ) (q : Table (List Text)) where
    -- What the handler makes of the request.
    abbrev window : Window
    window = window_of now (parse_query_filter parse_time q)

    abbrev width : ℕ
    width = bucket_seconds q * second

    handled :
        {events : List Event}
        → log.run_query window.filter ≡ ok events
        → audit_timeseries F parse_time log now q
          ≡ timeseries_of F window (bucket_seconds q) (ok events)
    unfolding audit_timeseries
    handled found = ap (timeseries_of F window (bucket_seconds q)) found

    wide : 0 < width
    wide = omega (arith, bucket_seconds_bounds q)

    -- Where the query succeeds and the window has at most 10000 buckets the answer is 200 with one
    -- bucket for each stretch of the window; the i-th starts i widths behind the window's start and
    -- shows the counts of exactly the events that the query returned from its start up to, and
    -- without, the next one's start and the window's end.
    pub timeseries_buckets :
        (events : List Event) (i : ℕ)
        → log.run_query window.filter ≡ ok events
        → total_buckets window.from window.to width ≤ max_buckets
        → i < total_buckets window.from window.to width
        → ((audit_timeseries F parse_time log now q).status ≡ 200)
          × (length (shown (audit_timeseries F parse_time log now q))
              ≡ total_buckets window.from window.to width)
          × (get_elem? (shown (audit_timeseries F parse_time log now q)) i
              ≡ some (
                  bucket_out F
                    (window.from + i * width)
                    (add_all (select (in_slot window.from window.to width i) events) no_counts)))
    timeseries_buckets events i found few below =
        let (ok200, same) = shown-timeseries_of window (bucket_seconds q) events few in
        let (lo, hi) = bucket_seconds_bounds q in
        let short = window_short window.from window.to (bucket_seconds q) lo hi few in
        rw (handled found, same)
          (
            ok200,
            length-buckets_out window.from width 0 _
                ∙ length-count_buckets window.from window.to width wide events,
            rw (let e : 0 + i ≡ i = omega arith in e) at (
                buckets_out_lem window.from width 0 i _
                  (bucket_events window.from window.to width wide short i events below)),
          )

    -- Where the query returns some events and the window has no more than the allowed number of
    -- buckets, the counts of all buckets add up to the number of events that lie in the window, its
    -- later end left out.
    pub timeseries_total :
        (events : List Event)
        → log.run_query window.filter ≡ ok events
        → total_buckets window.from window.to width ≤ max_buckets
        → sum_shown (shown (audit_timeseries F parse_time log now q))
          ≡ length (select (in_window window.from window.to) events)
    timeseries_total events found few =
        rw (handled found, (shown-timeseries_of window (bucket_seconds q) events few).1)
          (sum_shown-buckets_out window.from width 0 _
            ∙ sum_counts-count_buckets window.from window.to width wide events)

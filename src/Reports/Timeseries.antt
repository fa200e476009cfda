-- ===== src/Reports/Timeseries.antt =====
-- Counts of events by time (auditTimeseries of pkg/httpsrv/portal_audit_aggregations.go).
use api_test.Prelude.{
  ℕ, zero, suc, ◌+◌, ◌-◌, ◌*◌, ◌/◌, ◌^◌, min, Bool, true, false, not, ◌||◌, List, [], ◌∷◌, ◌++◌,
  Option, ltb, leb, if◌then◌else◌,
}
use api_test.Prelude.Result.{Result, ok, err}
use api_test.Std.Text.{Text, text}
use api_test.Std.Strconv.{itoa}
use api_test.Std.Float.{Float64}
use api_test.Std.Http.{Table, Response, write_json, write_error}
use api_test.Audit.Event.{Event}
use api_test.Reports.Filter.{
  AuditLog, Window, second, parse_query_filter, window_of, bucket_seconds,
}
use api_test.Reports.Aggregate.{Counts, no_counts, bump, average}
pub mod Slots
pub mod Total
pub mod Answer

-- The largest time.Duration; Time.Sub stops there.
abbrev pub max_duration : ℕ
max_duration = 2 ^ 63 - 1

-- to.Sub(from), of a later time from an earlier one
abbrev pub elapsed : ℕ → ℕ → ℕ
elapsed from to = min (to - from) max_duration

-- `width` is bucketDur in nanoseconds.
unfoldable pub total_buckets : ℕ → ℕ → ℕ → ℕ
total_buckets from to width = let n = elapsed from to / width + 1 in if ltb n 1 then 1 else n

unfoldable pub bump_at : ℕ → Event → List Counts → List Counts
unfolding bump
bump_at i ev [] = []
bump_at zero ev (a ∷ buckets) = bump ev a ∷ buckets
bump_at (suc i) ev (a ∷ buckets) = a ∷ bump_at i ev buckets

unfoldable pub empty_buckets : ℕ → List Counts
empty_buckets zero = []
empty_buckets (suc n) = no_counts ∷ empty_buckets n

module _ (from to width total : ℕ) where
  -- One round of the loop over the events.
  unfoldable pub place : Event → List Counts → List Counts
  unfolding bump_at
  place ev buckets =
      let index = elapsed from ev.timestamp / width in
      if ltb ev.timestamp from || not (ltb ev.timestamp to)
      then buckets
      else if leb total index
      then buckets
      else bump_at index ev buckets

  unfoldable pub place_all : List Event → List Counts → List Counts
  unfolding place
  place_all [] buckets = buckets
  place_all (ev ∷ events) buckets = place_all events (place ev buckets)

unfoldable pub count_buckets : ℕ → ℕ → ℕ → List Event → List Counts
unfolding total_buckets empty_buckets place_all
count_buckets from to width events =
    let total = total_buckets from to width in
    place_all from to width total events (empty_buckets total)

abbrev pub max_buckets : ℕ
max_buckets = 10000

-- The message; the sign between the two numbers is × in UTF-8.
too_many_buckets : ℕ → ℕ → Text
unfolding itoa
too_many_buckets bucket total =
    text "bucket_seconds "
    ++ (itoa bucket
        ++ (text " "
            ++ (195 ∷ 151 ∷ text " window produces "
                ++ (itoa total
                    ++ text " buckets (max 10000); pick a coarser bucket or narrower window"))))

module _ (F : Float64) where
  open F use {Float}

  pub record Bucket : Type 0 where
    pub time : ℕ
    pub count : ℕ
    pub errors : ℕ
    pub avg_duration_ms : Float

  pub record Timeseries : Type 0 where
    pub from : ℕ
    pub to : ℕ
    pub bucket_seconds : ℕ
    pub buckets : List Bucket

  unfoldable pub bucket_out : ℕ → Counts → Bucket
  unfolding average
  bucket_out time a = record {
    time = time;
    count = a.count;
    errors = a.errors;
    avg_duration_ms = average F a;
  }

  -- The buckets from the i-th on.
  unfoldable pub buckets_out : ℕ → ℕ → ℕ → List Counts → List Bucket
  unfolding bucket_out
  buckets_out from width i [] = []
  buckets_out from width i (a ∷ rest) =
      bucket_out (from + i * width) a ∷ buckets_out from width (suc i) rest

  unfoldable pub timeseries_of : Window → ℕ → Result Text (List Event) → Response Timeseries
  unfolding total_buckets count_buckets buckets_out too_many_buckets
  timeseries_of w bucket (err e) = write_error 500 e
  timeseries_of w bucket (ok events) =
      let width = bucket * second in
      let total = total_buckets w.from w.to width in
      if ltb max_buckets total
      then write_error 400 (too_many_buckets bucket total)
      else write_json 200 (record {
        from = w.from;
        to = w.to;
        bucket_seconds = bucket;
        buckets = buckets_out w.from width 0 (count_buckets w.from w.to width events);
      })

  -- `now` is the clock's reading.
  unfoldable pub audit_timeseries :
      (Text → Option ℕ) → AuditLog → ℕ → Table (List Text) → Response Timeseries
  unfolding window_of parse_query_filter bucket_seconds timeseries_of
  audit_timeseries parse_time log now q =
      let w = window_of now (parse_query_filter parse_time q) in
      timeseries_of w (bucket_seconds q) (log.run_query w.filter)

-- ===== src/Reports/Tests.antt =====
-- Events, requests and a clock at which the theorems on the portal's reports apply.
use api_test.Prelude.{
  ℕ, ◌+◌, ◌-◌, ◌*◌, ◌/◌, ◌^◌, ◌<◌, ◌≡◌, refl, Bool, true, false, List, [], ◌∷◌, ◌++◌, Option, none,
  some, length, take, min, get_elem?, All, arith,
}
use mathlib.Core.List.Permᴰ
use mathlib.Core.List.{reverse}
use api_test.Prelude.Int.{pos, pos_part}
use api_test.Prelude.Result.{ok}
use api_test.Std.Text.{Text, text, str_eq}
use api_test.Std.Strconv.{itoa, atoi}
use api_test.Std.Float.{Float64}
use api_test.Std.Http.{Table, values_get, lookup, write_json}
use api_test.Audit.Event.{Event, new_event}
use api_test.Audit.Memory.{match_all, filter_events}
use api_test.Reports.Filter.{
  AuditLog, Window, memory_log, second, hour, parse_query_filter, window_of, bucket_seconds,
}
use api_test.Reports.Aggregate.{no_counts, select, add_all, failed}
use api_test.Reports.Timeseries.{total_buckets, bucket_out, audit_timeseries}
use api_test.Reports.Timeseries.Slots.{in_slot}
use api_test.Reports.Timeseries.Total.{in_window}
use api_test.Reports.Timeseries.Answer as Timed
use api_test.Reports.Timeseries.Answer.{timeseries_buckets, timeseries_total, sum_shown}
use api_test.Reports.Breakdown.{Group, breakdown_key_fn, dimension_of, top_of, audit_breakdown}
use api_test.Reports.Breakdown.Shown as Grouped
use api_test.Reports.Breakdown.Shown.{Shuffles, IsExact, breakdown_order, breakdown-IsExact}
use api_test.Audit.Newest.{NoOlder}
use api_test.Reports.Breakdown.Ordered.{IsRanking}
use api_test.Reports.Stats.{Stats, audit_stats}
use api_test.Reports.Stats.Totals.{stats_capped}
use api_test.Reports.Export.{Line, export_filter, audit_export}
use api_test.Reports.Export.Pages.{audit_export_ends}
use api_test.Reports.Export.Whole.{lines_of}
use api_test.Reports.Export.Exported.{audit_export_whole}
use api_test.Reports.Stream.{tick}
use api_test.Reports.Stream.Once as Streamed
use api_test.Reports.Stream.Once.{IsFresh, tick_once}

-- Numbers from 0 on with three decimal places.
abbrev thousandths : Float64
thousandths = record {
  Float = ℕ;
  of_int = λ n. pos_part n * 1000;
  decimal = λ m k. m * 1000 / 10 ^ k;
  add = λ a b. a + b;
  mul = λ a b. a * b / 1000;
  div = λ a b. a * 1000 / b;
  to_int = λ a. pos (a / 1000);
}

abbrev no_time : Text → Option ℕ
no_time v = none

abbrev ten : ℕ
ten = 10 * hour

abbrev call_at : ℕ → Text → Bool → Event
call_at t id success = record (new_event t (text "GET") (text "/v1/sized")) {
  id = id;
  endpoint_group = text "data";
  success = success;
  duration_ms = 7;
}

abbrev calls : List Event
calls =
    call_at (ten - 1) (text "a") true
    ∷ call_at (ten - 2) (text "b") false
    ∷ call_at (ten - 70 * second) (text "c") true
    ∷ []

abbrev fixed_log : AuditLog
fixed_log = record { run_query = λ f. ok calls; run_count = λ f. ok 3; payload_of = none }

abbrev last_hour : Window
last_hour = window_of ten (parse_query_filter no_time [])

abbrev minute : ℕ
minute = bucket_seconds [] * second

sixty_one : total_buckets last_hour.from last_hour.to minute ≡ 61
unfolding total_buckets window_of parse_query_filter bucket_seconds values_get lookup atoi
sixty_one = refl

timeseries_buckets_example :
    ((audit_timeseries thousandths no_time fixed_log ten []).status ≡ 200)
    × (length (Timed.shown thousandths (audit_timeseries thousandths no_time fixed_log ten []))
        ≡ total_buckets last_hour.from last_hour.to minute)
    × (get_elem?
          (Timed.shown thousandths (audit_timeseries thousandths no_time fixed_log ten []))
          59
        ≡ some (
            bucket_out thousandths
              (last_hour.from + 59 * minute)
              (add_all (select (in_slot last_hour.from last_hour.to minute 59) calls) no_counts)))
timeseries_buckets_example =
    timeseries_buckets thousandths no_time fixed_log ten [] calls 59 refl (omega (arith, sixty_one))
      (omega (arith, sixty_one))

timeseries_total_example :
    sum_shown thousandths
      (Timed.shown thousandths (audit_timeseries thousandths no_time fixed_log ten []))
    ≡ length (select (in_window last_hour.from last_hour.to) calls)
timeseries_total_example =
    timeseries_total thousandths no_time fixed_log ten [] calls refl (omega (arith, sixty_one))

abbrev by_status_query : Table (List Text)
by_status_query = (text "dimension", text "status" ∷ []) ∷ []

abbrev quoted : Text → Text
quoted s = b'"' ∷ s

reverse-Shuffles : Shuffles reverse
reverse-Shuffles m = Permᴰ.symm (Permᴰ.reverse m)

status_key : breakdown_key_fn (dimension_of by_status_query) ≡ some (λ ev. itoa ev.status)
unfolding breakdown_key_fn dimension_of values_get lookup str_eq
status_key = refl

breakdown-IsExact_example :
    ((audit_breakdown thousandths no_time quoted reverse fixed_log ten by_status_query).status
      ≡ 200)
    × (ranking : List (Group thousandths)) × IsRanking thousandths calls ranking
    × All (IsExact thousandths (λ ev. itoa ev.status) calls) ranking
    × (Grouped.shown thousandths
          (audit_breakdown thousandths no_time quoted reverse fixed_log ten by_status_query)
        ≡ take (top_of by_status_query) ranking)
breakdown-IsExact_example =
    breakdown-IsExact thousandths no_time quoted fixed_log ten by_status_query reverse
      (λ ev. itoa ev.status) calls reverse-Shuffles status_key refl

breakdown_order_example :
    audit_breakdown thousandths no_time quoted reverse fixed_log ten by_status_query
    ≡ audit_breakdown thousandths no_time quoted (λ m. m) fixed_log ten by_status_query
breakdown_order_example =
    breakdown_order thousandths no_time quoted fixed_log ten by_status_query reverse
      reverse-Shuffles

stats_capped_example :
    (s : Stats thousandths) × (kept : List Event) × (left : List Event) × (audit_stats thousandths
        no_time
        (memory_log calls)
        ten
        []
      ≡ write_json 200 s)
    × (match_all (window_of ten (parse_query_filter no_time [])).filter calls ≡ kept ++ left)
    × (length kept
        ≡ min 1000
            (length (filter_events (window_of ten (parse_query_filter no_time [])).filter calls)))
    × All (NoOlder left) kept
    × (s.total ≡ length kept)
    × (s.errors ≡ length (failed kept))
stats_capped_example = stats_capped thousandths no_time ten [] calls

abbrev stays : ℕ → Bool
stays r = false

audit_export_ends_example :
    (lines : List Line) × (audit_export no_time (λ r. fixed_log) stays ten ten [] ≡ some lines)
audit_export_ends_example = audit_export_ends no_time (λ r. fixed_log) stays ten ten []

abbrev newcomers : ℕ → List Event
newcomers r = call_at (ten + r + 1) (text "n") true ∷ []

pinned_now : (export_filter ten ten (parse_query_filter no_time [])).to ≡ some ten
unfolding export_filter parse_query_filter values_get lookup
pinned_now = refl

newcomers_late : (r : ℕ) → All (λ ev. ten < ev.timestamp) (newcomers r)
unfolding new_event
newcomers_late r = (omega arith, tt)

audit_export_whole_example :
    audit_export no_time (λ r. memory_log (calls ++ newcomers r)) stays ten ten []
    ≡ some (
        lines_of 100000 100000
          (match_all (export_filter ten ten (parse_query_filter no_time [])) calls))
audit_export_whole_example =
    audit_export_whole no_time calls newcomers ten ten ten [] pinned_now newcomers_late

tick_once_example : IsFresh (ten - 2) [] (Streamed.shown (tick fixed_log (ten - 2) ten))
tick_once_example = tick_once fixed_log (ten - 2) ten

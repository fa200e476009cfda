-- ===== src/Reports/Stats.antt =====
-- Totals and percentiles (auditStats and percentile of pkg/httpsrv/portal_audit_aggregations.go).
use api_test.Prelude.{
  ℕ, zero, suc, ◌+◌, ◌-◌, Bool, true, false, List, [], ◌∷◌, Option, none, some, ltb, leb,
  if◌then◌else◌, length, get_elem?,
}
use api_test.Prelude.Int.{ℤ, pos, negsuc}
use api_test.Prelude.Result.{Result, ok, err}
use api_test.Std.Text.{Text}
use api_test.Std.Sort.{sort_by}
use api_test.Std.Float.{Float64}
use api_test.Std.Http.{Table, Response, write_json, write_error}
use api_test.Audit.Event.{Event}
use api_test.Reports.Filter.{AuditLog, Window, parse_query_filter, window_of}
use api_test.Reports.Aggregate.{round3}
pub mod Percentiles
pub mod Totals

-- The two counters and the list that the loop over the events fills.
pub record Tally : Type 0 where
  pub total : ℕ
  pub errors : ℕ
  pub durations : List ℕ

unfoldable pub tally_all : List Event → Tally
tally_all [] = record { total = 0; errors = 0; durations = [] }
tally_all (ev ∷ events) =
    let rest = tally_all events in
    record {
      total = rest.total + 1;
      errors = if ev.success then rest.errors else rest.errors + 1;
      durations = ev.duration_ms ∷ rest.durations;
    }

-- sort.Slice by <
unfoldable pub sort_durations : List ℕ → List ℕ
unfolding sort_by
sort_durations ds = sort_by (λ a b. ltb a b) ds

-- The index that the guards leave, in a list that is not empty.
unfoldable pub clamp_index : ℕ → ℤ → ℕ
clamp_index n (negsuc i) = 0
clamp_index n (pos i) = if leb n i then n - 1 else i

value_or_zero : Option ℕ → ℕ
value_or_zero none = 0
value_or_zero (some d) = d

module _ (F : Float64) where
  open F use {Float, of_int, decimal, div, mul, to_int}

  unfoldable pub rank_index : ℕ → Float → ℕ
  unfolding clamp_index
  rank_index n p = clamp_index n (to_int (mul (of_int (pos (n - 1))) p))

  unfoldable pub percentile : List ℕ → Float → ℕ
  unfolding rank_index value_or_zero
  percentile [] p = 0
  percentile (d ∷ ds) p = value_or_zero (get_elem? (d ∷ ds) (rank_index (length (d ∷ ds)) p))

  pub record Stats : Type 0 where
    pub from : ℕ
    pub to : ℕ
    pub total : ℕ
    pub errors : ℕ
    pub success : ℕ
    pub error_rate : Float
    pub p50_ms : ℕ
    pub p95_ms : ℕ
    pub p99_ms : ℕ

  unfoldable pub error_rate : Tally → Float
  unfolding round3
  error_rate t =
      round3 F
        (if ltb 0 t.total then div (of_int (pos t.errors)) (of_int (pos t.total)) else decimal 0 0)

  unfoldable pub stats_of : Window → Result Text (List Event) → Response Stats
  unfolding tally_all sort_durations percentile error_rate
  stats_of w (err e) = write_error 500 e
  stats_of w (ok events) =
      let t = tally_all events in
      let sorted = sort_durations t.durations in
      write_json 200 (record {
        from = w.from;
        to = w.to;
        total = t.total;
        errors = t.errors;
        success = t.total - t.errors;
        error_rate = error_rate t;
        p50_ms = percentile sorted (decimal 50 2);
        p95_ms = percentile sorted (decimal 95 2);
        p99_ms = percentile sorted (decimal 99 2);
      })

  unfoldable pub audit_stats : (Text → Option ℕ) → AuditLog → ℕ → Table (List Text) → Response Stats
  unfolding parse_query_filter window_of stats_of
  audit_stats parse_time log now q =
      let w = window_of now (parse_query_filter parse_time q) in stats_of w (log.run_query w.filter)

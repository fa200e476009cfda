-- ===== src/Reports/Stats/Totals.antt =====
-- The answers of the handler that sums events up.
use api_test.Prelude.{
  ℕ, ◌+◌, ◌-◌, ◌≤◌, ◌≡◌, refl, sym, ap, ◌∙◌, List, [], ◌∷◌, ◌++◌, All, take, drop, Option, length,
  min, map, arith, length-take,
}
use api_test.Prelude.Int.{pos}
use api_test.Prelude.Result.{ok}
use api_test.Std.Text.{Text}
use api_test.Std.Float.{Float64}
use api_test.Std.Http.{Table, write_json}
use api_test.Audit.Event.{Event}
use api_test.Audit.Memory.{QueryFilter, query, match_all, filter_events, count}
use api_test.Audit.Queried.{query_slice}
use api_test.Audit.Sorted.{match_all-IsSorted}
use api_test.Audit.Newest.{NoOlder, newest_first, take-append_drop}
use api_test.Reports.Filter.{
  AuditLog, Window, memory_log, memory_query, parse_query_filter, window_of,
}
use api_test.Reports.Aggregate.{select, failed}
use api_test.Reports.Stats.{
  tally_all, sort_durations, percentile, Stats, stats_of, audit_stats, error_rate,
}

tally_all_lem :
    (events : List Event)
    → ((tally_all events).total ≡ length events)
      × ((tally_all events).errors ≡ length (failed events))
      × ((tally_all events).durations ≡ map (λ ev. ev.duration_ms) events)
unfolding tally_all failed select
tally_all_lem [] = (refl, refl, refl)
tally_all_lem (ev ∷ events) =
    let (total, errors, durations) = tally_all_lem events in
    (omega (arith, total), ground arith, ap (λ ds. ev.duration_ms ∷ ds) durations)

failed-le : (events : List Event) → length (failed events) ≤ length events
unfolding failed select
failed-le [] = omega arith
failed-le (ev ∷ events) = ground (arith, failed-le events)

module _ (F : Float64) (parse_time : Text → Option ℕ) (now : ℕ) (q : Table (List Text)) where
  abbrev window : Window
  window = window_of now (parse_query_filter parse_time q)

  -- What the handler shows of some events.
  abbrev pub summary : List Event → Stats F
  summary events =
      let t = tally_all events in
      let sorted = sort_durations t.durations in
      record {
        from = window.from;
        to = window.to;
        total = t.total;
        errors = t.errors;
        success = t.total - t.errors;
        error_rate = error_rate F t;
        p50_ms = percentile F sorted (F.decimal 50 2);
        p95_ms = percentile F sorted (F.decimal 95 2);
        p99_ms = percentile F sorted (F.decimal 99 2);
      }

  handled :
      (log : AuditLog) (events : List Event)
      → log.run_query window.filter ≡ ok events
      → audit_stats F parse_time log now q ≡ write_json 200 (summary events)
  unfolding audit_stats
  handled log events found = ap (stats_of F window) found ∙ (unfold stats_of in refl)

  -- Where the query succeeds the answer is 200, the total is the number of events that it returned,
  -- the errors are the failures among them, and errors and successes add up to the total.
  pub stats_totals :
      (log : AuditLog) (events : List Event)
      → log.run_query window.filter ≡ ok events
      → (s : Stats F) × (audit_stats F parse_time log now q ≡ write_json 200 s)
        × (s.total ≡ length events)
        × (s.errors ≡ length (failed events))
        × (s.success + s.errors ≡ s.total)
  stats_totals log events found =
      let (total, errors, _) = tally_all_lem events in
      (
        summary events,
        handled log events found,
        total,
        errors,
        omega (arith, total, errors, failed-le events),
      )

window_limit : (now : ℕ) (f : QueryFilter) → (window_of now f).filter.limit ≡ pos 1000
unfolding window_of
window_limit now f = refl

window_offset : (now : ℕ) (f : QueryFilter) → (window_of now f).filter.offset ≡ pos 0
unfolding window_of
window_offset now f = refl

module _ (F : Float64) (parse_time : Text → Option ℕ) (now : ℕ) (q : Table (List Text)) where
  -- Over the in-memory logger the summary is one of the newest events in the window that match, at most
  -- 1000: the events that match, newest first, are those that it counts and those that it leaves out;
  -- it counts as many as match, or 1000 of them; none that it leaves out is newer than one that it
  -- counts; and its total and its errors are those of the events that it counts.
  pub stats_capped :
      (events : List Event)
      → (s : Stats F) × (kept : List Event) × (left : List Event) × (audit_stats F parse_time
            (memory_log events)
            now
            q
          ≡ write_json 200 s)
        × (match_all (window_of now (parse_query_filter parse_time q)).filter events ≡ kept ++ left)
        × (length kept
            ≡ min 1000 (
                length
                  (filter_events (window_of now (parse_query_filter parse_time q)).filter events)))
        × All (NoOlder left) kept
        × (s.total ≡ length kept)
        × (s.errors ≡ length (failed kept))
  stats_capped events =
      let parsed = parse_query_filter parse_time q in
      let f = (window_of now parsed).filter in
      let sorted = match_all f events in
      let (s, answer, total, errors, _) =
        stats_totals F parse_time now q (memory_log events) (query f events)
          (memory_query f events) in
      let found = query_slice f events 0 (window_limit now parsed) (window_offset now parsed) in
      let (ordered, _, counted) = match_all-IsSorted f events in
      (
        s,
        take 1000 sorted,
        drop 1000 sorted,
        answer,
        sym (take-append_drop 1000 sorted),
        length-take 1000 sorted ∙ ap (min 1000) (unfold count in counted),
        newest_first 1000 sorted ordered,
        total ∙ ap length found,
        errors ∙ ap (λ es. length (failed es)) found,
      )

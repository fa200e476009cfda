-- ===== src/Reports/Export/Exported.antt =====
-- What the export holds when the trail grows while it runs.
use api_test.Prelude.{
  ℕ, zero, suc, ◌+◌, ◌-◌, ◌*◌, ◌≤◌, ◌<◌, ◌≡◌, refl, sym, ap, ◌∙◌, true, false, List, [], ◌∷◌, ◌++◌,
  Option, some, ltb, length, take, drop, drop-drop, All, arith,
}
use api_test.Prelude.Int.{ℤ, pos}
use api_test.Prelude.Result.{ok}
use api_test.Std.Text.{Text}
use api_test.Std.Http.{Table}
use api_test.Audit.Event.{Event}
use api_test.Audit.Memory.{QueryFilter, match_all, filter_events, matches_filter, sort_events}
use api_test.Audit.Queried.{query_slice}
use api_test.Reports.Filter.{AuditLog, memory_log, parse_query_filter}
use api_test.Reports.Export.{Line, export_round, export_loop, export_filter, audit_export}
use api_test.Reports.Export.Whole.{lines_of, after_page_lines}

module _ (log : ℕ → AuditLog) (f : QueryFilter) (all : List Event)
    (serves : (r o : ℕ)
      → (log r).run_query (record f { offset = pos o }) ≡ ok (take 1000 (drop o all))) where
  export_round_lines :
      (limit rounds n o : ℕ) (next : ℕ → ℕ → Option (List Line))
      → limit ≡ o + n
      → 0 < n
      → (1000 ≤ length (drop o all)
          → 1000 < n
          → next (o + 1000) (o + 1000) ≡ some (lines_of limit (n - 1000) (drop 1000 (drop o all))))
      → export_round log (λ r. false) limit rounds next f o o ≡ some (lines_of limit n (drop o all))
  unfolding export_round
  export_round_lines limit rounds n o next e room rest =
      let inside : ltb o limit ≡ true = ground arith in
      rw (inside, serves rounds o)
        (after_page_lines limit (λ m. next (o + m) (o + m)) o n 999 e room refl (drop o all) rest)

  export_loop_lines :
      (limit rounds n o : ℕ)
      → limit ≡ o + n
      → 0 < n
      → n < 1000 * rounds
      → export_loop log (λ r. false) limit rounds f o o ≡ some (lines_of limit n (drop o all))
  unfolding export_loop
  export_loop_lines limit zero n o e room enough = absurd (omega arith)
  export_loop_lines limit (suc rounds) n o e room enough =
      export_round_lines limit rounds n o (export_loop log (λ r. false) limit rounds f) e room
        (λ whole more.
          export_loop_lines limit rounds (n - 1000) (o + 1000) (omega arith) (omega arith)
            (omega arith)
          ∙ ap (λ xs. some (lines_of limit (n - 1000) xs)) (sym (drop-drop o 1000 all)))

matches_filter-late :
    (f : QueryFilter) (ev : Event) (end : ℕ)
    → f.to ≡ some end
    → end < ev.timestamp
    → matches_filter ev f ≡ false
unfolding matches_filter
matches_filter-late f ev end pinned late = rw pinned (ground arith)

filter_events-late :
    (f : QueryFilter) (end : ℕ) (events later : List Event)
    → f.to ≡ some end
    → All (λ ev. end < ev.timestamp) later
    → filter_events f (events ++ later) ≡ filter_events f events
unfolding filter_events
filter_events-late f end [] [] pinned h = refl
filter_events-late f end [] (ev ∷ later) pinned (late, h) =
    rw (matches_filter-late f ev end pinned late) (filter_events-late f end [] later pinned h)
filter_events-late f end (ev ∷ events) later pinned h =
    rw (filter_events-late f end events later pinned h) refl

filter_events-offset :
    (f : QueryFilter) (o : ℤ) (events : List Event)
    → filter_events (record f { offset = o }) events ≡ filter_events f events
unfolding filter_events matches_filter
filter_events-offset f o [] = refl
filter_events-offset f o (ev ∷ events) = rw (filter_events-offset f o events) refl

match_all-late :
    (f : QueryFilter) (end : ℕ) (o : ℤ) (events later : List Event)
    → f.to ≡ some end
    → All (λ ev. end < ev.timestamp) later
    → match_all (record f { offset = o }) (events ++ later) ≡ match_all f events
unfolding match_all
match_all-late f end o events later pinned h =
    ap sort_events
      (filter_events-offset f o (events ++ later) ∙ filter_events-late f end events later pinned h)

memory_serves :
    (f : QueryFilter) (end o : ℕ) (events later : List Event)
    → f.to ≡ some end
    → f.limit ≡ pos 1000
    → All (λ ev. end < ev.timestamp) later
    → (memory_log (events ++ later)).run_query (record f { offset = pos o })
      ≡ ok (take 1000 (drop o (match_all f events)))
unfolding memory_log
memory_serves f end o events later pinned whole h = ap ok (
    query_slice (record f { offset = pos o }) (events ++ later) o whole refl
    ∙ ap (λ es. take 1000 (drop o es)) (match_all-late f end (pos o) events later pinned h))

export_filter_limit :
    (now again : ℕ) (f : QueryFilter) → (export_filter now again f).limit ≡ pos 1000
unfolding export_filter
export_filter_limit now again f = refl

-- While the client stays and the in-memory logger takes only events later than the pinned end of the
-- window, in any number between the queries, the export is the events that match at its start, each
-- once and in the order of queries, cut off at 100000; the mark of a cut stands behind them if there
-- are 100000 or more.
pub audit_export_whole :
    (parse_time : Text → Option ℕ) (events : List Event) (later : ℕ → List Event)
    (now again end : ℕ) (q : Table (List Text))
    → (export_filter now again (parse_query_filter parse_time q)).to ≡ some end
    → ((r : ℕ) → All (λ ev. end < ev.timestamp) (later r))
    → audit_export parse_time (λ r. memory_log (events ++ later r)) (λ r. false) now again q
      ≡ some (
          lines_of 100000 100000
            (match_all (export_filter now again (parse_query_filter parse_time q)) events))
unfolding audit_export
audit_export_whole parse_time events later now again end q pinned h =
    let f = export_filter now again (parse_query_filter parse_time q) in
    export_loop_lines (λ r. memory_log (events ++ later r)) f (match_all f events)
      (λ r o.
        memory_serves f end o events (later r) pinned
          (export_filter_limit now again (parse_query_filter parse_time q)) (h r))
      100000 101 100000 0 (omega arith) (omega arith) (omega arith)

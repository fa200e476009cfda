-- ===== src/Reports/Export.antt =====
-- The export of events as lines of JSON (auditExportNDJSON of pkg/httpsrv/portal_audit_stream.go).
use api_test.Prelude.{
  ℕ, zero, suc, ◌+◌, Bool, true, false, not, ◌||◌, List, [], ◌∷◌, ◌++◌, Option, none, some, ltb,
  leb, if◌then◌else◌, length,
}
use api_test.Prelude.Int.{ℤ, pos}
use api_test.Prelude.Result.{Result, ok, err}
use api_test.Std.Text.{Text}
use api_test.Std.Http.{Table}
use api_test.Audit.Event.{Event}
use api_test.Audit.Memory.{QueryFilter, max_query_limit}
use api_test.Reports.Filter.{AuditLog, parse_query_filter}
pub mod Pages
pub mod Whole
pub mod Exported

-- A line of the body: an event, the mark of an export that was cut off, or of one that failed.
pub data Line : Type 0 where
  event : Event → Line
  truncated : ℕ → Line
  export_error : Text → Line

abbrev pub export_limit : ℕ
export_limit = 100000

later_than : ℕ → ℕ → Bool
later_than t now = ltb now t

-- The end of the window: what was asked for, but no later than the clock's first reading; its
-- second reading otherwise.
pinned : ℕ → ℕ → Option ℕ → ℕ
unfolding later_than
pinned now again none = again
pinned now again (some to) = if later_than to now then again else to

unfoldable pub export_filter : ℕ → ℕ → QueryFilter → QueryFilter
unfolding pinned
export_filter now again f = record f {
  limit = pos max_query_limit;
  offset = pos 0;
  to = some (pinned now again f.to);
}

-- The loop over one page, with the number of lines written; the flag says that the limit is met.
unfoldable pub write_page : ℕ → List Event → ℕ → List Line × Bool
write_page limit [] written = ([], false)
write_page limit (ev ∷ events) written =
    let rest = write_page limit events (written + 1) in
    if leb limit (written + 1)
    then (event ev ∷ truncated limit ∷ [], true)
    else (event ev ∷ rest.0, rest.1)

unfoldable pub prepend : List Line → Option (List Line) → Option (List Line)
prepend lines none = none
prepend lines (some rest) = some (lines ++ rest)

-- What a round does with the events of its query; `next` is the rest of the loop, given how many
-- events the page had.
unfoldable pub after_page : ℕ → (ℕ → Option (List Line)) → ℕ → List Event → Option (List Line)
unfolding write_page prepend
after_page limit next written [] = some []
after_page limit next written (ev ∷ events) =
    let page = ev ∷ events in
    let (lines, full) = write_page limit page written in
    if full || ltb (length page) max_query_limit
    then some lines
    else prepend lines (next (length page))

-- The loop, for a logger as each round finds it, counted by the rounds that are left, and for a
-- client that may be gone when a round starts. `none` is a loop that has not ended in its rounds.
module _ (log : ℕ → AuditLog) (cancelled : ℕ → Bool) (limit : ℕ) where
  unfoldable pub export_round :
      ℕ → (ℕ → ℕ → Option (List Line)) → QueryFilter → ℕ → ℕ → Option (List Line)
  unfolding after_page
  export_round rounds next f offset written =
      if not (ltb written limit) || cancelled rounds
      then some []
      else elim ((log rounds).run_query (record f { offset = pos offset })) [
        | err e ↦ some (export_error e ∷ [])
        | ok events ↦ after_page limit (λ n. next (offset + n) (written + n)) written events
      ]

  unfoldable pub export_loop : ℕ → QueryFilter → ℕ → ℕ → Option (List Line)
  unfolding export_round
  export_loop zero f offset written = none
  export_loop (suc rounds) f offset written =
      export_round rounds (export_loop rounds f) f offset written

-- The rounds that suffice for the export's limit.
abbrev pub export_rounds : ℕ
export_rounds = 101

-- `now` and `again` are the clock's readings.
unfoldable pub audit_export :
    (Text → Option ℕ) → (ℕ → AuditLog) → (ℕ → Bool) → ℕ → ℕ → Table (List Text) → Option (List Line)
unfolding parse_query_filter export_filter export_loop
audit_export parse_time log cancelled now again q =
    export_loop log cancelled export_limit export_rounds
      (export_filter now again (parse_query_filter parse_time q)) 0 0

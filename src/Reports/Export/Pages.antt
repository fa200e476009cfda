-- ===== src/Reports/Export/Pages.antt =====
-- One page of the export, and that the export ends.
use api_test.Prelude.{
  ℕ, zero, suc, ◌+◌, ◌-◌, ◌*◌, ◌≤◌, ◌<◌, ◌≡◌, refl, ◌∙◌, Bool, true, false, not, ◌||◌, List, [],
  ◌∷◌, ◌++◌, Option, some, ltb, leb, length, take, map, arith, Bool-cases, inl, inr,
}
use api_test.Prelude.Int.{pos}
use api_test.Prelude.Result.{Result-cases}
use api_test.Std.Text.{Text}
use api_test.Std.Http.{Table}
use api_test.Audit.Event.{Event}
use api_test.Audit.Memory.{QueryFilter}
use api_test.Reports.Filter.{AuditLog, parse_query_filter}
use api_test.Reports.Export.{
  Line, event, truncated, export_error, write_page, prepend, after_page, export_round, export_loop,
  audit_export, export_filter,
}

-- A page that stays below the limit.
pub write_page_below :
    (limit : ℕ) (events : List Event) (written : ℕ)
    → written + length events < limit
    → write_page limit events written ≡ (map event events, false)
unfolding write_page
write_page_below limit [] written h = refl
write_page_below limit (ev ∷ events) written h =
    let more : leb limit (written + 1) ≡ false = ground arith in
    rw (more, write_page_below limit events (written + 1) (omega arith)) refl

-- A page that meets the limit: the events up to it, and the mark.
pub write_page_over :
    (limit : ℕ) (events : List Event) (written n : ℕ)
    → written < limit
    → limit ≡ written + n
    → n ≤ length events
    → write_page limit events written ≡ (map event (take n events) ++ truncated limit ∷ [], true)
unfolding write_page
write_page_over limit events written zero below e long = absurd (omega arith)
write_page_over limit [] written (suc n) below e long = absurd (omega arith)
write_page_over limit (ev ∷ events) written (suc zero) below e long =
    let full : leb limit (written + 1) ≡ true = ground arith in rw full refl
write_page_over limit (ev ∷ events) written (suc (suc n)) below e long =
    let more : leb limit (written + 1) ≡ false = ground arith in
    rw
      (
        more,
        write_page_over limit events (written + 1) (suc n) (omega arith) (omega arith)
            (omega arith),
      )
      refl

module _ (limit : ℕ) (next : ℕ → Option (List Line)) (written : ℕ) where
  pub after_page_full :
      (ev : Event) (events : List Event) {lines : List Line}
      → write_page limit (ev ∷ events) written ≡ (lines, true)
      → after_page limit next written (ev ∷ events) ≡ some lines
  unfolding after_page
  after_page_full ev events h = rw h refl

  pub after_page_last :
      (ev : Event) (events : List Event) {lines : List Line}
      → write_page limit (ev ∷ events) written ≡ (lines, false)
      → length (ev ∷ events) < 1000
      → after_page limit next written (ev ∷ events) ≡ some lines
  unfolding after_page
  after_page_last ev events h short =
      let last : ltb (length (ev ∷ events)) 1000 ≡ true = ground arith in rw (h, last) refl

  pub after_page_more :
      (ev : Event) (events : List Event) {lines : List Line}
      → write_page limit (ev ∷ events) written ≡ (lines, false)
      → 1000 ≤ length (ev ∷ events)
      → after_page limit next written (ev ∷ events) ≡ prepend lines (next (length (ev ∷ events)))
  unfolding after_page
  after_page_more ev events h whole =
      let last : ltb (length (ev ∷ events)) 1000 ≡ false = ground arith in rw (h, last) refl

  -- A round ends the loop, or has written a whole page, is below the limit and goes on.
  after_page_ends :
      (events : List Event)
      → written < limit
      → ((n : ℕ) → 1000 ≤ n → written + n < limit → (lines : List Line) × (next n ≡ some lines))
      → (lines : List Line) × (after_page limit next written events ≡ some lines)
  after_page_ends [] below ends = ([], unfold after_page in refl)
  after_page_ends (ev ∷ events) below ends =
      elim (Bool-cases (ltb (written + length (ev ∷ events)) limit)) [
        | inr over ↦
            let lines = map event (take (limit - written) (ev ∷ events)) ++ truncated limit ∷ [] in
            (
              lines,
              after_page_full ev events (
                  write_page_over limit (ev ∷ events) written (limit - written) below (omega arith)
                    (ground arith)),
            )
        | inl under ↦
            let page = write_page_below limit (ev ∷ events) written (ground arith) in
            elim (Bool-cases (ltb (length (ev ∷ events)) 1000)) [
              | inl short ↦ (map event (ev ∷ events), after_page_last ev events page (ground arith))
              | inr whole ↦
                  let (lines, e) = ends (length (ev ∷ events)) (ground arith) (ground arith) in
                  (
                    map event (ev ∷ events) ++ lines,
                    after_page_more ev events page (ground arith) ∙ rw e (unfold prepend in refl),
                  )
            ]
      ]

module _ (log : ℕ → AuditLog) (cancelled : ℕ → Bool) (limit : ℕ) where
  export_round_ends :
      (rounds : ℕ) (next : ℕ → ℕ → Option (List Line)) (f : QueryFilter) (offset written : ℕ)
      → ((n : ℕ)
          → 1000 ≤ n
          → written + n < limit
          → (lines : List Line) × (next (offset + n) (written + n) ≡ some lines))
      → (lines : List Line) × (export_round log cancelled limit rounds next f offset written
          ≡ some lines)
  unfolding export_round
  export_round_ends rounds next f offset written ends =
      elim (Bool-cases (not (ltb written limit) || cancelled rounds)) [
        | inl stop ↦ ([], rw stop refl)
        | inr on ↦
            rw on (elim (Result-cases ((log rounds).run_query (record f { offset = pos offset }))) [
              | inr (e, failed) ↦ (export_error e ∷ [], rw failed refl)
              | inl (events, found) ↦ rw found (
                  after_page_ends limit (λ n. next (offset + n) (written + n)) written events
                    (ground arith) ends)
            ])
      ]

  export_loop_ends :
      (rounds : ℕ) (f : QueryFilter) (offset written : ℕ)
      → written ≤ limit
      → limit < written + 1000 * rounds
      → (lines : List Line) × (export_loop log cancelled limit rounds f offset written ≡ some lines)
  unfolding export_loop
  export_loop_ends zero f offset written below enough = absurd (omega arith)
  export_loop_ends (suc rounds) f offset written below enough =
      export_round_ends rounds (export_loop log cancelled limit rounds f) f offset written
        (λ n whole under.
          export_loop_ends rounds f (offset + n) (written + n) (omega arith) (omega arith))

-- The export ends within its 101 rounds, whatever the logger answers in each of them and whenever
-- the client goes.
pub audit_export_ends :
    (parse_time : Text → Option ℕ) (log : ℕ → AuditLog) (cancelled : ℕ → Bool) (now again : ℕ)
    (q : Table (List Text))
    → (lines : List Line) × (audit_export parse_time log cancelled now again q ≡ some lines)
unfolding audit_export
audit_export_ends parse_time log cancelled now again q =
    export_loop_ends log cancelled 100000 101
      (export_filter now again (parse_query_filter parse_time q)) 0 0 (omega arith) (omega arith)

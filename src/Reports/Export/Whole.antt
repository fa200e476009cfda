-- ===== src/Reports/Export/Whole.antt =====
-- The lines of the export, over the in-memory logger.
use api_test.Prelude.{
  ℕ, suc, ◌+◌, ◌-◌, ◌≤◌, ◌<◌, ◌≡◌, refl, sym, ap, ◌∙◌, true, false, List, [], ◌∷◌, ◌++◌, Option,
  some, ltb, leb, if◌then◌else◌, length, take, drop, map, take-add, length-drop, take-take,
  length-take, take_all, arith, Bool-cases, inl, inr,
}
use api_test.Audit.Event.{Event}
use mathlib.Core.List.{append-nil, append_assoc, map-append}
use api_test.Reports.Export.{Line, event, truncated, prepend, after_page}
use api_test.Reports.Export.Pages.{
  write_page_below, write_page_over, after_page_full, after_page_last, after_page_more,
}

-- The lines for all of a list of events: at most `n` of them, with the mark if there are so many.
unfoldable pub lines_of : ℕ → ℕ → List Event → List Line
lines_of limit n events =
    map event (take n events) ++ (if leb n (length events) then truncated limit ∷ [] else [])

lines_of_below :
    (limit n : ℕ) (events : List Event)
    → length events < n
    → lines_of limit n events ≡ map event events
unfolding lines_of
lines_of_below limit n events h =
    let fits : leb n (length events) ≡ false = ground arith in
    rw (fits, take_all n events (omega arith)) (append-nil (map event events))

lines_of_over :
    (limit n : ℕ) (events : List Event)
    → n ≤ length events
    → lines_of limit n events ≡ map event (take n events) ++ truncated limit ∷ []
unfolding lines_of
lines_of_over limit n events h =
    let meets : leb n (length events) ≡ true = ground arith in rw meets refl

-- The lines of a page and then those of the rest.
lines_of-page :
    (limit p m : ℕ) (events : List Event)
    → p ≤ length events
    → map event (take p events) ++ lines_of limit m (drop p events) ≡ lines_of limit (p + m) events
unfolding lines_of
lines_of-page limit p m events h =
    let marks : leb m (length (drop p events)) ≡ leb (p + m) (length events) =
      ground (arith, length-drop p events) in
    rw (take-add p m events, map-append event (take p events) (take m (drop p events)), marks)
      (sym (append_assoc (map event (take p events)) _ _))

module _ (limit : ℕ) (next : ℕ → Option (List Line)) (written n k : ℕ) (e : limit ≡ written + n)
    (room : 0 < n) (size : suc k ≡ 1000) where
  -- A round over the events that are left, of which it sees the first page.
  pub after_page_lines :
      (xs : List Event)
      → (suc k ≤ length xs
          → suc k < n
          → next (suc k) ≡ some (lines_of limit (n - suc k) (drop (suc k) xs)))
      → after_page limit next written (take (suc k) xs) ≡ some (lines_of limit n xs)
  after_page_lines [] rest =
      unfold after_page in ap some (sym (lines_of_below limit n [] (omega arith)))
  after_page_lines (x ∷ xs) rest =
      let page = x ∷ take k xs in
      let seen = length-take (suc k) (x ∷ xs) in
      elim (Bool-cases (ltb (length page) n)) [
        | inr over ↦
            after_page_full limit next written x (take k xs)
              (write_page_over limit page written n (omega arith) e (ground arith))
            ∙ ap some (
                ap (λ r. map event r ++ truncated limit ∷ [])
                  (take-take n (suc k) (x ∷ xs) (ground arith))
                ∙ sym (lines_of_over limit n (x ∷ xs) (ground arith)))
        | inl under ↦
            let below = write_page_below limit page written (ground arith) in
            elim (Bool-cases (ltb (length page) 1000)) [
              | inl short ↦
                  after_page_last limit next written x (take k xs) below (ground arith)
                  ∙ ap some (
                      ap (map event) (take_all (suc k) (x ∷ xs) (ground arith))
                      ∙ sym (lines_of_below limit n (x ∷ xs) (ground arith)))
              | inr whole ↦
                  let filled : length page ≡ suc k = ground arith in
                  let more : suc k + (n - suc k) ≡ n = ground arith in
                  after_page_more limit next written x (take k xs) below (ground arith)
                  ∙ (rw (filled, rest (ground arith) (ground arith)) (unfold prepend in refl)
                      ∙ ap some (
                          lines_of-page limit (suc k) (n - suc k) (x ∷ xs) (ground arith)
                          ∙ ap (λ m. lines_of limit m (x ∷ xs)) more))
            ]
      ]

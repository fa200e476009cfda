-- ===== src/Reports/Stream/Complete.antt =====
-- What a tick of the stream does not miss.
use api_test.Prelude.{ℕ, ◌≡◌, Bool, false, List, [], ◌∷◌, ltb}
use api_test.Std.Text.{Text}
use api_test.Audit.Event.{Event}
use api_test.Reports.Stream.{was_seen}

-- No event's identifier is one of `seen` or an earlier event's.
abbrev pub IsNew : List Text → List Event → Type 0
IsNew seen [] = Unit
IsNew seen (ev ∷ events) = (was_seen ev.id seen ≡ false) × IsNew (ev.id ∷ seen) events

abbrev pub later_than : ℕ → Event → Bool
later_than t ev = ltb t ev.timestamp

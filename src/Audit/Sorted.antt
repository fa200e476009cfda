-- ===== src/Audit/Sorted.antt =====
-- The order and the choice of what the in-memory logger's queries select.
use api_test.Prelude.{
  suc, ◌≡◌, refl, ap, ◌∙◌, true, false, List, [], ◌∷◌, length, arith, Bool-cases, inl, inr, All,
}
use api_test.Std.Text.{Text}
use api_test.Audit.Event.{Event}
use api_test.Audit.Memory.{
  QueryFilter, matches_filter, comes_before, insert_event, sort_events, filter_events, match_all,
  count, text_lt,
}

-- No event stands behind one that it should come before.
unfoldable pub IsSorted : List Event → Type 0
IsSorted [] = Unit
IsSorted (a ∷ []) = Unit
IsSorted (a ∷ b ∷ es) = (comes_before b a ≡ false) × IsSorted (b ∷ es)

text_lt_asym : (s t : Text) → text_lt s t ≡ true → text_lt t s ≡ false
unfolding text_lt
text_lt_asym [] [] h = refl
text_lt_asym [] (c ∷ t) h = refl
text_lt_asym (c ∷ s) [] h = cc
text_lt_asym (c ∷ s) (d ∷ t) h = ground (arith, text_lt_asym s t)

comes_before_asym : (a b : Event) → comes_before a b ≡ true → comes_before b a ≡ false
unfolding comes_before
comes_before_asym a b h = ground (arith, text_lt_asym a.id b.id)

insert_event-IsSorted : (ev : Event) (es : List Event) → IsSorted es → IsSorted (insert_event ev es)
unfolding insert_event IsSorted
insert_event-IsSorted ev [] h = tt
insert_event-IsSorted ev (a ∷ []) h = elim (Bool-cases (comes_before a ev)) [
  | inl first ↦ rw first (comes_before_asym a ev first, tt)
  | inr last ↦ rw last (last, tt)
]
insert_event-IsSorted ev (a ∷ b ∷ es) (ab, h) = elim (Bool-cases (comes_before a ev)) [
  | inr last ↦ rw last (last, (ab, h))
  | inl first ↦ rw first (elim (Bool-cases (comes_before b ev)) [
    | inl second ↦ rw second (ab, rw second at (insert_event-IsSorted ev (b ∷ es) h))
    | inr third ↦ rw third (comes_before_asym a ev first, (third, h))
  ])
]

sort_events-IsSorted : (es : List Event) → IsSorted (sort_events es)
unfolding sort_events IsSorted
sort_events-IsSorted [] = tt
sort_events-IsSorted (ev ∷ es) = insert_event-IsSorted ev (sort_events es) (sort_events-IsSorted es)

insert_event-All {κ} :
    (P : Event → Type κ) (ev : Event) (es : List Event)
    → P ev
    → All P es
    → All P (insert_event ev es)
unfolding insert_event
insert_event-All P ev [] p ps = (p, tt)
insert_event-All P ev (e ∷ es) p (q, ps) = elim (Bool-cases (comes_before e ev)) [
  | inl first ↦ rw first (q, insert_event-All P ev es p ps)
  | inr last ↦ rw last (p, (q, ps))
]

sort_events-All {κ} : (P : Event → Type κ) (es : List Event) → All P es → All P (sort_events es)
unfolding sort_events
sort_events-All P [] ps = tt
sort_events-All P (ev ∷ es) (p, ps) =
    insert_event-All P ev (sort_events es) p (sort_events-All P es ps)

filter_events-All :
    (f : QueryFilter) (events : List Event)
    → All (λ ev. matches_filter ev f ≡ true) (filter_events f events)
unfolding filter_events
filter_events-All f [] = tt
filter_events-All f (ev ∷ events) = elim (Bool-cases (matches_filter ev f)) [
  | inl hit ↦ rw hit (hit, filter_events-All f events)
  | inr miss ↦ rw miss (filter_events-All f events)
]

length-insert_event : (ev : Event) (es : List Event) → length (insert_event ev es) ≡ suc (length es)
unfolding insert_event
length-insert_event ev [] = refl
length-insert_event ev (e ∷ es) = elim (Bool-cases (comes_before e ev)) [
  | inl first ↦ rw first (ap suc (length-insert_event ev es))
  | inr last ↦ rw last refl
]

length-sort_events : (es : List Event) → length (sort_events es) ≡ length es
unfolding sort_events
length-sort_events [] = refl
length-sort_events (ev ∷ es) =
    length-insert_event ev (sort_events es) ∙ ap suc (length-sort_events es)

-- What a filter selects is sorted, newest first and by id where times are equal; every event in it
-- matches the filter; and Count is the number of logged events that match.
pub match_all-IsSorted :
    (f : QueryFilter) (events : List Event)
    → IsSorted (match_all f events)
      × All (λ ev. matches_filter ev f ≡ true) (match_all f events)
      × (count f events ≡ length (filter_events f events))
unfolding match_all count
match_all-IsSorted f events = (
  sort_events-IsSorted (filter_events f events),
  sort_events-All (λ ev. matches_filter ev f ≡ true) (filter_events f events)
      (filter_events-All f events),
  length-sort_events (filter_events f events),
)

-- ===== src/Reports/Stream/Once.antt =====
-- What one tick of the stream shows.
use api_test.Prelude.{
  ℕ, zero, suc, ◌<◌, ◌≡◌, refl, ap, Bool, true, false, not, ◌||◌, List, [], ◌∷◌, ◌++◌, ltb, ◌==◌,
  if◌then◌else◌, length, arith, Bool-cases, inl, inr,
}
use api_test.Prelude.Result.{ok, err, Result-cases}
use api_test.Std.Text.{Text}
use api_test.Audit.Event.{Event}
use api_test.Reports.Filter.{AuditLog}
use api_test.Reports.Stream.{
  Frame, opened, heartbeat, audit, error, saturated, was_seen, emit_page, last_timestamp, frames_of,
  after_query, after_answer, query_page, tick_pages, tick, poll_filter,
}

-- The events that some frames carry.
unfoldable pub shown : List Frame → List Event
shown [] = []
shown (audit ev ∷ frames) = ev ∷ shown frames
shown (opened ∷ frames) = shown frames
shown (heartbeat ∷ frames) = shown frames
shown (error e ∷ frames) = shown frames
shown (saturated n ∷ frames) = shown frames

-- Each event is later than a time, and its identifier is none of `seen` and no earlier event's.
abbrev pub IsFresh : ℕ → List Text → List Event → Type 0
IsFresh last_seen seen [] = Unit
IsFresh last_seen seen (ev ∷ events) =
    (last_seen < ev.timestamp)
    × (was_seen ev.id seen ≡ false)
    × IsFresh last_seen (ev.id ∷ seen) events

-- The identifiers seen behind some events.
seen_after : List Text → List Event → List Text
seen_after seen [] = seen
seen_after seen (ev ∷ events) = seen_after (ev.id ∷ seen) events

pub shown-frames_of :
    (events : List Event) (frames : List Frame)
    → shown (frames_of events ++ frames) ≡ events ++ shown frames
unfolding shown frames_of
shown-frames_of [] frames = refl
shown-frames_of (ev ∷ events) frames = ap (λ r. ev ∷ r) (shown-frames_of events frames)

IsFresh-append :
    (last_seen : ℕ) (seen : List Text) (xs ys : List Event)
    → IsFresh last_seen seen xs
    → IsFresh last_seen (seen_after seen xs) ys
    → IsFresh last_seen seen (xs ++ ys)
unfolding seen_after
IsFresh-append last_seen seen [] ys hx hy = hy
IsFresh-append last_seen seen (x ∷ xs) ys (late, new, hx) hy =
    (late, new, IsFresh-append last_seen (x.id ∷ seen) xs ys hx hy)

emit_page-IsFresh :
    (last_seen : ℕ) (seen : List Text) (events : List Event)
    → IsFresh last_seen seen (emit_page last_seen seen events).0
      × ((emit_page last_seen seen events).1 ≡ seen_after seen (emit_page last_seen seen events).0)
unfolding emit_page seen_after
emit_page-IsFresh last_seen seen [] = (tt, refl)
emit_page-IsFresh last_seen seen (ev ∷ events) =
    elim (Bool-cases (not (ltb last_seen ev.timestamp) || was_seen ev.id seen)) [
      | inl skip ↦ rw skip (emit_page-IsFresh last_seen seen events)
      | inr show ↦
          let (fresh, same) = emit_page-IsFresh last_seen (ev.id ∷ seen) events in
          rw show ((ground arith, ground arith, fresh), same)
    ]

-- The three ways on behind a page.
tail-IsFresh :
    (last_seen n : ℕ) (seen : List Text) (partial stuck : Bool) (rest : List Frame)
    → IsFresh last_seen seen (shown rest)
    → IsFresh last_seen seen
        (shown (if partial then [] else if stuck then saturated n ∷ [] else rest))
unfolding shown
tail-IsFresh last_seen n seen true stuck rest h = tt
tail-IsFresh last_seen n seen false true rest h = tt
tail-IsFresh last_seen n seen false false rest h = h

module _ (log : AuditLog) (last_seen : ℕ) where
  pub after_query_parts :
      (next : ℕ → List Text → List Frame) (cursor : ℕ) (seen : List Text) (events : List Event)
      → after_query next last_seen cursor seen events
        ≡ frames_of (emit_page last_seen seen events).0
          ++ (if ltb (length events) 1000
              then []
              else if length (emit_page last_seen seen events).0 == 0
              then saturated (length (emit_page last_seen seen events).1) ∷ []
              else next (last_timestamp cursor events) (emit_page last_seen seen events).1)
  unfolding after_query
  after_query_parts next cursor seen events = refl

  after_query-IsFresh :
      (next : ℕ → List Text → List Frame) (cursor : ℕ) (seen : List Text) (events : List Event)
      → ((c : ℕ) (s : List Text) → IsFresh last_seen s (shown (next c s)))
      → IsFresh last_seen seen (shown (after_query next last_seen cursor seen events))
  after_query-IsFresh next cursor seen events fresh_next =
      let (fresh, same) = emit_page-IsFresh last_seen seen events in
      let page = (emit_page last_seen seen events).0 in
      let seen' = (emit_page last_seen seen events).1 in
      rw (after_query_parts next cursor seen events, shown-frames_of page)
        (IsFresh-append last_seen seen page _ fresh (
          tail-IsFresh last_seen (length seen') (seen_after seen page) (ltb (length events) 1000)
            (length page == 0) (next (last_timestamp cursor events) seen')
            (rw (← same) (fresh_next (last_timestamp cursor events) seen'))))

  pub query_page_ok :
      (next : ℕ → List Text → List Frame) (cursor : ℕ) (seen : List Text) {events : List Event}
      → log.run_query (poll_filter last_seen cursor) ≡ ok events
      → query_page log last_seen next cursor seen ≡ after_query next last_seen cursor seen events
  unfolding query_page
  query_page_ok next cursor seen found = ap (after_answer next last_seen cursor seen) found

  query_page_err :
      (next : ℕ → List Text → List Frame) (cursor : ℕ) (seen : List Text) {e : Text}
      → log.run_query (poll_filter last_seen cursor) ≡ err e
      → query_page log last_seen next cursor seen ≡ error e ∷ []
  unfolding query_page
  query_page_err next cursor seen failed = ap (after_answer next last_seen cursor seen) failed

  shown-nil : (seen : List Text) → IsFresh last_seen seen (shown [])
  unfolding shown
  shown-nil seen = tt

  shown-error : (seen : List Text) (e : Text) → IsFresh last_seen seen (shown (error e ∷ []))
  unfolding shown
  shown-error seen e = tt

  query_page-IsFresh :
      (next : ℕ → List Text → List Frame) (cursor : ℕ) (seen : List Text)
      → ((c : ℕ) (s : List Text) → IsFresh last_seen s (shown (next c s)))
      → IsFresh last_seen seen (shown (query_page log last_seen next cursor seen))
  query_page-IsFresh next cursor seen fresh_next =
      elim (Result-cases (log.run_query (poll_filter last_seen cursor))) [
        | inr (e, failed) ↦ rw (query_page_err next cursor seen failed) (shown-error seen e)
        | inl (events, found) ↦
            rw (query_page_ok next cursor seen found)
              (after_query-IsFresh next cursor seen events fresh_next)
      ]

  tick_pages-IsFresh :
      (pages cursor : ℕ) (seen : List Text)
      → IsFresh last_seen seen (shown (tick_pages log last_seen pages cursor seen))
  unfolding tick_pages
  tick_pages-IsFresh zero cursor seen = shown-nil seen
  tick_pages-IsFresh (suc pages) cursor seen =
      query_page-IsFresh (tick_pages log last_seen pages) cursor seen (tick_pages-IsFresh pages)

  -- Whatever the logger answers to the queries of a tick, the tick shows no identifier twice, and
  -- only events later than the time up to which the stream had shown them.
  pub tick_once : (now : ℕ) → IsFresh last_seen [] (shown (tick log last_seen now))
  unfolding tick
  tick_once now = tick_pages-IsFresh 10 now []

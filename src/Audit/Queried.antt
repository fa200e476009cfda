-- ===== src/Audit/Queried.antt =====
-- What queries of the in-memory logger return.
use api_test.Prelude.{
  ℕ, zero, suc, ◌+◌, ◌*◌, ◌≤◌, ◌≡◌, refl, ap, sym, ◌∙◌, List, [], ◌∷◌, ◌++◌, if◌then◌else◌, leb,
  length, take, drop, take_all, take-add, drop_all, arith, Bool-cases, inl, inr, leb→le,
}
use api_test.Prelude.Int.{pos, pos_part}
use api_test.Audit.Event.{Event}
use api_test.Audit.Memory.{
  QueryFilter, matches_filter, sort_events, filter_events, match_all, query_limit, query, count,
}

take_nil {ℓ} : {A : Type ℓ} (n : ℕ) → Path (List A) (take n []) []
take_nil n = take_all n [] (omega arith)

-- A page of a filter's events.
abbrev pub page : QueryFilter → ℕ → ℕ → QueryFilter
page f size i = record f { limit = pos size; offset = pos (i * size) }

filter_events-page :
    (f : QueryFilter) (size i : ℕ) (events : List Event)
    → filter_events (page f size i) events ≡ filter_events f events
unfolding filter_events matches_filter
filter_events-page f size i [] = refl
filter_events-page f size i (ev ∷ events) = rw (filter_events-page f size i events) refl

query_limit_exact : (size : ℕ) → 1 ≤ size → size ≤ 1000 → query_limit (pos size) ≡ size
unfolding query_limit
query_limit_exact zero lo hi = absurd (omega arith)
query_limit_exact (suc n) lo hi = ground arith

query_page :
    (f : QueryFilter) (events : List Event) (size i : ℕ)
    → 1 ≤ size
    → size ≤ 1000
    → query (page f size i) events ≡ take size (drop (i * size) (match_all f events))
unfolding query match_all
query_page f events size i lo hi =
    rw (filter_events-page f size i events, query_limit_exact size lo hi)
      (elim (Bool-cases (leb (length (sort_events (filter_events f events))) (i * size))) [
        | inl over ↦
            rw (over, drop_all (i * size) (sort_events (filter_events f events)) (leb→le _ _ over))
              (sym (take_nil size))
        | inr inside ↦ rw inside refl
      ])

slice_of :
    (f : QueryFilter) (out : List Event) (o : ℕ)
    → query_limit f.limit ≡ 1000
    → (if leb (length out) o then [] else take (query_limit f.limit) (drop o out))
      ≡ take 1000 (drop o out)
slice_of f out o whole = elim (Bool-cases (leb (length out) o)) [
  | inl over ↦ rw (over, drop_all o out (leb→le _ _ over)) (sym (take_nil 1000))
  | inr inside ↦ rw (inside, whole) refl
]

query_cut :
    (f : QueryFilter) (events : List Event)
    → query f events ≡ (
        if leb (length (match_all f events)) (pos_part f.offset)
        then []
        else take (query_limit f.limit) (drop (pos_part f.offset) (match_all f events)))
unfolding query
query_cut f events = refl

-- A query for as many events as one may return.
pub query_slice :
    (f : QueryFilter) (events : List Event) (o : ℕ)
    → f.limit ≡ pos 1000
    → f.offset ≡ pos o
    → query f events ≡ take 1000 (drop o (match_all f events))
query_slice f events o whole at =
    rw (query_cut f events, ap pos_part at)
      (slice_of f (match_all f events) o
        (ap query_limit whole ∙ query_limit_exact 1000 (omega arith) (omega arith)))

-- The first pages, one behind the other.
unfoldable pub pages : QueryFilter → List Event → ℕ → ℕ → List Event
pages f events size zero = []
pages f events size (suc k) = pages f events size k ++ query (page f size k) events

pages-take :
    (f : QueryFilter) (events : List Event) (size k : ℕ)
    → 1 ≤ size
    → size ≤ 1000
    → pages f events size k ≡ take (k * size) (match_all f events)
unfolding pages
pages-take f events size zero lo hi = let e : 0 * size ≡ 0 = omega arith in rw e refl
pages-take f events size (suc k) lo hi =
    let e : suc k * size ≡ k * size + size = omega arith in
    rw
      (
        e,
        take-add (k * size) size (match_all f events),
        pages-take f events size k lo hi,
        query_page f events size k lo hi,
      )
      refl

-- A client that asks for one page after the other, with a page size from 1 to 1000, gets all events
-- that match the filter, each once and in order, when it has asked for as many as Count says there
-- are.
pub query_pages :
    (f : QueryFilter) (events : List Event) (size k : ℕ)
    → 1 ≤ size
    → size ≤ 1000
    → count f events ≤ k * size
    → pages f events size k ≡ match_all f events
unfolding count
query_pages f events size k lo hi enough =
    pages-take f events size k lo hi ∙ take_all (k * size) (match_all f events) enough

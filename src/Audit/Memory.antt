-- ===== src/Audit/Memory.antt =====
-- Queries of the audit trail: the filter (pkg/audit/logger.go) and the in-memory logger
-- (pkg/audit/memory.go).
use api_test.Prelude.{
  ℕ, zero, suc, Bool, true, false, not, ◌&&◌, ◌||◌, List, [], ◌∷◌, ◌++◌, Option, none, some, ltb,
  leb, ◌==◌, length, take, drop, if◌then◌else◌,
}
use api_test.Prelude.Int.{ℤ, pos, negsuc, pos_part}
use api_test.Std.Text.{Text, str_eq, is_empty, contains, to_lower}
use api_test.Audit.Event.{Event, Payload}

-- `none` is the zero time; 0 is any status.
pub record QueryFilter : Type 0 where
  pub from : Option ℕ
  pub to : Option ℕ
  pub method : Text
  pub path : Text
  pub route_name : Text
  pub user_id : Text
  pub session_id : Text
  pub event_id : Text
  pub status : ℤ
  pub success : Option Bool
  pub search : Text
  pub limit : ℤ
  pub offset : ℤ

abbrev pub max_query_limit : ℕ
max_query_limit = 1000

-- An empty filter lets every text pass.
is_or_empty : Text → Text → Bool
is_or_empty wanted actual = is_empty wanted || str_eq actual wanted

-- A status of 0 is any; a negative one is no event's.
same_status : ℤ → ℕ → Bool
same_status (pos zero) actual = true
same_status (pos (suc n)) actual = actual == suc n
same_status (negsuc n) actual = false

not_before : Option ℕ → ℕ → Bool
not_before none t = true
not_before (some from) t = leb from t

not_after : Option ℕ → ℕ → Bool
not_after none t = true
not_after (some to) t = leb t to

same_success : Option Bool → Bool → Bool
same_success none s = true
same_success (some true) s = s
same_success (some false) s = not s

unfoldable pub matches_filter : Event → QueryFilter → Bool
unfolding is_or_empty same_status not_before not_after same_success
matches_filter ev f =
    is_or_empty f.event_id ev.id
    && is_or_empty f.method ev.method
    && is_or_empty f.path ev.path
    && is_or_empty f.route_name ev.route_name
    && is_or_empty f.user_id ev.user_subject
    && is_or_empty f.session_id ev.session_id
    && same_status f.status ev.status
    && not_before f.from ev.timestamp
    && not_after f.to ev.timestamp
    && same_success f.success ev.success
    && (is_empty f.search
        || contains (to_lower ev.path) (to_lower f.search)
        || contains (to_lower ev.error_message) (to_lower f.search))

-- Go's < on strings
unfoldable pub text_lt : Text → Text → Bool
text_lt [] [] = false
text_lt [] (c ∷ t) = true
text_lt (c ∷ s) [] = false
text_lt (c ∷ s) (d ∷ t) = ltb c d || ((c == d) && text_lt s t)

-- Newest first, and by id where the times are equal.
unfoldable pub comes_before : Event → Event → Bool
unfolding text_lt
comes_before a b =
    if a.timestamp == b.timestamp then text_lt a.id b.id else ltb b.timestamp a.timestamp

unfoldable pub insert_event : Event → List Event → List Event
unfolding comes_before
insert_event ev [] = ev ∷ []
insert_event ev (e ∷ es) =
    let rest = insert_event ev es in if comes_before e ev then e ∷ rest else ev ∷ e ∷ es

-- sort.Slice by comes_before
unfoldable pub sort_events : List Event → List Event
unfolding insert_event
sort_events [] = []
sort_events (ev ∷ es) = insert_event ev (sort_events es)

unfoldable pub filter_events : QueryFilter → List Event → List Event
unfolding matches_filter
filter_events f [] = []
filter_events f (ev ∷ es) =
    let rest = filter_events f es in if matches_filter ev f then ev ∷ rest else rest

unfoldable pub match_all : QueryFilter → List Event → List Event
unfolding sort_events filter_events
match_all f events = sort_events (filter_events f events)

unfoldable pub query_limit : ℤ → ℕ
query_limit (negsuc n) = 100
query_limit (pos zero) = 100
query_limit (pos (suc n)) = if ltb max_query_limit (suc n) then max_query_limit else suc n

-- MemoryLogger.Query
unfoldable pub query : QueryFilter → List Event → List Event
unfolding match_all query_limit
query f events =
    let out = match_all f events in
    let offset = pos_part f.offset in
    if leb (length out) offset then [] else take (query_limit f.limit) (drop offset out)

-- MemoryLogger.Count
unfoldable pub count : QueryFilter → List Event → ℕ
unfolding match_all
count f events = length (match_all f events)

-- MemoryLogger.GetPayload
unfoldable pub get_payload : Text → List Event → Option Payload
unfolding str_eq
get_payload id [] = none
get_payload id (ev ∷ events) =
    let rest = get_payload id events in if str_eq ev.id id then ev.payload else rest

-- MemoryLogger.Log; `fresh` is a new UUID.
unfoldable pub log_event : Text → Event → List Event → List Event
log_event fresh ev events = events ++ (if is_empty ev.id then record ev { id = fresh } else ev) ∷ []

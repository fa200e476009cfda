-- ===== src/Reports/Breakdown.antt =====
-- Counts of events by a dimension (auditBreakdown of pkg/httpsrv/portal_audit_aggregations.go).
use api_test.Prelude.{
  ℕ, zero, suc, ◌+◌, Bool, true, false, List, [], ◌∷◌, ◌++◌, Option, none, some, ltb, leb, ◌==◌,
  if◌then◌else◌, take, length,
}
use api_test.Prelude.Int.{ℤ, pos, negsuc}
use api_test.Prelude.Result.{Result, ok, err}
use api_test.Std.Text.{Text, text, str_eq, is_empty}
use api_test.Std.Strconv.{itoa, atoi}
use api_test.Std.Sort.{sort_by}
use api_test.Std.Float.{Float64}
use api_test.Std.Http.{Table, lookup, insert, values_get, Response, write_json, write_error}
use api_test.Audit.Event.{Event}
use api_test.Audit.Memory.{text_lt}
use api_test.Reports.Filter.{AuditLog, Window, parse_query_filter, window_of}
use api_test.Reports.Aggregate.{Counts, no_counts, bump, average}
pub mod Grouped
pub mod Ranked
pub mod Ordered
pub mod Shown

or_name : Text → Text → Text
or_name instead v = if is_empty v then instead else v

user_key : Event → Text
user_key ev =
    if is_empty ev.user_email
    then if is_empty ev.user_subject
      then if is_empty ev.api_key_name then text "(anonymous)" else text "key:" ++ ev.api_key_name
      else ev.user_subject
    else ev.user_email

unfoldable pub breakdown_key_fn : Text → Option (Event → Text)
unfolding str_eq itoa or_name user_key
breakdown_key_fn dimension =
    if str_eq dimension (text "endpoint_group")
    then some (λ (ev : Event). or_name (text "(unknown)") ev.endpoint_group)
    else if str_eq dimension (text "route_name")
    then some (λ (ev : Event). or_name (text "(unknown)") ev.route_name)
    else if str_eq dimension (text "status")
    then some (λ (ev : Event). itoa ev.status)
    else if str_eq dimension (text "auth_type")
    then some (λ (ev : Event). or_name (text "(unauthenticated)") ev.auth_type)
    else if str_eq dimension (text "user")
    then some user_key
    else none

counts_or_none : Option Counts → Counts
counts_or_none none = no_counts
counts_or_none (some a) = a

-- One event into the table of groups.
unfoldable pub tally : Text → Event → Table Counts → Table Counts
unfolding counts_or_none bump lookup insert
tally k ev groups = insert k (bump ev (counts_or_none (lookup k groups))) groups

unfoldable pub group_by : (Event → Text) → List Event → Table Counts → Table Counts
unfolding tally
group_by key_of [] groups = groups
group_by key_of (ev ∷ events) groups = group_by key_of events (tally (key_of ev) ev groups)

-- More events first, and by key where the counts are equal.
unfoldable pub ranks_before : Text × Counts → Text × Counts → Bool
unfolding text_lt
ranks_before (j, a) (k, b) = if a.count == b.count then text_lt j k else ltb b.count a.count

-- sort.Slice by that order
unfoldable pub rank : Table Counts → Table Counts
unfolding sort_by ranks_before
rank groups = sort_by ranks_before groups

clamp_top : ℤ → ℕ
clamp_top (negsuc n) = 20
clamp_top (pos zero) = 20
clamp_top (pos (suc n)) = if leb (suc n) 200 then suc n else 20

unfoldable pub top_of : Table (List Text) → ℕ
unfolding values_get atoi clamp_top
top_of q = clamp_top (atoi (values_get q (text "top"))).0

unfoldable pub dimension_of : Table (List Text) → Text
unfolding values_get or_name
dimension_of q = or_name (text "endpoint_group") (values_get q (text "dimension"))

module _ (F : Float64) where
  open F use {Float}

  pub record Group : Type 0 where
    pub key : Text
    pub count : ℕ
    pub errors : ℕ
    pub avg_duration_ms : Float

  pub record Breakdown : Type 0 where
    pub from : ℕ
    pub to : ℕ
    pub dimension : Text
    pub groups : List Group

  unfoldable pub groups_out : Table Counts → List Group
  unfolding average
  groups_out [] = []
  groups_out ((k, a) ∷ rest) =
      record { key = k; count = a.count; errors = a.errors; avg_duration_ms = average F a }
      ∷ groups_out rest

  -- `grouped` lists the entries of the map in the order in which Go visits them.
  unfoldable pub breakdown_of :
      (Table Counts → Table Counts)
      → Window
      → Text
      → (Event → Text)
      → ℕ
      → Result Text (List Event)
      → Response Breakdown
  unfolding group_by rank groups_out
  breakdown_of visit w dimension key_of top (err e) = write_error 500 e
  breakdown_of visit w dimension key_of top (ok events) = write_json 200 (record {
    from = w.from;
    to = w.to;
    dimension = dimension;
    groups = groups_out (take top (rank (visit (group_by key_of events []))));
  })

  unknown_dimension : (Text → Text) → Text → Text
  unknown_dimension quote dimension =
      text "unknown dimension "
      ++ (quote dimension ++ text "; valid: endpoint_group, route_name, status, auth_type, user")

  -- `visit` is the order in which Go ranges over a map, and `quote` the verb %q.
  module _ (parse_time : Text → Option ℕ) (quote : Text → Text)
      (visit : Table Counts → Table Counts) (log : AuditLog) (now : ℕ) (q : Table (List Text)) where
    unfoldable pub breakdown_by : Option (Event → Text) → Response Breakdown
    unfolding parse_query_filter window_of dimension_of top_of breakdown_of unknown_dimension
    breakdown_by none = write_error 400 (unknown_dimension quote (dimension_of q))
    breakdown_by (some key_of) =
        let w = window_of now (parse_query_filter parse_time q) in
        breakdown_of visit w (dimension_of q) key_of (top_of q) (log.run_query w.filter)

    unfoldable pub audit_breakdown : Response Breakdown
    unfolding breakdown_by breakdown_key_fn dimension_of
    audit_breakdown = breakdown_by (breakdown_key_fn (dimension_of q))

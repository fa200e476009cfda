-- ===== src/Reports/Filter.antt =====
-- The filter that a request asks for (parseQueryFilter of pkg/httpsrv/portal_api.go), the window and
-- the width of a bucket (timeWindow and bucketSeconds of portal_audit_aggregations.go), and the
-- logger as the portal calls it (pkg/audit/logger.go).
use api_test.Prelude.{
  ℕ, zero, suc, ◌-◌, ◌*◌, ◌≡◌, refl, Bool, true, false, List, [], Option, none, some, ltb,
  if◌then◌else◌,
}
use api_test.Prelude.Int.{ℤ, pos, negsuc}
use api_test.Prelude.Result.{Result, ok}
use api_test.Std.Text.{Text, text, str_eq, is_empty}
use api_test.Std.Strconv.{atoi}
use api_test.Std.Http.{Table, values_get}
use api_test.Audit.Event.{Event, Payload}
use api_test.Audit.Memory.{QueryFilter, max_query_limit, query, count, get_payload}

-- audit.Logger, with the lookup of a PayloadLogger where the logger is one.
pub record AuditLog : Type 0 where
  pub run_query : QueryFilter → Result Text (List Event)
  pub run_count : QueryFilter → Result Text ℕ
  pub payload_of : Option (Text → Result Text (Option Payload))

-- The logger that holds its events in memory.
unfoldable pub memory_log : List Event → AuditLog
unfolding query count get_payload
memory_log events = record {
  run_query = λ f. ok (query f events);
  run_count = λ f. ok (count f events);
  payload_of = some (λ id. ok (get_payload id events));
}

pub memory_query :
    (f : QueryFilter) (events : List Event) → (memory_log events).run_query f ≡ ok (query f events)
unfolding memory_log
memory_query f events = refl

-- time.Time as the filter reads it: nanoseconds from an instant two days before year 0, which no
-- time that the service parses, less an hour, comes before; `none` is the zero time.
pub record Window : Type 0 where
  pub filter : QueryFilter
  pub from : ℕ
  pub to : ℕ

abbrev pub second : ℕ
second = 1000000000

abbrev pub hour : ℕ
hour = 3600 * second

int_or_zero : ℤ × Bool → ℤ
int_or_zero (n, true) = n
int_or_zero (n, false) = pos 0

positive_or_zero : ℤ → ℤ
positive_or_zero (pos n) = pos n
positive_or_zero (negsuc n) = pos 0

success_of : Text → Option Bool
success_of v =
    if str_eq v (text "true")
    then some true
    else if str_eq v (text "false")
    then some false
    else none

module _ (parse_time : Text → Option ℕ) where
  time_or_zero : Text → Option ℕ
  time_or_zero v = if is_empty v then none else parse_time v

  unfoldable pub parse_query_filter : Table (List Text) → QueryFilter
  unfolding values_get atoi int_or_zero positive_or_zero success_of time_or_zero
  parse_query_filter q = record {
    from = time_or_zero (values_get q (text "from"));
    to = time_or_zero (values_get q (text "to"));
    method = values_get q (text "method");
    path = values_get q (text "path");
    route_name = values_get q (text "route_name");
    user_id = values_get q (text "user");
    session_id = values_get q (text "session");
    event_id = [];
    status = int_or_zero (atoi (values_get q (text "status")));
    success = success_of (values_get q (text "success"));
    search = values_get q (text "q");
    limit = positive_or_zero (atoi (values_get q (text "limit"))).0;
    offset = positive_or_zero (atoi (values_get q (text "offset"))).0;
  }

or_else : Option ℕ → ℕ → ℕ
or_else none t = t
or_else (some t) _ = t

-- The window of a filter: up to now and for an hour where it sets no bounds, and turned round where
-- its start lies after its end. The filter asks for as many events as one query may return.
unfoldable pub window_of : ℕ → QueryFilter → Window
unfolding or_else
window_of now f =
    let to = or_else f.to now in
    let from = or_else f.from (to - hour) in
    let start = if ltb to from then to else from in
    let end = if ltb to from then from else to in
    record {
      filter = record f {
        from = some start;
        to = some end;
        limit = pos max_query_limit;
        offset = pos 0;
      };
      from = start;
      to = end;
    }

unfoldable pub clamp_bucket : ℤ → ℕ
clamp_bucket (negsuc n) = 60
clamp_bucket (pos zero) = 60
clamp_bucket (pos (suc n)) = if ltb 3600 (suc n) then 3600 else suc n

unfoldable pub bucket_seconds : Table (List Text) → ℕ
unfolding values_get atoi clamp_bucket
bucket_seconds q = clamp_bucket (atoi (values_get q (text "bucket_seconds"))).0

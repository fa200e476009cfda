-- ===== src/Audit/Tests.antt =====
-- Requests, responses and runs at which the theorems on the audit trail apply.
use api_test.Prelude.{
  arith, ℕ, ◌≡◌, ◌≢◌, ◌++◌, refl, true, false, List, [], ◌∷◌, none, some, length,
}
use api_test.Prelude.Int.{pos}
use api_test.Std.Text.{Text, text, str_eq, contains, to_lower}
use api_test.Std.Http.{Request, Table}
use api_test.Audit.Capture.{Call, write_header, write, Writer}
use api_test.Audit.Recorded.{written, passed, final_status}
use api_test.Audit.Redact.{matches_redact_key, sanitize_headers, sanitize_query}
use api_test.Audit.Hidden.{none_left, kept, hidden, sanitize_hides}
use api_test.Audit.Memory.{
  QueryFilter, matches_filter, match_all, filter_events, sort_events, insert_event, comes_before,
  count,
}
use api_test.Audit.Queried.{pages, query_pages}
use api_test.Audit.Event.{
  Event, new_event, Payload, AuditOptions, with_defaults, Context, Run, audit,
}
use api_test.Audit.Audited.{audit_passes, audited_bodies}
use api_test.Audit.Queue.{running, returned, AsyncLogger, new_async_logger, log, logs, done, step}
use api_test.Audit.Drained.{IsAccounted, new_async_logger-IsAccounted}
use api_test.Audit.Shutdown.{can_drain, close_drains, lost_after_close}

abbrev entry : Text → ℕ → Event
entry id timestamp = record (new_event timestamp (text "GET") (text "/v1/sized")) { id = id }

abbrev entries : List Event
entries = entry (text "a") 1 ∷ entry (text "b") 3 ∷ entry (text "c") 2 ∷ []

abbrev any_event : QueryFilter
any_event = record {
  from = some 2;
  to = none;
  method = text "GET";
  path = [];
  route_name = [];
  user_id = [];
  session_id = [];
  event_id = [];
  status = pos 0;
  success = none;
  search = [];
  limit = pos 0;
  offset = pos 0;
}

two_match : count any_event entries ≡ 2
unfolding count match_all filter_events sort_events insert_event comes_before matches_filter str_eq
    new_event
two_match = refl

query_pages_example : pages any_event entries 1 2 ≡ match_all any_event entries
query_pages_example =
    query_pages any_event entries 1 2 (omega arith) (omega arith) (rw two_match (omega arith))

-- A client that takes all it is given.
abbrev takes_all : Writer
takes_all before b = (length b, false)

abbrev chunks : List Text
chunks = text "hel" ∷ [] ∷ text "lo" ∷ []

abbrev answer : List Call
answer = write_header 404 ∷ write (text "not ") ∷ write_header 500 ∷ write (text "found") ∷ []

abbrev keys : List Text
keys = text "key" ∷ []

abbrev header : Text → Table (List Text)
header secret = (text "X-Api-Key", secret ∷ []) ∷ (text "Accept", text "*/*" ∷ []) ∷ []

api_key-matches : matches_redact_key (text "X-Api-Key") keys ≡ true
unfolding matches_redact_key contains to_lower
api_key-matches = refl

sanitize_hides_example :
    (sanitize_headers (header (text "one")) keys ≡ sanitize_headers (header (text "two")) keys)
    × (sanitize_query [] keys ≡ sanitize_query [] keys)
sanitize_hides_example =
    sanitize_hides keys (header (text "one")) (header (text "two")) [] []
      (hidden (text "X-Api-Key") (text "one" ∷ []) (text "two" ∷ []) api_key-matches
        (kept (text "Accept") (text "*/*" ∷ []) none_left))
      none_left

abbrev options : AuditOptions
options = record {
  capture_payloads = true;
  capture_headers = true;
  max_payload_bytes = pos 4;
  redact_keys = keys;
}

abbrev context : Context
context = record {
  request_id = text "r1";
  remote_addr = text "127.0.0.1";
  user_agent = text "curl";
  identity = none;
  route_for = none;
  has_body = true;
  start = 0;
  elapsed_ms = 3;
}

abbrev request : Request
request = record {
  method = text "POST";
  path = text "/v1/echo";
  host = text "h";
  tls = false;
  header = header (text "one");
  query = [];
}

abbrev handled : Run
handled = record { reads = chunks; calls = answer; headers = [] }

audit_passes_example :
    ((audit takes_all options context request handled).1 ≡ passed answer)
    × ((audit takes_all options context request handled).0.status ≡ 404)
    × ((audit takes_all options context request handled).0.success ≡ false)
unfolding final_status
audit_passes_example = audit_passes takes_all options context request handled

options-capped : (with_defaults options).max_payload_bytes ≡ pos 4
unfolding with_defaults
options-capped = refl

audited_bodies_example :
    (p : Payload) × ((audit takes_all options context request handled).0.payload ≡ some p)
    × (p.request_body ≡ text "hell")
    × (p.request_truncated ≡ true)
    × (p.response_body ≡ text "not ")
    × (p.response_truncated ≡ true)
    × ((audit takes_all options context request handled).0.bytes_in ≡ pos 4)
unfolding written
audited_bodies_example =
    audited_bodies takes_all options context request handled 4 refl refl options-capped

-- Two events logged in a queue of one: the second is dropped.
abbrev queued : AsyncLogger ℕ
queued = log 1 8 (log 1 7 new_async_logger)

new_async_logger-IsAccounted_example : IsAccounted 1 (7 ∷ 8 ∷ []) queued
new_async_logger-IsAccounted_example =
    new_async_logger-IsAccounted 1 (7 ∷ 8 ∷ []) queued (step (logs 7) (step (logs 8) (done queued)))

abbrev busy : AsyncLogger ℕ
busy = record { ch = 7 ∷ 8 ∷ []; inner = 6 ∷ []; stop = false; dropped = 0; worker = running }

abbrev shut : AsyncLogger ℕ
shut = record { ch = []; inner = 6 ∷ 7 ∷ 8 ∷ []; stop = true; dropped = 0; worker = returned }

still_running : running ≢ returned
still_running e = cc

close_drains_example : (more : List ℕ) × (shut.inner ≡ (busy.inner ++ busy.ch) ++ more)
close_drains_example = close_drains 4 [] (can_drain 4 busy refl) still_running refl

lost_after_close_example :
    ((log 4 9 shut).worker ≡ returned) × ((log 4 9 shut).inner ≡ 6 ∷ 7 ∷ 8 ∷ [])
lost_after_close_example = lost_after_close 4 (9 ∷ []) (step (logs 9) (done (log 4 9 shut))) refl

-- ===== src/Audit/Event.antt =====
-- Audit events (pkg/audit/event.go) and the middleware that records one for each request
-- (pkg/httpmw/audit.go).
use api_test.Prelude.{
  ℕ, zero, Bool, false, ◌&&◌, List, [], Option, none, some, ltb, leb, length, if◌then◌else◌,
}
use api_test.Prelude.Int.{ℤ, pos}
use api_test.Std.Text.{Text, text}
use api_test.Std.Http.{Request, Table, header_get}
use api_test.Inbound.Types.{Identity}
use api_test.Audit.Capture.{
  Call, Writer, AuditRecorder, new_audit_recorder, audit_run, CapWriter, new_cap_writer, tee_reads,
}
use api_test.Audit.Redact.{sanitize_headers, sanitize_query}

pub record Payload : Type 0 where
  pub request_headers : Table (List Text)
  pub request_query : Table (List Text)
  pub request_content_type : Text
  pub request_body : Text
  pub request_size_bytes : ℕ
  pub request_truncated : Bool
  pub request_remote_addr : Text
  pub response_headers : Table (List Text)
  pub response_content_type : Text
  pub response_body : Text
  pub response_size_bytes : ℤ
  pub response_truncated : Bool
  pub replayed_from : Text

pub record Event : Type 0 where
  pub id : Text
  pub timestamp : ℕ
  pub duration_ms : ℕ
  pub request_id : Text
  pub session_id : Text
  pub user_subject : Text
  pub user_email : Text
  pub auth_type : Text
  pub api_key_name : Text
  pub method : Text
  pub path : Text
  pub route_name : Text
  pub endpoint_group : Text
  pub status : ℕ
  pub bytes_in : ℤ
  pub bytes_out : ℤ
  pub success : Bool
  pub error_message : Text
  pub error_category : Text
  pub remote_addr : Text
  pub user_agent : Text
  pub payload : Option Payload

-- `now` is the clock's reading.
unfoldable pub new_event : ℕ → Text → Text → Event
new_event now method path = record {
  id = [];
  timestamp = now;
  duration_ms = 0;
  request_id = [];
  session_id = [];
  user_subject = [];
  user_email = [];
  auth_type = [];
  api_key_name = [];
  method = method;
  path = path;
  route_name = [];
  endpoint_group = [];
  status = 0;
  bytes_in = pos 0;
  bytes_out = pos 0;
  success = false;
  error_message = [];
  error_category = [];
  remote_addr = [];
  user_agent = [];
  payload = none;
}

pub record AuditOptions : Type 0 where
  pub capture_payloads : Bool
  pub capture_headers : Bool
  pub max_payload_bytes : ℤ
  pub redact_keys : List Text

cap_or_default : ℤ → ℤ
cap_or_default (pos zero) = pos 1048576
cap_or_default n = n

unfoldable pub with_defaults : AuditOptions → AuditOptions
unfolding cap_or_default
with_defaults o = record o { max_payload_bytes = cap_or_default o.max_payload_bytes }

-- What the middleware reads of a request besides its method, path and headers. `route_for` is the
-- registry's lookup, which gives the group and the name.
pub record Context : Type 0 where
  pub request_id : Text
  pub remote_addr : Text
  pub user_agent : Text
  pub identity : Option Identity
  pub route_for : Option (Text → Text → Text × Text)
  pub has_body : Bool
  pub start : ℕ
  pub elapsed_ms : ℕ

-- What a handler does with a request: the reads of its body, with what they return, the calls of
-- its writer, and the response headers it leaves.
pub record Run : Type 0 where
  pub reads : List Text
  pub calls : List Call
  pub headers : Table (List Text)

unfoldable pub with_identity : Option Identity → Event → Event
with_identity none ev = ev
with_identity (some id) ev = record ev {
  user_subject = id.subject;
  user_email = id.email;
  auth_type = id.auth_type;
  api_key_name = id.key_name;
}

unfoldable pub with_route : Option (Text → Text → Text × Text) → Request → Event → Event
with_route none r ev = ev
with_route (some route_for) r ev =
    let (group, name) = route_for r.method r.path in
    record ev { endpoint_group = group; route_name = name }

-- The copy of the request's body, when the handler is done.
unfoldable pub request_capture : AuditOptions → Bool → List Text → CapWriter
unfolding new_cap_writer tee_reads
request_capture o has_body reads =
    if has_body && o.capture_payloads
    then tee_reads reads (new_cap_writer o.max_payload_bytes)
    else new_cap_writer o.max_payload_bytes

unfoldable pub with_outcome : AuditOptions → ℕ → CapWriter → AuditRecorder → Event → Event
with_outcome o elapsed_ms body rec ev = record ev {
  status = rec.status;
  bytes_in = if body.oversize then o.max_payload_bytes else pos (length body.buf);
  bytes_out = rec.bytes_total;
  duration_ms = elapsed_ms;
  success = leb 200 rec.status && ltb rec.status 400;
}

unfoldable pub with_payload :
    AuditOptions → Request → Context → CapWriter → AuditRecorder → Run → Event → Event
unfolding sanitize_headers sanitize_query header_get
with_payload o r c body rec run ev =
    if o.capture_payloads
    then record ev {
      payload = some (record {
        request_headers = if o.capture_headers then sanitize_headers r.header o.redact_keys else [];
        request_query = if o.capture_headers then sanitize_query r.query o.redact_keys else [];
        request_content_type = header_get r.header (text "Content-Type");
        request_body = body.buf;
        request_size_bytes = length body.buf;
        request_truncated = body.oversize;
        request_remote_addr = c.remote_addr;
        response_headers =
            if o.capture_headers then sanitize_headers run.headers o.redact_keys else [];
        response_content_type = header_get run.headers (text "Content-Type");
        response_body = rec.body;
        response_size_bytes = rec.bytes_total;
        response_truncated = rec.truncated;
        replayed_from = header_get r.header (text "X-Plexara-Replay-From");
      });
    }
    else ev

-- The event that is logged, and the calls that the client's writer gets. A logger that fails
-- changes neither.
unfoldable pub audit : Writer → AuditOptions → Context → Request → Run → Event × List Call
unfolding with_defaults new_event with_identity with_route request_capture new_audit_recorder
    audit_run with_outcome with_payload
audit inner options c r run =
    let o = with_defaults options in
    let ev0 = record (new_event c.start r.method r.path) {
      request_id = c.request_id;
      remote_addr = c.remote_addr;
      user_agent = c.user_agent;
    } in
    let ev = with_route c.route_for r (with_identity c.identity ev0) in
    let body = request_capture o c.has_body run.reads in
    let rec =
      audit_run inner run.calls (new_audit_recorder o.max_payload_bytes o.capture_payloads) in
    (with_payload o r c body rec run (with_outcome o c.elapsed_ms body rec ev), rec.calls)

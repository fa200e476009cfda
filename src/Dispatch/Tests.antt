-- ===== src/Dispatch/Tests.antt =====
-- A library, events and requests at which the theorems on the requests of the portal apply.
use api_test.Prelude.{
  ◌≡◌, ◌≢◌, ◌≤◌, ◌⊎◌, refl, sym, true, false, List, [], ◌∷◌, none, some, length, take,
}
use api_test.Prelude.Int.{pos}
use api_test.Prelude.Result.{Result, ok, err}
use api_test.Std.Text.{Text, text, str_eq, to_lower, equal_fold, has_prefix, contains, split}
use api_test.Std.Http.{Table, lookup, insert, canonical_key, header_get}
use api_test.Inbound.Oidc.{PortalIdentity}
use api_test.Inbound.Chain.{Chain}
use api_test.Middleware.Identity.{has_inbound_credential, admit, admission}
use api_test.Audit.Capture.{
  Call, write, Writer, write_header, new_cap_writer, new_audit_recorder, audit_run,
}
use api_test.Audit.Event.{
  Event, Payload, AuditOptions, Context, Run, new_event, audit, with_payload, with_defaults,
  with_identity, with_route, request_capture, with_outcome,
}
use api_test.Audit.Redact.{sanitize_headers, sanitize_query, matches_redact_key, redact_where}
use api_test.Routing.Registry.{EndpointMeta}
use api_test.Dispatch.Sent.{Sent, inbound_identity, add_values, header_add, header_set}
use api_test.Dispatch.Replay.{
  replay_marker, replay_request, rebuilt, replay_query, replay_headers,
  is_redacted_credential_header, is_redacted_credential_query, marked_headers, with_content_type,
  refuse_with, unless_none, checked, is_nil,
}
use api_test.Dispatch.Replay as R
use api_test.Dispatch.TryIt.{TryItRequest, try_request, try_it_marker, dispatched, unless_refused}
use api_test.Dispatch.TryIt as T
use api_test.Dispatch.Substitute.{
  substitute_path_params, replace_all, unless_missing, placeholder, unless_empty, until_brace, fill,
  path_escape, escape_byte,
}
use api_test.Dispatch.Substituted.{same_segments}
use api_test.Dispatch.Captured.{new_cap_response, cap_run}
use api_test.Dispatch.Buffered.{sent_bytes, sent_status, cap_run_lem}
use api_test.Dispatch.Operator.{replay_operator}
use api_test.Dispatch.Guarded.{replay_once}
use api_test.Dispatch.Asked.{names}
use api_test.Dispatch.Admitted.{try_it_operator}

-- A parser that takes a path as it is.
abbrev plain_url : Text → Result Text (Text × Table (List Text))
plain_url p = ok (p, [])

abbrev library : R.Library
library = record {
  parse_uuid = λ s. some s;
  parse_url = plain_url;
  check_request = λ method path. none;
  quote = λ s. s;
}

abbrev operator : PortalIdentity
operator = record {
  subject = text "ann";
  email = [];
  name = [];
  auth_type = [];
  claims = none;
  api_key_id = [];
}

abbrev recorded_event : Event
recorded_event = new_event 0 (text "GET") (text "/v1/whoami")

abbrev recorded_payload : Payload
recorded_payload = record {
  request_headers =
      (text "X-Api-Key", text "[redacted]" ∷ []) ∷ (text "Accept", text "*/*" ∷ []) ∷ [];
  request_query = (text "api_key", text "[redacted]" ∷ []) ∷ (text "v", text "1" ∷ []) ∷ [];
  request_content_type = [];
  request_body = [];
  request_size_bytes = 0;
  request_truncated = false;
  request_remote_addr = [];
  response_headers = [];
  response_content_type = [];
  response_body = [];
  response_size_bytes = pos 0;
  response_truncated = false;
  replayed_from = [];
}

abbrev chain : Chain
chain = record { authenticators = []; allow_anonymous = false }

abbrev again : Sent
again =
    rebuilt (some operator) (text "e1") recorded_event recorded_payload (text "/v1/whoami", [])
      ((text "Accept", text "*/*" ∷ []) ∷ [])

again_sent :
    replay_request library (some operator) (text "e1") recorded_event recorded_payload ≡ ok again
unfolding replay_request refuse_with unless_none checked replay_headers
    is_redacted_credential_header equal_fold to_lower str_eq header_add add_values canonical_key
    new_event
again_sent = refl

ok-query : (u url : Text × Table (List Text)) → plain_url u.0 ≡ ok url → [] ≡ url.1
ok-query u url e = cc

plain_url_lem :
    (p : Text) (url : Text × Table (List Text))
    → contains p (text "?") ≡ false
    → plain_url p ≡ ok url
    → url.1 ≡ []
plain_url_lem p url plain parsed = sym (ok-query (p, []) url parsed)

event_path : contains recorded_event.path (text "?") ≡ false
unfolding contains has_prefix new_event
event_path = refl

replay_operator_example :
    (has_inbound_credential again.request ≡ false)
    × (admission chain again.identity again.request ≡ admit (inbound_identity operator))
    × (header_get again.request.header replay_marker ≡ text "e1")
replay_operator_example =
    replay_operator library operator (text "e1") recorded_event recorded_payload again chain
      plain_url_lem event_path again_sent

abbrev takes_all : Writer
takes_all before b = (length b, false)

abbrev options : AuditOptions
options = record {
  capture_payloads = true;
  capture_headers = true;
  max_payload_bytes = pos 4;
  redact_keys = text "key" ∷ [];
}

abbrev context : Context
context = record {
  request_id = text "r1";
  remote_addr = [];
  user_agent = [];
  identity = none;
  route_for = none;
  has_body = false;
  start = 0;
  elapsed_ms = 3;
}

abbrev handled : Run
handled = record { reads = []; calls = write_header 404 ∷ []; headers = [] }

abbrev replayed_payload : Payload
replayed_payload = record recorded_payload {
  request_headers = (text "Accept", text "*/*" ∷ []) ∷ (replay_marker, text "e1" ∷ []) ∷ [];
  request_query = (text "v", text "1" ∷ []) ∷ [];
  replayed_from = text "e1";
}

replay_recorded :
    (audit takes_all options context again.request handled).0.payload ≡ some replayed_payload
unfolding audit with_payload with_defaults new_event with_identity with_route request_capture
    new_audit_recorder audit_run with_outcome new_cap_writer sanitize_headers sanitize_query
    matches_redact_key redact_where contains has_prefix to_lower str_eq rebuilt marked_headers
    with_content_type header_set header_get insert lookup canonical_key replay_query add_values
    is_nil is_redacted_credential_query equal_fold
replay_recorded = refl

replay_once_example :
    (replayed_payload.replayed_from ≡ text "e1")
    × (replay_request library none (text "e2") recorded_event replayed_payload ≢ ok again)
replay_once_example =
    replay_once library (some operator) (text "e1") recorded_event recorded_payload again takes_all
      options context handled replayed_payload none (text "e2") recorded_event again again_sent refl
      replay_recorded

abbrev user_path : Text
user_path = text "/v1/users/{id}"

abbrev tricky : Table Text
tricky = (text "id", text "a?b c") ∷ []

tricky_path : substitute_path_params user_path tricky ≡ ok (text "/v1/users/a%3Fb%20c")
unfolding substitute_path_params replace_all unless_missing placeholder unless_empty until_brace
    fill path_escape escape_byte contains has_prefix lookup str_eq
tricky_path = refl

user_path_plain : contains user_path (text "?") ≡ false
unfolding contains has_prefix
user_path_plain = refl

same_segments_example :
    (length (split b'/' (text "/v1/users/a%3Fb%20c")) ≡ length (split b'/' user_path))
    × (contains (text "/v1/users/a%3Fb%20c") (text "?") ≡ false)
same_segments_example =
    same_segments user_path tricky (text "/v1/users/a%3Fb%20c") user_path_plain tricky_path

abbrev printing_library : T.Library
printing_library = record {
  parse_url = plain_url;
  print_url = λ url. url.0;
  check_request = λ method path. none;
  decode = λ limit body. err (text "EOF");
}

abbrev user_route : EndpointMeta
user_route = record {
  name = text "user";
  group = text "data";
  method = text "GET";
  path = user_path;
}

abbrev asked : TryItRequest
asked = record {
  method = [];
  path_params = tricky;
  query_params = (text "v", text "1" ∷ []) ∷ [];
  headers = (text "authorization", text "Bearer x" ∷ []) ∷ (text "accept", text "*/*" ∷ []) ∷ [];
  body = [];
}

abbrev outgoing : Sent
outgoing = dispatched (some operator) user_route asked (text "/v1/users/a%3Fb%20c", [])

asked_done : try_request printing_library (some operator) user_route asked ≡ ok outgoing
unfolding try_request refuse_with unless_refused substitute_path_params replace_all unless_missing
    placeholder unless_empty until_brace fill path_escape escape_byte contains has_prefix lookup
    str_eq
asked_done = refl

no_key :
    (names canonical_key (text "X-Api-Key") asked.headers ≡ false)
    × (names (λ k. k) (text "api_key") asked.query_params ≡ false)
unfolding names canonical_key str_eq
no_key = (refl, refl)

try_it_operator_example :
    (lookup (text "Authorization") outgoing.request.header ≡ none)
    × (lookup (text "Cookie") outgoing.request.header ≡ none)
    × (header_get outgoing.request.header try_it_marker ≡ text "true")
    × (admission chain outgoing.identity outgoing.request ≡ admit (inbound_identity operator))
try_it_operator_example =
    try_it_operator printing_library operator user_route asked outgoing chain plain_url_lem
      user_path_plain no_key.0 no_key.1 asked_done

abbrev two_calls : List Call
two_calls = write (text "abc") ∷ write_header 500 ∷ write (text "de") ∷ []

cap_run_lem_example :
    ((cap_run two_calls (new_cap_response 4)).status ≡ sent_status two_calls)
    × ((cap_run two_calls (new_cap_response 4)).body ≡ take 4 (sent_bytes two_calls))
    × (((cap_run two_calls (new_cap_response 4)).truncated ≡ true)
          × (4 ≤ length (sent_bytes two_calls))
        ⊎ ((cap_run two_calls (new_cap_response 4)).truncated ≡ false)
          × (length (sent_bytes two_calls) ≤ 4))
cap_run_lem_example = cap_run_lem 4 two_calls

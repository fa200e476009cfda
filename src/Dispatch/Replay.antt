-- ===== src/Dispatch/Replay.antt =====
-- The replay of a recorded request (auditReplay of pkg/httpsrv/portal_audit_replay.go).
use api_test.Prelude.{
  ℕ, Bool, true, false, not, ◌&&◌, ◌||◌, List, [], ◌∷◌, ◌++◌, Option, none, some, if◌then◌else◌,
}
use api_test.Prelude.Int.{pos}
use api_test.Prelude.Result.{Result, ok, err, ◌>>=◌, ◌>>◌, ensure}
use api_test.Std.Text.{Text, text, is_empty, str_eq, to_lower, equal_fold, has_prefix}
use api_test.Std.Http.{Table, Response, write_json, write_error, header_get}
use api_test.Inbound.Oidc.{PortalIdentity}
use api_test.Audit.Event.{Event, Payload}
use api_test.Audit.Memory.{QueryFilter}
use api_test.Dispatch.Captured.{new_cap_response, cap_run}
use api_test.Dispatch.Sent.{
  Sent, Target, max_body_bytes, portal_identity_to_inbound, add_values, header_add, header_set,
  cut_body, Refusal, answer,
}
use api_test.Reports.Filter.{AuditLog}

abbrev pub replay_marker : Text
replay_marker = text "X-Plexara-Replay-From"

unfoldable pub is_redacted_credential_header : Text → Bool
unfolding to_lower str_eq
is_redacted_credential_header name =
    str_eq (to_lower name) (text "authorization")
    || str_eq (to_lower name) (text "x-api-key")
    || str_eq (to_lower name) (text "cookie")

unfoldable pub is_redacted_credential_query : Text → Bool
unfolding equal_fold
is_redacted_credential_query name = equal_fold name (text "api_key")

-- The loop over the recorded query.
unfoldable pub replay_query : Table (List Text) → Table (List Text) → Table (List Text)
unfolding is_redacted_credential_query add_values
replay_query [] out = out
replay_query ((k, vs) ∷ q) out =
    replay_query q (if is_redacted_credential_query k then out else add_values k vs out)

-- The loop over the recorded headers; `none` where it meets the marker.
unfoldable pub replay_headers : Table (List Text) → Table (List Text) → Option (Table (List Text))
unfolding is_redacted_credential_header equal_fold header_add
replay_headers [] out = some out
replay_headers ((k, vs) ∷ h) out =
    let rest =
      replay_headers h (if is_redacted_credential_header k then out else header_add k vs out) in
    if equal_fold k replay_marker then none else rest

unfoldable pub with_content_type : Text → Table (List Text) → Table (List Text)
unfolding header_get header_set
with_content_type recorded h =
    if not (is_empty recorded) && is_empty (header_get h (text "Content-Type"))
    then header_set (text "Content-Type") recorded h
    else h

-- The headers of the replay: the recorded ones without credentials, the marker, and the content
-- type.
unfoldable pub marked_headers : Text → Text → Table (List Text) → Table (List Text)
unfolding header_set with_content_type
marked_headers id content_type copied =
    with_content_type content_type (header_set replay_marker id copied)

unfoldable pub is_nil {ℓ} : {A : Type ℓ} → List A → Bool
is_nil [] = true
is_nil (_ ∷ _) = false

abbrev pub event_filter : Text → QueryFilter
event_filter id = record {
  from = none;
  to = none;
  method = [];
  path = [];
  route_name = [];
  user_id = [];
  session_id = [];
  event_id = id;
  status = pos 0;
  success = none;
  search = [];
  limit = pos 1;
  offset = pos 0;
}

-- The library's part: uuid.Parse with its canonical form; url.Parse, which gives a path and a query;
-- and the check of NewRequest, which gives an error where it fails; and the verb %q.
pub record Library : Type 0 where
  pub parse_uuid : Text → Option Text
  pub parse_url : Text → Result Text (Text × Table (List Text))
  pub check_request : Text → Text → Option Text
  pub quote : Text → Text

unfoldable pub unless_none {ℓ} : {A : Type ℓ} → Refusal → Option A → Result Refusal A
unless_none refusal none = err refusal
unless_none refusal (some a) = ok a

unfoldable pub refuse_with {ℓ} : {A : Type ℓ} → ℕ → Text → Result Text A → Result Refusal A
refuse_with status prefix (ok a) = ok a
refuse_with status prefix (err e) = err (status, prefix ++ e)

first_event : Refusal → List Event → Result Refusal Event
first_event refusal [] = err refusal
first_event refusal (ev ∷ events) = ok ev

unfoldable pub checked : Option Text → Result Refusal (Unit {0})
checked none = ok tt
checked (some e) = err (500, text "construct replay request: " ++ e)

abbrev pub replayed_before : Refusal
replayed_before = (
  400,
  text "captured request already carries the replay marker "
      ++ (226 ∷ 128 ∷ 148 ∷ text " refusing to replay a replay"),
)

-- The request for the parsed path and the copied headers.
unfoldable pub rebuilt :
    Option PortalIdentity
    → Text
    → Event
    → Payload
    → Text × Table (List Text)
    → Table (List Text)
    → Sent
unfolding is_nil replay_query marked_headers portal_identity_to_inbound
rebuilt portal id ev payload url copied = record {
  request = record {
    method = ev.method;
    path = url.0;
    host = [];
    tls = false;
    header = marked_headers id payload.request_content_type copied;
    query = if is_nil payload.request_query then url.1 else replay_query payload.request_query [];
  };
  identity = portal_identity_to_inbound portal;
  body = cut_body payload.request_body;
}

module _ (lib : Library) where
  -- The event and its payload, for the path value of the request.
  unfoldable pub recorded : AuditLog → Text → Result Refusal (Text × Event × Payload)
  unfolding unless_none refuse_with first_event has_prefix
  recorded log raw_id = do
    id ← unless_none (400, text "event id is not a valid uuid") (lib.parse_uuid raw_id)
    events ← refuse_with 500 [] (log.run_query (event_filter id))
    ev ← first_event (404, text "event " ++ (lib.quote id ++ text " not found")) events
    ensure (has_prefix ev.path (text "/v1/")) (
      400,
      text "path "
          ++ (lib.quote ev.path
              ++ text " is not replay-eligible (only /v1/* routes can be replayed)"),
    )
    payload_of ←
        unless_none
          (
            503,
            text "audit logger does not persist payloads "
                ++ (226 ∷ 128 ∷ 148 ∷ text " replay requires PayloadLogger"),
          )
          log.payload_of
    payload ←
        refuse_with 500 (text "fetch payload for event " ++ (lib.quote id ++ text ": "))
          (payload_of id)
    found ←
        unless_none
          (
            404,
            text "payload for event "
                ++ (lib.quote id
                    ++ text
                        " not captured (audit.capture_payloads must be enabled when the event was recorded)"),
          )
          payload
    ok (id, ev, found)

  -- The request that is sent for an event.
  unfoldable pub replay_request :
      Option PortalIdentity → Text → Event → Payload → Result Refusal Sent
  unfolding refuse_with checked replay_headers unless_none rebuilt
  replay_request portal id ev payload = do
    url ← refuse_with 500 (text "parse captured path: ") (lib.parse_url ev.path)
    checked (lib.check_request ev.method url.0)
    copied ← unless_none replayed_before (replay_headers payload.request_headers [])
    ok (rebuilt portal id ev payload url copied)

  -- What is sent for a path value, with the identifier that it names.
  unfoldable pub replay : AuditLog → Option PortalIdentity → Text → Result Refusal (Text × Sent)
  unfolding recorded replay_request
  replay log portal raw_id = do
    found ← recorded log raw_id
    sent ← replay_request portal found.0 found.1 found.2
    ok (found.0, sent)

pub record Replayed : Type 0 where
  pub replayed_from : Text
  pub status : ℕ
  pub headers : Table (List Text)
  pub body : Text
  pub body_truncated : Bool

-- The response of the mux, as it is shown.
unfoldable pub replayed : Target → Text × Sent → Response Replayed
unfolding new_cap_response cap_run
replayed target (id, sent) =
    let (calls, headers) = target sent in
    let rec = cap_run calls (new_cap_response max_body_bytes) in
    write_json 200 (record {
      replayed_from = id;
      status = rec.status;
      headers = headers;
      body = rec.body;
      body_truncated = rec.truncated;
    })

-- auditReplay; `none` is a composition without a target.
unfoldable pub audit_replay :
    Library → Option Target → AuditLog → Option PortalIdentity → Text → Response Replayed
unfolding replay replayed
audit_replay lib none log portal raw_id =
    write_error 503 (text "replay disabled: composition did not supply a target handler")
audit_replay lib (some target) log portal raw_id =
    answer (replayed target) (replay lib log portal raw_id)

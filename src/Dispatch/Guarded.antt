-- ===== src/Dispatch/Guarded.antt =====
-- The guard against replays of replays, over what the audit middleware records of a replay.
use api_test.Prelude.{
  ◌≡◌, ◌≢◌, refl, sym, ◌∙◌, true, false, List, [], ◌∷◌, Option, none, some, if◌then◌else◌,
  Bool-cases, inl, inr,
}
use api_test.Prelude.Result.{ok}
use api_test.Std.Text.{Text, str_eq, eq_of_str_eq, to_lower, equal_fold}
use api_test.Std.Http.{Request, Table, lookup, canonical_key, header_get}
use api_test.Inbound.Oidc.{PortalIdentity}
use api_test.Inbound.Types.{Identity}
use api_test.Audit.Capture.{Writer, CapWriter, AuditRecorder, audit_run, new_audit_recorder}
use api_test.Audit.Redact.{redacted, matches_redact_key, sanitize_headers}
use api_test.Audit.Hidden.{lookup-sanitize_headers}
use api_test.Audit.Event.{
  Event, Payload, AuditOptions, Context, Run, new_event, with_defaults, with_identity, with_route,
  with_outcome, request_capture, with_payload, audit,
}
use api_test.Dispatch.Sent.{Sent, header_add}
use api_test.Dispatch.Replay.{
  Library, replay_marker, is_redacted_credential_header, replay_headers, rebuilt, replay_request,
}
use api_test.Dispatch.Dropped.{lookup-marker}
use api_test.Dispatch.Operator.{replay_request-Rebuilt, rebuilt-marker}

-- Headers with the marker, in whatever case, are not copied.
replay_headers-none :
    (k : Text) (vs : List Text) (h out : Table (List Text))
    → equal_fold k replay_marker ≡ true
    → lookup k h ≡ some vs
    → replay_headers h out ≡ none
unfolding replay_headers lookup
replay_headers-none k vs [] out marked found = absurd (missing found)
  where
    missing : none ≡ some vs → ⊥
    missing e = cc
replay_headers-none k vs ((j, ws) ∷ h) out marked found =
    let copied = if is_redacted_credential_header j then out else header_add j ws out in
    let rest = λ (at : lookup k h ≡ some vs). replay_headers-none k vs h copied marked at in
    elim (Bool-cases (equal_fold j replay_marker)) [
      | inl here ↦ rw here refl
      | inr plain ↦ elim (Bool-cases (str_eq j k)) [
        | inl same ↦ absurd (clash (rw (eq_of_str_eq j k same) at plain))
        | inr differs ↦ rw plain (rest (rw differs at found))
      ]
    ]
  where
    clash : equal_fold k replay_marker ≡ false → ⊥
    clash e = cc

-- Sanitizing keeps the marker's key.
marker-sanitize_headers :
    (keys : List Text) (k : Text) (vs : List Text) (h : Table (List Text))
    → lookup k h ≡ some vs
    → (ws : List Text) × (lookup k (sanitize_headers h keys) ≡ some ws)
marker-sanitize_headers keys k vs h found = elim (Bool-cases (matches_redact_key k keys)) [
  | inl secret ↦ (redacted, lookup-sanitize_headers keys k h ∙ rw (secret, found) refl)
  | inr plain ↦ (vs, lookup-sanitize_headers keys k h ∙ rw (plain, found) refl)
]

with_identity-payload :
    (id : Option Identity) (ev : Event) → (with_identity id ev).payload ≡ ev.payload
unfolding with_identity
with_identity-payload none ev = refl
with_identity-payload (some id) ev = refl

with_route-payload :
    (route_for : Option (Text → Text → Text × Text)) (r : Request) (ev : Event)
    → (with_route route_for r ev).payload ≡ ev.payload
unfolding with_route
with_route-payload none r ev = refl
with_route-payload (some route_for) r ev = refl

payload-recorded :
    (o : AuditOptions) (r : Request) (c : Context) (body : CapWriter) (rec : AuditRecorder)
    (run : Run) (ev : Event) (payload : Payload)
    → ev.payload ≡ none
    → (with_payload o r c body rec run ev).payload ≡ some payload
    → o.capture_headers ≡ true
    → (payload.request_headers ≡ sanitize_headers r.header o.redact_keys)
      × (payload.replayed_from ≡ header_get r.header replay_marker)
unfolding with_payload
payload-recorded o r c body rec run ev payload empty recorded with_headers =
    elim (Bool-cases o.capture_payloads) [
      | inl on ↦ from_some (rw (with_payload, on, with_headers) at recorded)
      | inr off ↦ absurd (clash (sym empty ∙ rw (with_payload, off) at recorded))
    ]
  where
    clash : none ≡ some payload → ⊥
    clash e = cc

    from_some :
        {q : Payload}
        → some q ≡ some payload
        → (payload.request_headers ≡ q.request_headers) × (payload.replayed_from ≡ q.replayed_from)
    from_some e = (cc, cc)

-- The payload that the middleware records.
recorded_headers :
    (inner : Writer) (o : AuditOptions) (c : Context) (r : Request) (run : Run) (payload : Payload)
    → (audit inner o c r run).0.payload ≡ some payload
    → o.capture_headers ≡ true
    → (payload.request_headers ≡ sanitize_headers r.header o.redact_keys)
      × (payload.replayed_from ≡ header_get r.header replay_marker)
unfolding audit with_defaults with_outcome new_event
recorded_headers inner o c r run payload recorded with_headers =
    let d = with_defaults o in
    let ev0 = record (new_event c.start r.method r.path) {
      request_id = c.request_id;
      remote_addr = c.remote_addr;
      user_agent = c.user_agent;
    } in
    let ev = with_route c.route_for r (with_identity c.identity ev0) in
    let body = request_capture d c.has_body run.reads in
    let rec =
      audit_run inner run.calls (new_audit_recorder d.max_payload_bytes d.capture_payloads) in
    payload-recorded d r c body rec run (with_outcome d c.elapsed_ms body rec ev) payload
      (with_route-payload c.route_for r (with_identity c.identity ev0)
        ∙ with_identity-payload c.identity ev0)
      recorded with_headers

sent-marker :
    (lib : Library) (portal : Option PortalIdentity) (id : Text) (ev : Event) (payload : Payload)
    (sent : Sent)
    → replay_request lib portal id ev payload ≡ ok sent
    → (lookup (canonical_key replay_marker) sent.request.header ≡ some (id ∷ []))
      × (header_get sent.request.header replay_marker ≡ id)
sent-marker lib portal id ev payload sent h =
    let r = replay_request-Rebuilt lib portal id ev payload sent h in
    rw r.same (
      unfold rebuilt in (lookup-marker id payload.request_content_type r.copied),
      rebuilt-marker portal id ev payload r.url r.copied,
    )

marked : equal_fold (canonical_key replay_marker) replay_marker ≡ true
unfolding canonical_key equal_fold to_lower str_eq
marked = refl

-- What the middleware records of a replay, with the headers captured, names the event that was
-- replayed; and no replay of the record is sent, whatever the redaction keys are.
pub replay_once :
    (lib : Library) (portal : Option PortalIdentity) (id : Text) (ev : Event) (payload : Payload)
    (sent : Sent) (inner : Writer) (o : AuditOptions) (c : Context) (run : Run) (again : Payload)
    (portal' : Option PortalIdentity) (id' : Text) (ev' : Event) (sent' : Sent)
    → replay_request lib portal id ev payload ≡ ok sent
    → o.capture_headers ≡ true
    → (audit inner o c sent.request run).0.payload ≡ some again
    → (again.replayed_from ≡ id) × (replay_request lib portal' id' ev' again ≢ ok sent')
replay_once lib portal id ev payload sent inner o c run again portal' id' ev' sent' h on recorded =
    let (kept, from) = sent-marker lib portal id ev payload sent h in
    let (headers, named) = recorded_headers inner o c sent.request run again recorded on in
    let (ws, found) =
      marker-sanitize_headers o.redact_keys (canonical_key replay_marker) (id ∷ [])
        sent.request.header kept in
    let refused =
      replay_headers-none (canonical_key replay_marker) ws again.request_headers [] marked
        (rw headers found) in
    (
      named ∙ from,
      λ (sent_again : replay_request lib portal' id' ev' again ≡ ok sent'). clash (
          sym refused ∙ (replay_request-Rebuilt lib portal' id' ev' again sent' sent_again).copies),
    )
  where
    clash : {t : Table (List Text)} → none ≡ some t → ⊥
    clash e = cc

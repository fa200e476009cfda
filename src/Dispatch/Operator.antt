-- ===== src/Dispatch/Operator.antt =====
-- A replay carries no credential, and runs as the operator.
use api_test.Prelude.{
  ◌≡◌, refl, ◌∙◌, true, false, List, [], Option, none, some, if◌then◌else◌, Bool-cases, inl, inr,
}
use api_test.Prelude.Result.{Result, ok, ◌>>=◌, ◌>>◌, >>=-eq-ok}
use api_test.Std.Text.{Text, text, contains}
use api_test.Std.Http.{Table, lookup, header_get}
use api_test.Inbound.Oidc.{PortalIdentity}
use api_test.Inbound.Chain.{Chain}
use api_test.Middleware.Identity.{has_inbound_credential, admit, admission}
use api_test.Audit.Event.{Event, Payload}
use api_test.Dispatch.Sent.{Sent, Refusal, inbound_identity, portal_identity_to_inbound}
use api_test.Dispatch.Replay.{
  Library, replay_marker, is_redacted_credential_header, replay_query, replay_headers,
  marked_headers, replay_request, rebuilt, replayed_before, refuse_with, unless_none, checked,
  is_nil,
}
use api_test.Dispatch.Lookup.{no_credential, unless_none-eq-ok, refuse_with-eq-ok}
use api_test.Dispatch.Dropped.{
  lookup-replay_headers, lookup-replay_query, lookup-marked_headers, hidden_names, lookup-marker,
}

replay_steps :
    (lib : Library) (portal : Option PortalIdentity) (id : Text) (ev : Event) (payload : Payload)
    → replay_request lib portal id ev payload ≡ (
        refuse_with 500 (text "parse captured path: ") (lib.parse_url ev.path) >>= λ url.
        checked (lib.check_request ev.method url.0)
        >> (unless_none replayed_before (replay_headers payload.request_headers []) >>= λ copied.
            ok (rebuilt portal id ev payload url copied)))
unfolding replay_request
replay_steps lib portal id ev payload = refl

checked-eq-ok :
    (o : Option Text) (k : Result Refusal Sent) {s : Sent} → (checked o >> k) ≡ ok s → k ≡ ok s
unfolding checked
checked-eq-ok none k h = h
checked-eq-ok (some e) k h = cc

-- The parsed path and the copied headers behind a request that is sent.
pub record Rebuilt (lib : Library) (portal : Option PortalIdentity) (id : Text) (ev : Event)
    (payload : Payload) (sent : Sent) : Type 0 where
  pub url : Text × Table (List Text)
  pub copied : Table (List Text)
  pub parsed : lib.parse_url ev.path ≡ ok url
  pub copies : replay_headers payload.request_headers [] ≡ some copied
  pub same : sent ≡ rebuilt portal id ev payload url copied

pub replay_request-Rebuilt :
    (lib : Library) (portal : Option PortalIdentity) (id : Text) (ev : Event) (payload : Payload)
    (sent : Sent)
    → replay_request lib portal id ev payload ≡ ok sent
    → Rebuilt lib portal id ev payload sent
replay_request-Rebuilt lib portal id ev payload sent h =
    let (url, parsed, h1) =
      >>=-eq-ok (refuse_with 500 (text "parse captured path: ") (lib.parse_url ev.path)) _
        (rw (replay_steps lib portal id ev payload) at h) in
    let (copied, copies, h2) =
      >>=-eq-ok (unless_none replayed_before (replay_headers payload.request_headers [])) _
        (checked-eq-ok (lib.check_request ev.method url.0) _ h1) in
    record {
      url = url;
      copied = copied;
      parsed = refuse_with-eq-ok 500 _ (lib.parse_url ev.path) parsed;
      copies = unless_none-eq-ok replayed_before _ copies;
      same = cc;
    }

rebuilt-no_credential :
    (portal : Option PortalIdentity) (id : Text) (ev : Event) (payload : Payload)
    (url : Text × Table (List Text)) (copied : Table (List Text))
    → url.1 ≡ []
    → replay_headers payload.request_headers [] ≡ some copied
    → has_inbound_credential (rebuilt portal id ev payload url copied).request ≡ false
unfolding rebuilt is_nil
rebuilt-no_credential portal id ev payload url copied plain copies =
    no_credential _ (hidden_from (text "X-Api-Key") hidden_names.0)
      (hidden_from (text "Authorization") hidden_names.1) no_query
  where
    hidden_from :
        (secret : Text)
        → is_redacted_credential_header secret ≡ true
        → lookup secret (marked_headers id payload.request_content_type copied) ≡ none
    hidden_from secret hidden =
        lookup-marked_headers secret id payload.request_content_type copied hidden
        ∙ lookup-replay_headers secret payload.request_headers [] copied hidden copies
            (unfold lookup in refl)

    no_query :
        lookup
          (text "api_key")
          (if is_nil payload.request_query then url.1 else replay_query payload.request_query [])
        ≡ none
    no_query = elim (Bool-cases (is_nil payload.request_query)) [
      | inl empty ↦ rw (empty, plain) (unfold lookup in refl)
      | inr some_query ↦
          rw some_query (lookup-replay_query payload.request_query [] (unfold lookup in refl))
    ]

pub rebuilt-marker :
    (portal : Option PortalIdentity) (id : Text) (ev : Event) (payload : Payload)
    (url : Text × Table (List Text)) (copied : Table (List Text))
    → header_get (rebuilt portal id ev payload url copied).request.header replay_marker ≡ id
unfolding rebuilt header_get
rebuilt-marker portal id ev payload url copied =
    rw (lookup-marker id payload.request_content_type copied) refl

rebuilt-admission :
    (who : PortalIdentity) (id : Text) (ev : Event) (payload : Payload)
    (url : Text × Table (List Text)) (copied : Table (List Text)) (chain : Chain)
    → has_inbound_credential (rebuilt (some who) id ev payload url copied).request ≡ false
    → admission chain
        (rebuilt (some who) id ev payload url copied).identity
        (rebuilt (some who) id ev payload url copied).request
      ≡ admit (inbound_identity who)
unfolding rebuilt admission portal_identity_to_inbound
rebuilt-admission who id ev payload url copied chain free = rw free refl

-- Where url.Parse finds a query only behind a question mark, and the recorded path has none, a replay
-- that a logged-in operator sends has nothing under the default names of credentials, which are the
-- headers X-API-Key and Authorization with a bearer scheme and the parameter api_key, whatever the
-- recorded request had under them: the identity middleware, which looks for these names only, admits it
-- as the operator and does not ask the chain. Its marker header has the event's identifier.
pub replay_operator :
    (lib : Library) (who : PortalIdentity) (id : Text) (ev : Event) (payload : Payload)
    (sent : Sent) (chain : Chain)
    → ((p : Text) (url : Text × Table (List Text))
        → contains p (text "?") ≡ false
        → lib.parse_url p ≡ ok url
        → url.1 ≡ [])
    → contains ev.path (text "?") ≡ false
    → replay_request lib (some who) id ev payload ≡ ok sent
    → (has_inbound_credential sent.request ≡ false)
      × (admission chain sent.identity sent.request ≡ admit (inbound_identity who))
      × (header_get sent.request.header replay_marker ≡ id)
replay_operator lib who id ev payload sent chain only_query plain h =
    let r = replay_request-Rebuilt lib (some who) id ev payload sent h in
    let free =
      rebuilt-no_credential (some who) id ev payload r.url r.copied
        (only_query ev.path r.url plain r.parsed) r.copies in
    rw r.same (
      free,
      rebuilt-admission who id ev payload r.url r.copied chain free,
      rebuilt-marker (some who) id ev payload r.url r.copied,
    )

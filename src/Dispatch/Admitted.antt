-- ===== src/Dispatch/Admitted.antt =====
-- Whom an operator's own request runs as.
use api_test.Prelude.{
  ◌≡◌, refl, true, false, ◌⊎◌, List, [], Option, none, some, Bool-cases, inl, inr,
}
use api_test.Prelude.Result.{Result, ok, ◌>>=◌, ◌>>◌, >>=-eq-ok}
use api_test.Std.Text.{Text, text, str_eq, to_lower, contains}
use api_test.Std.Http.{Table, lookup, canonical_key, header_get}
use api_test.Inbound.Oidc.{PortalIdentity}
use api_test.Inbound.Chain.{Chain}
use api_test.Middleware.Identity.{has_inbound_credential, admit, admission}
use api_test.Routing.Registry.{EndpointMeta}
use api_test.Dispatch.Sent.{Sent, Refusal, inbound_identity, portal_identity_to_inbound}
use api_test.Dispatch.Replay.{is_nil, refuse_with}
use api_test.Dispatch.Substitute.{substitute_path_params}
use api_test.Dispatch.Substituted.{same_segments}
use api_test.Dispatch.TryIt.{
  TryItRequest, Library, try_it_marker, is_disallowed_header, try_headers, dispatched, or_default,
  unless_refused, try_request,
}
use api_test.Dispatch.Lookup.{no_credential, refuse_with-eq-ok}
use api_test.Dispatch.Asked.{
  names, lookup-try_query, lookup-try_headers, disallowed-try_headers, lookup-marked, lookup-marker,
}

try_steps :
    (lib : Library) (portal : Option PortalIdentity) (meta : EndpointMeta) (req : TryItRequest)
    → try_request lib portal meta req ≡ (
        refuse_with 400 [] (substitute_path_params meta.path req.path_params) >>= λ path.
        refuse_with 500 (text "parse path: ") (lib.parse_url path) >>= λ url.
        unless_refused (lib.check_request (or_default req.method meta.method) url.0)
        >> ok (dispatched portal meta req url))
unfolding try_request
try_steps lib portal meta req = refl

unless_refused-eq-ok :
    (o : Option Text) (k : Result Refusal Sent) {s : Sent}
    → (unless_refused o >> k) ≡ ok s
    → k ≡ ok s
unfolding unless_refused
unless_refused-eq-ok none k h = h
unless_refused-eq-ok (some e) k h = cc

-- The path and its parts behind a request that is sent.
record Tried (lib : Library) (portal : Option PortalIdentity) (meta : EndpointMeta)
    (req : TryItRequest) (sent : Sent) : Type 0 where
  path : Text
  url : Text × Table (List Text)
  substituted : substitute_path_params meta.path req.path_params ≡ ok path
  parsed : lib.parse_url path ≡ ok url
  same : sent ≡ dispatched portal meta req url

try_request-Tried :
    (lib : Library) (portal : Option PortalIdentity) (meta : EndpointMeta) (req : TryItRequest)
    (sent : Sent)
    → try_request lib portal meta req ≡ ok sent
    → Tried lib portal meta req sent
try_request-Tried lib portal meta req sent h =
    let (path, h1, h2) =
      >>=-eq-ok (refuse_with 400 [] (substitute_path_params meta.path req.path_params)) _
        (rw (try_steps lib portal meta req) at h) in
    let (url, h3, h4) =
      >>=-eq-ok (refuse_with 500 (text "parse path: ") (lib.parse_url path)) _ h2 in
    let last =
      unless_refused-eq-ok (lib.check_request (or_default req.method meta.method) url.0) _ h4 in
    record {
      path = path;
      url = url;
      substituted = refuse_with-eq-ok 400 [] _ h1;
      parsed = refuse_with-eq-ok 500 (text "parse path: ") _ h3;
      same = cc;
    }

disallowed :
    (is_disallowed_header (text "Authorization") ≡ true)
    × (is_disallowed_header (text "Cookie") ≡ true)
    × (is_disallowed_header (text "Set-Cookie") ≡ true)
unfolding is_disallowed_header to_lower str_eq
disallowed = (refl, refl, refl)

-- The header of the request has no key that is refused or that no one gives.
dispatched-absent :
    (key : Text) (portal : Option PortalIdentity) (meta : EndpointMeta) (req : TryItRequest)
    (url : Text × Table (List Text))
    → str_eq (canonical_key try_it_marker) key ≡ false
    → (is_disallowed_header key ≡ true) ⊎ (names canonical_key key req.headers ≡ false)
    → lookup key (dispatched portal meta req url).request.header ≡ none
unfolding dispatched
dispatched-absent key portal meta req url differs why =
    lookup-marked key (try_headers req.headers []) differs (elim why [
      | inl hidden ↦ disallowed-try_headers key req.headers [] hidden (unfold lookup in refl)
      | inr absent ↦ lookup-try_headers key req.headers [] absent (unfold lookup in refl)
    ])

dispatched-query :
    (portal : Option PortalIdentity) (meta : EndpointMeta) (req : TryItRequest)
    (url : Text × Table (List Text))
    → url.1 ≡ []
    → names (λ k. k) (text "api_key") req.query_params ≡ false
    → lookup (text "api_key") (dispatched portal meta req url).request.query ≡ none
unfolding dispatched is_nil
dispatched-query portal meta req url plain absent = elim (Bool-cases (is_nil req.query_params)) [
  | inl empty ↦ rw (empty, plain) (unfold lookup in refl)
  | inr given ↦
      rw given
        (lookup-try_query (text "api_key") req.query_params [] absent (unfold lookup in refl))
]

dispatched-admission :
    (who : PortalIdentity) (meta : EndpointMeta) (req : TryItRequest)
    (url : Text × Table (List Text)) (chain : Chain)
    → has_inbound_credential (dispatched (some who) meta req url).request ≡ false
    → admission chain
        (dispatched (some who) meta req url).identity
        (dispatched (some who) meta req url).request
      ≡ admit (inbound_identity who)
unfolding dispatched admission portal_identity_to_inbound
dispatched-admission who meta req url chain free = rw free refl

dispatched-marker :
    (portal : Option PortalIdentity) (meta : EndpointMeta) (req : TryItRequest)
    (url : Text × Table (List Text))
    → header_get (dispatched portal meta req url).request.header try_it_marker ≡ text "true"
unfolding dispatched
dispatched-marker portal meta req url = lookup-marker (try_headers req.headers [])

differ :
    (str_eq (canonical_key try_it_marker) (text "Authorization") ≡ false)
    × (str_eq (canonical_key try_it_marker) (text "Cookie") ≡ false)
    × (str_eq (canonical_key try_it_marker) (text "X-Api-Key") ≡ false)
unfolding canonical_key str_eq
differ = (refl, refl, refl)

-- Whatever headers, query and path values an operator asks for, the request that is sent has no
-- Authorization and no Cookie header, and has the marker of operators' requests.
try_it_headers :
    (lib : Library) (portal : Option PortalIdentity) (meta : EndpointMeta) (req : TryItRequest)
    (sent : Sent)
    → try_request lib portal meta req ≡ ok sent
    → (lookup (text "Authorization") sent.request.header ≡ none)
      × (lookup (text "Cookie") sent.request.header ≡ none)
      × (header_get sent.request.header try_it_marker ≡ text "true")
try_it_headers lib portal meta req sent h =
    let t = try_request-Tried lib portal meta req sent h in
    rw t.same (
      dispatched-absent (text "Authorization") portal meta req t.url differ.0 (inl disallowed.0),
      dispatched-absent (text "Cookie") portal meta req t.url differ.1 (inl disallowed.1),
      dispatched-marker portal meta req t.url,
    )

-- Where url.Parse finds a query only behind a question mark, a route's path has none, and an operator
-- gives no API key by header or by query, the request that is sent to the route is admitted as the
-- operator by the identity middleware, which does not ask the chain. It has no Authorization and no
-- Cookie header, whatever headers are asked for, and has the marker of operators' requests.
pub try_it_operator :
    (lib : Library) (who : PortalIdentity) (meta : EndpointMeta) (req : TryItRequest) (sent : Sent)
    (chain : Chain)
    → ((p : Text) (url : Text × Table (List Text))
        → contains p (text "?") ≡ false
        → lib.parse_url p ≡ ok url
        → url.1 ≡ [])
    → contains meta.path (text "?") ≡ false
    → names canonical_key (text "X-Api-Key") req.headers ≡ false
    → names (λ k. k) (text "api_key") req.query_params ≡ false
    → try_request lib (some who) meta req ≡ ok sent
    → (lookup (text "Authorization") sent.request.header ≡ none)
      × (lookup (text "Cookie") sent.request.header ≡ none)
      × (header_get sent.request.header try_it_marker ≡ text "true")
      × (admission chain sent.identity sent.request ≡ admit (inbound_identity who))
try_it_operator lib who meta req sent chain only_query plain no_key no_parameter h =
    let t = try_request-Tried lib (some who) meta req sent h in
    let no_query =
      only_query t.path t.url
        ((same_segments meta.path req.path_params t.path plain t.substituted).1) t.parsed in
    let free =
      no_credential (dispatched (some who) meta req t.url).request
        (dispatched-absent (text "X-Api-Key") (some who) meta req t.url differ.2 (inr no_key))
        (dispatched-absent (text "Authorization") (some who) meta req t.url differ.0
          (inl disallowed.0))
        (dispatched-query (some who) meta req t.url no_query no_parameter) in
    let (scheme, cookie, marker) = try_it_headers lib (some who) meta req sent h in
    (scheme, cookie, marker, rw t.same (dispatched-admission who meta req t.url chain free))

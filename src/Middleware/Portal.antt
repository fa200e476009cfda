-- ===== src/Middleware/Portal.antt =====
-- The gates of the portal: pkg/httpsrv/portalauth.go, authgate.go and csrf.go.
use api_test.Prelude.{Bool, not, ◌&&◌, ◌||◌, [], ◌∷◌, Option, none, some, if◌then◌else◌}
use api_test.Prelude.Result.{Result, ok, err}
use api_test.Std.Text.{Text, text, is_empty, str_eq}
use api_test.Std.Http.{Request, Response, header_get, raw, json_headers}
use api_test.Inbound.Types.{Identity, AuthError, anonymous_type}
use api_test.Inbound.Oidc.{PortalIdentity}
use api_test.Inbound.Chain.{Chain, authenticate}
use api_test.Middleware.Identity.{is_bearer}

unfoldable pub has_credential : Request → Bool
unfolding is_bearer
has_credential r =
    not (is_empty (header_get r.header (text "X-API-Key")))
    || is_bearer (header_get r.header (text "Authorization"))

-- adaptInboundIdentity
unfoldable pub adapt : Identity → PortalIdentity
adapt id = record {
  subject = id.subject;
  email = id.email;
  name = id.key_name;
  auth_type = id.auth_type;
  claims = id.claims;
  api_key_id = id.key_name;
}

unfoldable pub unless_anonymous : Result AuthError Identity → Option PortalIdentity
unfolding adapt
unless_anonymous (ok id) = if str_eq id.auth_type anonymous_type then none else some (adapt id)
unless_anonymous (err e) = none

unfoldable pub script_client : Option Chain → Request → Option PortalIdentity
unfolding unless_anonymous
script_client none r = none
script_client (some chain) r =
    if has_credential r then unless_anonymous (authenticate chain r) else none

-- Whom the portal middleware lets in. `session` is SessionStore.Read; `none` where it is nil.
unfoldable pub portal_admission :
    Option (Request → Option PortalIdentity) → Option Chain → Request → Option PortalIdentity
unfolding script_client
portal_admission none chain r = script_client chain r
portal_admission (some session) chain r = elim (session r) [
  | some id ↦ some id
  | none ↦ script_client chain r
]

-- PortalAuth.Middleware
unfoldable pub portal_auth {ℓ} :
    {A : Type ℓ}
    → Option (Request → Option PortalIdentity)
    → Option Chain
    → (PortalIdentity → Request → Response A)
    → Request
    → Response A
unfolding portal_admission
portal_auth session chain next r = elim (portal_admission session chain r) [
  | some id ↦ next id r
  | none ↦ record {
    status = 401;
    headers = (text "WWW-Authenticate", text "Bearer realm=\"api-test-portal\"") ∷ json_headers;
    body = raw (text "{\"error\":\"unauthorized\"}");
  }
]

unfoldable pub changes_state : Text → Bool
changes_state method =
    str_eq method (text "POST")
    || str_eq method (text "PUT")
    || str_eq method (text "PATCH")
    || str_eq method (text "DELETE")

-- requireCSRFHeader
unfoldable pub require_csrf {ℓ} : {A : Type ℓ} → (Request → Response A) → Request → Response A
unfolding changes_state
require_csrf next r =
    if changes_state r.method && is_empty (header_get r.header (text "X-Requested-With"))
    then record {
      status = 403;
      headers = (text "Content-Type", text "text/plain; charset=utf-8") ∷ [];
      body = raw (text "missing X-Requested-With header\n");
    }
    else next r

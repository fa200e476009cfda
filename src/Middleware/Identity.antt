-- ===== src/Middleware/Identity.antt =====
-- The identity middleware (pkg/httpmw/identity.go), with the holder of the resolved identity
-- (pkg/httpmw/requestid.go) as a part of its result.
use api_test.Prelude.{ℕ, Bool, not, ◌&&◌, ◌||◌, [], ◌∷◌, ◌++◌, Option, none, some, if◌then◌else◌}
use api_test.Prelude.Result.{Result, ok, err}
use api_test.Std.Text.{Text, text, is_empty, to_lower, has_prefix}
use api_test.Std.Http.{Request, Response, Table, header_get, values_get, json_headers, failure}
use api_test.Inbound.Types.{Identity, AuthError, is_no_credential, is_invalid_credential}
use api_test.Inbound.Chain.{Chain, authenticate}

-- An Authorization header with the bearer scheme.
unfoldable pub is_bearer : Text → Bool
is_bearer a = not (is_empty a) && has_prefix (to_lower a) (text "bearer ")

unfoldable pub has_inbound_credential : Request → Bool
unfolding is_bearer
has_inbound_credential r =
    not (is_empty (header_get r.header (text "X-API-Key")))
    || not (is_empty (values_get r.query (text "api_key")))
    || is_bearer (header_get r.header (text "Authorization"))

-- A request is admitted with an identity, or refused with a status, a WWW-Authenticate header
-- (empty where none is set) and a message.
pub data Verdict : Type 0 where
  admit : Identity → Verdict
  refuse : ℕ → Text → Text → Verdict

unfoldable pub judge : Result AuthError Identity → Verdict
judge (ok id) = admit id
judge (err e) =
    if is_no_credential e
    then refuse 401 (text "Bearer realm=\"api-test\"") (text "missing credential")
    else if is_invalid_credential e
    then refuse 401 (text "Bearer realm=\"api-test\", error=\"invalid_token\"")
        (text "invalid credential")
    else refuse 500 [] (text "auth error")

-- `pre` is the identity that the request's context holds already.
unfoldable pub admission : Chain → Option Identity → Request → Verdict
unfolding judge
admission chain none r = judge (authenticate chain r)
admission chain (some pre) r =
    if has_inbound_credential r then judge (authenticate chain r) else admit pre

challenge_header : Text → Table Text
challenge_header challenge =
    if is_empty challenge then [] else (text "WWW-Authenticate", challenge) ∷ []

-- The response, and the identity that the holder has when the middleware returns.
unfoldable pub enforce {ℓ} :
    {A : Type ℓ}
    → (Identity → Request → Response A)
    → Request
    → Verdict
    → Response A × Option Identity
unfolding challenge_header
enforce next r (admit id) = (next id r, some id)
enforce next r (refuse status challenge message) = (
  record {
    status = status;
    headers = challenge_header challenge ++ json_headers;
    body = failure message;
  },
  none,
)

unfoldable pub identity {ℓ} :
    {A : Type ℓ}
    → Chain
    → (Identity → Request → Response A)
    → Option Identity
    → Request
    → Response A × Option Identity
unfolding admission enforce
identity chain next pre r = enforce next r (admission chain pre r)

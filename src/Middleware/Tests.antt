-- ===== src/Middleware/Tests.antt =====
-- Requests at which the theorems on admission apply.
use api_test.Prelude.{◌≡◌, refl, ◌⊎◌, true, false, List, [], ◌∷◌, Option, none, some}
use api_test.Prelude.Result.{ok, err}
use api_test.Std.Text.{Text, text, str_eq, trim_space}
use api_test.Std.Http.{Request, Response, header_get, values_get, write_json}
use api_test.Inbound.Types.{
  Identity, invalid_credential, is_no_credential, is_invalid_credential, anonymous,
}
use api_test.Inbound.Keys.{FileKey, file_store, api_key}
use api_test.Inbound.Bearer.{bearer}
use api_test.Inbound.Oidc.{PortalIdentity, oidc_bearer}
use api_test.Inbound.Chain.{Chain, authenticate}
use api_test.Middleware.Identity.{has_inbound_credential, identity}
use api_test.Middleware.Portal.{has_credential, portal_admission, adapt}
use api_test.Middleware.Admission.{
  identity_refuses, bypass_misses_nothing, portal_never_anonymous, IsScriptClient,
}

abbrev request : Text → List (Text × List Text) → Request
request method header = record {
  method = method;
  path = text "/v1/method/echo";
  host = text "h";
  tls = false;
  header = header;
  query = [];
}

abbrev bare : Request
bare = request (text "GET") []

abbrev keyed : Request
keyed = request (text "GET") ((text "X-Api-Key", text "k1" ∷ []) ∷ [])

abbrev keys : List FileKey
keys = record { name = text "dev"; key = text "k1" } ∷ []

abbrev chain : Chain
chain = record { authenticators = api_key (file_store keys) [] [] ∷ []; allow_anonymous = true }

abbrev operator : Identity
operator = record {
  subject = text "op";
  email = [];
  auth_type = text "oidc";
  key_name = text "op";
  scopes = [];
  claims = none;
}

abbrev hello : Identity → Request → Response Text
hello id r = write_json 200 id.subject

abbrev closed : Chain
closed = record { authenticators = api_key (file_store []) [] [] ∷ []; allow_anonymous = true }

closed_refuses : authenticate closed keyed ≡ err invalid_credential
unfolding authenticate api_key file_store header_get str_eq trim_space is_no_credential
closed_refuses = refl

identity_refuses_example :
    ((identity closed hello (some operator) keyed).0.status ≡ 401)
    × ((identity closed hello (some operator) keyed).1 ≡ none)
    × (identity closed hello (some operator) keyed ≡ identity closed hello (some operator) keyed)
unfolding is_no_credential is_invalid_credential has_inbound_credential header_get str_eq
identity_refuses_example =
    identity_refuses closed hello hello (some operator) keyed invalid_credential closed_refuses refl

bypass_misses_nothing_example :
    authenticate
      (record {
        authenticators =
            api_key (file_store keys) [] [] ∷ oidc_bearer (λ s. none) none ∷ bearer [] ∷ [];
        allow_anonymous = true;
      })
      bare
    ≡ ok anonymous
unfolding has_inbound_credential header_get values_get
bypass_misses_nothing_example =
    bypass_misses_nothing (file_store keys) (λ s. none) none [] true bare refl

abbrev caller : Identity
caller = record {
  subject = text "dev";
  email = [];
  auth_type = text "apikey";
  key_name = text "dev";
  scopes = [];
  claims = none;
}

keyed_admitted : portal_admission none (some chain) keyed ≡ some (adapt caller)
unfolding portal_admission has_credential authenticate api_key file_store header_get str_eq
    trim_space
keyed_admitted = refl

portal_never_anonymous_example :
    ((read : Request → Option PortalIdentity) × (none ≡ some read)
      × (read keyed ≡ some (adapt caller)))
    ⊎ IsScriptClient (some chain) keyed (adapt caller)
portal_never_anonymous_example =
    portal_never_anonymous none (some chain) keyed (adapt caller) keyed_admitted

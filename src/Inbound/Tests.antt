-- ===== src/Inbound/Tests.antt =====
-- Requests at which the theorems on credentials apply.
use api_test.Prelude.{◌≡◌, ◌⊎◌, refl, true, false, List, [], ◌∷◌, Option, some}
use api_test.Prelude.Result.{Result, ok, err}
use api_test.Std.Text.{Text, text, str_eq, split, trim_space, equal_fold}
use api_test.Std.Base64.{decode}
use api_test.Std.Http.{Request, header_get, values_get}
use api_test.Inbound.Types.{
  Identity, AuthError, no_credential, invalid_credential, other, is_no_credential, KeyStore,
}
use api_test.Inbound.Keys.{FileKey, file_store, api_key}
use api_test.Inbound.Bearer.{FileToken, bearer, extract_bearer}
use api_test.Inbound.Oidc.{PortalIdentity, looks_like_jwt}
use api_test.Inbound.Chain.{Chain, authenticate}
use api_test.Inbound.Chain.Decides.{authenticate_decided, authenticate_none}
use api_test.Inbound.Server.{server_chain, oidc_no_fallthrough}

abbrev with_headers : List (Text × List Text) → Request
with_headers header = record {
  method = text "GET";
  path = text "/v1/whoami";
  host = text "h";
  tls = false;
  header = header;
  query = (text "api_key", text "k2" ∷ []) ∷ [];
}

abbrev keys : List FileKey
keys =
    record { name = text "old"; key = text "k1" }
    ∷ record { name = text "new"; key = text "k1" }
    ∷ record { name = text "b"; key = text "k2" }
    ∷ []

abbrev down : KeyStore
down p = err (other (text "timeout"))

abbrev keyed : Request
keyed = with_headers ((text "X-Api-Key", text " k1 " ∷ []) ∷ [])

abbrev unqueried : Request
unqueried = record keyed { query = [] }

abbrev tokens : List FileToken
tokens = record { name = text "ci"; token = text "t1" } ∷ []

abbrev bad_token : Request
bad_token = record (with_headers ((text "Authorization", text "Bearer t2" ∷ []) ∷ [])) {
  query = [];
}

no_key : api_key (file_store keys) [] [] bad_token ≡ err no_credential
unfolding api_key header_get values_get str_eq trim_space
no_key = refl

bad_bearer : bearer tokens bad_token ≡ err invalid_credential
unfolding bearer extract_bearer header_get str_eq equal_fold trim_space
bad_bearer = refl

bearer_decides : (e : AuthError) → bearer tokens bad_token ≡ err e → is_no_credential e ≡ false
unfolding is_no_credential
bearer_decides e h = let same : invalid_credential ≡ e = cc (bad_bearer, h) in rw (← same)

authenticate_decided_example :
    authenticate
      (record {
        authenticators = api_key (file_store keys) [] [] ∷ bearer tokens ∷ [];
        allow_anonymous = true;
      })
      bad_token
    ≡ bearer tokens bad_token
unfolding is_no_credential
authenticate_decided_example =
    authenticate_decided true bad_token (api_key (file_store keys) [] [] ∷ []) [] (bearer tokens)
      ((no_credential, no_key, refl), tt) bearer_decides

authenticate_none_example :
    authenticate
      (record { authenticators = api_key (file_store keys) [] [] ∷ []; allow_anonymous = false })
      bad_token
    ≡ err no_credential
unfolding is_no_credential
authenticate_none_example =
    authenticate_none
      (record { authenticators = api_key (file_store keys) [] [] ∷ []; allow_anonymous = false })
      bad_token ((no_credential, no_key, refl), tt)

-- A token whose header is the JSON text {"alg":"none"}, as base64.
abbrev jwt : Request
jwt = with_headers ((text "Authorization", text "bearer eyJhbGciOiJub25lIn0.e30.c2ln" ∷ []) ∷ [])

abbrev reads_none : Text → Option Text
reads_none s = some (text "none")

abbrev expired : Text → Result AuthError PortalIdentity
expired token = err (other (text "token expired"))

jwt_token :
    extract_bearer (header_get jwt.header (text "Authorization"))
    ≡ text "eyJhbGciOiJub25lIn0.e30.c2ln"
unfolding extract_bearer header_get str_eq equal_fold trim_space
jwt_token = refl

jwt_shape : looks_like_jwt reads_none (text "eyJhbGciOiJub25lIn0.e30.c2ln") ≡ true
unfolding looks_like_jwt split decode
jwt_shape = refl

abbrev chain : Chain
chain = server_chain (file_store keys) [] [] reads_none (some expired) tokens true

oidc_no_fallthrough_example :
    ((id : Identity) × (api_key (file_store keys) [] [] jwt ≡ ok id)
      × (authenticate chain jwt ≡ ok id))
    ⊎ ((refusal : AuthError) × (authenticate chain jwt ≡ err refusal)
        × (is_no_credential refusal ≡ false))
unfolding is_no_credential
oidc_no_fallthrough_example =
    oidc_no_fallthrough (file_store keys) [] [] reads_none expired tokens true jwt
      (text "eyJhbGciOiJub25lIn0.e30.c2ln") (other (text "token expired")) jwt_token refl jwt_shape
      refl refl

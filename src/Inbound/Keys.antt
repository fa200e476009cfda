-- ===== src/Inbound/Keys.antt =====
-- API keys (apikey.go): the file-backed store, layered stores, and the authenticator.
pub mod Lookup
use api_test.Prelude.{Bool, true, false, List, [], ◌∷◌, Option, none, some, if◌then◌else◌}
use api_test.Prelude.Result.{Result, ok, err, ◌>>=◌}
use api_test.Std.Text.{Text, text, str_eq, is_empty, trim_space}
use api_test.Std.Http.{Request, header_get, values_get}
use api_test.Inbound.Types.{
  Identity, AuthError, no_credential, invalid_credential, is_invalid_credential, KeyStore,
  Authenticator,
}

-- config.FileAPIKey; its description is not read.
pub record FileKey : Type 0 where
  pub name : Text
  pub key : Text

-- The loop of LookupAPIKey: the last match stands, so that the time tells nothing.
last_match : Text → Text → List FileKey → Text
last_match candidate matched [] = matched
last_match candidate matched (k ∷ keys) =
    last_match candidate (if str_eq candidate k.key then k.name else matched) keys

-- FileAPIKeyStore.LookupAPIKey
unfoldable pub file_store : List FileKey → KeyStore
unfolding last_match
file_store keys candidate =
    if is_empty candidate
    then err invalid_credential
    else (let matched = last_match candidate [] keys in
        if is_empty matched then err invalid_credential else ok matched)

-- The loop of combined.LookupAPIKey, with the last error that is no ErrInvalidCredential.
first_hit : Text → Option AuthError → List KeyStore → Result AuthError Text
first_hit plaintext none [] = err invalid_credential
first_hit plaintext (some e) [] = err e
first_hit plaintext last (s ∷ stores) = elim (s plaintext) [
  | ok name ↦ ok name
  | err e ↦ first_hit plaintext (if is_invalid_credential e then last else some e) stores
]

-- CombineAPIKeyStores
unfoldable pub combine : List KeyStore → KeyStore
unfolding first_hit
combine stores plaintext = first_hit plaintext none stores

-- NewAPIKey's defaults
unfoldable pub key_header : Text → Text
key_header name = if is_empty name then text "X-API-Key" else name

unfoldable pub key_query : Text → Text
key_query name = if is_empty name then text "api_key" else name

key_identity : Text → Identity
key_identity name = record {
  subject = name;
  email = [];
  auth_type = text "apikey";
  key_name = name;
  scopes = [];
  claims = none;
}

-- The header first, the query parameter second.
unfoldable pub key_candidate : Text → Text → Request → Text
key_candidate header_name query_param r =
    let candidate = trim_space (header_get r.header header_name) in
    if is_empty candidate then trim_space (values_get r.query query_param) else candidate

-- APIKeyAuthenticator.Authenticate, of NewAPIKey(store, headerName, queryParam)
unfoldable pub api_key : KeyStore → Text → Text → Authenticator
unfolding key_header key_query key_candidate key_identity
api_key store header_name query_param r =
    let candidate = key_candidate (key_header header_name) (key_query query_param) r in
    if is_empty candidate
    then err no_credential
    else do name ← store candidate; ok (key_identity name)

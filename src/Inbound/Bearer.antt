-- ===== src/Inbound/Bearer.antt =====
-- Static bearer tokens (bearer.go).
use api_test.Prelude.{
  not, List, [], ◌∷◌, none, ltb, length, take, drop, if◌then◌else◌, if◌then◌else◌,
}
use api_test.Prelude.Result.{ok, err}
use api_test.Std.Text.{Text, text, str_eq, is_empty, trim_space, equal_fold}
use api_test.Std.Http.{header_get}
use api_test.Inbound.Types.{Identity, no_credential, invalid_credential, Authenticator}

-- config.FileBearerToken; its description is not read.
pub record FileToken : Type 0 where
  pub name : Text
  pub token : Text

-- The token of an Authorization header, empty where the scheme is another.
unfoldable pub extract_bearer : Text → Text
extract_bearer header =
    if is_empty header
    then []
    else if ltb (length header) 7
    then []
    else if not (equal_fold (take 7 header) (text "Bearer "))
    then []
    else trim_space (drop 7 header)

matching_name : Text → Text → List FileToken → Text
matching_name candidate matched [] = matched
matching_name candidate matched (t ∷ tokens) =
    matching_name candidate (if str_eq candidate t.token then t.name else matched) tokens

bearer_identity : Text → Identity
bearer_identity name = record {
  subject = name;
  email = [];
  auth_type = text "bearer";
  key_name = name;
  scopes = [];
  claims = none;
}

-- BearerAuthenticator.Authenticate
unfoldable pub bearer : List FileToken → Authenticator
unfolding matching_name bearer_identity
bearer tokens r =
    let candidate = extract_bearer (header_get r.header (text "Authorization")) in
    if is_empty candidate
    then err no_credential
    else (let matched = matching_name candidate [] tokens in
        if is_empty matched then err invalid_credential else ok (bearer_identity matched))

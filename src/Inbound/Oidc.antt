-- ===== src/Inbound/Oidc.antt =====
-- OIDC bearer tokens (oidc.go). `validate` is the validator's ValidateBearer; `header_alg` reads
-- the "alg" of a JSON header, `none` where it is no JSON object.
use api_test.Prelude.{Bool, false, not, List, [], ◌∷◌, Option, none, some, if◌then◌else◌}
use api_test.Prelude.Result.{Result, ok, err}
use api_test.Std.Text.{Text, text, is_empty, split}
use api_test.Std.Base64.{decode}
use api_test.Std.Http.{header_get}
use api_test.Inbound.Types.{
  Identity, AuthError, no_credential, invalid_credential, wrapped, Authenticator,
}
use api_test.Inbound.Bearer.{extract_bearer}

-- auth.Identity, as far as the adapter reads it.
pub record PortalIdentity : Type 0 where
  pub subject : Text
  pub email : Text
  pub name : Text
  pub auth_type : Text
  pub claims : Option Text
  pub api_key_id : Text

names_alg : Option Text → Bool
names_alg none = false
names_alg (some alg) = not (is_empty alg)

jwt_header : (Text → Option Text) → List Text → Bool
unfolding names_alg
jwt_header header_alg (header ∷ payload ∷ signature ∷ []) = elim (decode header) [
  | none ↦ false
  | some bytes ↦ names_alg (header_alg bytes)
]
jwt_header header_alg _ = false

-- Three parts between dots, the first a header with an algorithm.
unfoldable pub looks_like_jwt : (Text → Option Text) → Text → Bool
unfolding jwt_header
looks_like_jwt header_alg s = jwt_header header_alg (split b'.' s)

oidc_identity : PortalIdentity → Identity
oidc_identity aid =
    let subject = if is_empty aid.subject then text "oidc-subject-missing" else aid.subject in
    record {
      subject = subject;
      email = aid.email;
      auth_type = text "oidc";
      key_name = subject;
      scopes = [];
      claims = aid.claims;
    }

validated : Result AuthError PortalIdentity → Result AuthError Identity
unfolding oidc_identity
validated (ok aid) = ok (oidc_identity aid)
validated (err e) = err (wrapped invalid_credential e)

-- OIDCBearerAuthenticator.Authenticate; the validator is `none` where it is nil.
unfoldable pub oidc_bearer :
    (Text → Option Text) → Option (Text → Result AuthError PortalIdentity) → Authenticator
unfolding validated
oidc_bearer header_alg none r = err no_credential
oidc_bearer header_alg (some validate) r =
    let token = extract_bearer (header_get r.header (text "Authorization")) in
    if is_empty token
    then err no_credential
    else if not (looks_like_jwt header_alg token)
    then err no_credential
    else validated (validate token)

-- ===== src/Inbound/Types.antt =====
-- Identities, errors and the interfaces of pkg/auth/inbound (identity.go, apikey.go, chain.go).
use api_test.Prelude.{Bool, true, false, ◌||◌, List, [], Option, none}
use api_test.Prelude.Result.{Result}
use api_test.Std.Text.{Text, text}
use api_test.Std.Http.{Request}

-- `claims` is the claim map of an OIDC token, as its JSON text.
pub record Identity : Type 0 where
  pub subject : Text
  pub email : Text
  pub auth_type : Text
  pub key_name : Text
  pub scopes : List Text
  pub claims : Option Text

abbrev pub anonymous_type : Text
anonymous_type = text "anonymous"

-- The identity of unauthenticated requests.
unfoldable pub anonymous : Identity
anonymous = record {
  subject = [];
  email = [];
  auth_type = anonymous_type;
  key_name = [];
  scopes = [];
  claims = none;
}

-- `wrapped` is fmt.Errorf with two `%w`.
pub data AuthError : Type 0 where
  no_credential invalid_credential : AuthError
  other : Text → AuthError
  wrapped : AuthError → AuthError → AuthError

-- errors.Is(err, ErrNoCredential)
unfoldable pub is_no_credential : AuthError → Bool
is_no_credential no_credential = true
is_no_credential invalid_credential = false
is_no_credential (other _) = false
is_no_credential (wrapped a b) = is_no_credential a || is_no_credential b

-- errors.Is(err, ErrInvalidCredential)
unfoldable pub is_invalid_credential : AuthError → Bool
is_invalid_credential no_credential = false
is_invalid_credential invalid_credential = true
is_invalid_credential (other _) = false
is_invalid_credential (wrapped a b) = is_invalid_credential a || is_invalid_credential b

-- The interfaces Authenticator and APIKeyStore.
abbrev pub Authenticator : Type 0
Authenticator = Request → Result AuthError Identity

abbrev pub KeyStore : Type 0
KeyStore = Text → Result AuthError Text

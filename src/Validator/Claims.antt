-- ===== src/Validator/Claims.antt =====
-- The checks on a token's claims and the identity they give (ValidateBearer, audienceMatches and
-- clientAllowed of pkg/auth/oidc.go).
use api_test.Prelude.{
  ℕ, Bool, true, false, not, ◌&&◌, ◌||◌, List, [], ◌∷◌, ◌++◌, Option, none, some, if◌then◌else◌,
  any,
}
use api_test.Prelude.Result.{Result, ok, err, ◌>>=◌, ◌>>◌, ensure}
use api_test.Std.Text.{Text, text, is_empty, str_eq}
use api_test.Std.Http.{Table, lookup}
use api_test.Inbound.Types.{AuthError, other, wrapped}
use api_test.Inbound.Oidc.{PortalIdentity}
use api_test.Validator.Keys.{OidcConfig, PublicKey}

-- A JSON value as the checks tell them apart; an element of an array is `none` where it is no text.
pub data Claim : Type 0 where
  string : Text → Claim
  array : List (Option Text) → Claim
  value : Claim

abbrev pub Claims : Type 0
Claims = Table Claim

-- What the keyfunc reads of a token: whether its method is an RSA signature, its name, and its kid
-- with the empty text where that is no text.
pub record TokenHeader : Type 0 where
  pub is_rsa : Bool
  pub alg : Text
  pub kid : Text

pub record ParserOptions : Type 0 where
  pub leeway_seconds : ℕ
  pub issuer : Text
  pub expiration_required : Bool
  pub valid_methods : List Text

-- The JWT library: Parse, which asks the keyfunc for the key of the header, and ParseUnverified.
pub record JwtParser : Type 0 where
  pub parse :
      ParserOptions → (TokenHeader → Result AuthError PublicKey) → Text → Result AuthError Claims
  pub parse_unverified : ParserOptions → Text → Result AuthError Claims

unfoldable pub parser_options : OidcConfig → ParserOptions
parser_options cfg = record {
  leeway_seconds = cfg.clock_skew_seconds;
  issuer = cfg.issuer;
  expiration_required = true;
  valid_methods = text "RS256" ∷ text "RS384" ∷ text "RS512" ∷ [];
}

-- `public_key` is the answer of publicKey for a kid.
unfoldable pub keyfunc :
    OidcConfig → (Text → Result AuthError PublicKey) → TokenHeader → Result AuthError PublicKey
keyfunc cfg public_key header =
    if cfg.skip_signature_verification
    then err (other (text "signature verification skipped; do not call keyfunc"))
    else if not header.is_rsa
    then err (other (text "unexpected signing method: " ++ header.alg))
    else public_key header.kid

unfoldable pub is_wanted : Text → Option Text → Bool
is_wanted want none = false
is_wanted want (some s) = str_eq s want

unfoldable pub audience_matches : Option Claim → Text → Bool
unfolding is_wanted str_eq
audience_matches none want = false
audience_matches (some (string s)) want = str_eq s want
audience_matches (some (array es)) want = any (is_wanted want) es
audience_matches (some value) want = false

-- A claim that is a text, and the empty text otherwise.
unfoldable pub text_claim : Option Claim → Text
text_claim (some (string s)) = s
text_claim (some (array es)) = []
text_claim (some value) = []
text_claim none = []

unfoldable pub names_client : List Text → Text → Bool
unfolding str_eq
names_client allowed v = not (is_empty v) && any (λ a. str_eq a v) allowed

unfoldable pub client_allowed : Claims → List Text → Bool
unfolding names_client text_claim lookup
client_allowed claims allowed =
    names_client allowed (text_claim (lookup (text "azp") claims))
    || names_client allowed (text_claim (lookup (text "client_id") claims))
    || names_client allowed (text_claim (lookup (text "appid") claims))

unfoldable pub is_none {ℓ} : {A : Type ℓ} → List A → Bool
is_none [] = true
is_none (_ ∷ _) = false

-- `quote` is the verb %q.
unfoldable pub claims_allowed : (Text → Text) → OidcConfig → Claims → Result AuthError (Unit {0})
unfolding audience_matches client_allowed lookup is_none
claims_allowed quote cfg claims = do
  ensure (is_empty cfg.audience || audience_matches (lookup (text "aud") claims) cfg.audience)
      (other (text "audience mismatch: want " ++ quote cfg.audience))
  ensure (is_none cfg.allowed_clients || client_allowed claims cfg.allowed_clients)
      (other (text "client not in allowed_clients"))
  ok tt

-- `claims_text` is the JSON form of the claims.
unfoldable pub claims_identity : (Claims → Text) → Claims → PortalIdentity
unfolding text_claim lookup
claims_identity claims_text claims =
    let sub = text_claim (lookup (text "sub") claims) in
    record {
      subject =
          if is_empty sub then text_claim (lookup (text "preferred_username") claims) else sub;
      email = text_claim (lookup (text "email") claims);
      name = text_claim (lookup (text "name") claims);
      auth_type = text "oidc";
      claims = some (claims_text claims);
      api_key_id = [];
    }

unfoldable pub labelled_parse : Result AuthError Claims → Result AuthError Claims
labelled_parse (ok claims) = ok claims
labelled_parse (err e) = err (wrapped (other (text "parse jwt")) e)

unfoldable pub parsed :
    JwtParser → OidcConfig → (Text → Result AuthError PublicKey) → Text → Result AuthError Claims
unfolding parser_options keyfunc labelled_parse
parsed jwt cfg public_key token = labelled_parse (
    if cfg.skip_signature_verification
    then jwt.parse_unverified (parser_options cfg) token
    else jwt.parse (parser_options cfg) (keyfunc cfg public_key) token)

-- ValidateBearer
unfoldable pub validate_bearer :
    JwtParser
    → (Text → Text)
    → (Claims → Text)
    → OidcConfig
    → (Text → Result AuthError PublicKey)
    → Text
    → Result AuthError PortalIdentity
unfolding parsed claims_allowed claims_identity
validate_bearer jwt quote claims_text cfg public_key token = do
  ensure (not (is_empty token)) (other (text "empty bearer token"))
  claims ← parsed jwt cfg public_key token
  claims_allowed quote cfg claims
  ok (claims_identity claims_text claims)

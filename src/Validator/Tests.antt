-- ===== src/Validator/Tests.antt =====
-- A provider, a library and tokens at which the theorems on the validator apply.
use api_test.Prelude.{
  ◌≡◌, ◌≢◌, ◌⊎◌, inl, inr, refl, true, false, [], ◌∷◌, some, ◌+◌, ◌≤◌, if◌then◌else◌, arith,
  Bool-cases,
}
use api_test.Prelude.Result.{Result, ok, err, Result-cases}
use api_test.Std.Text.{Text, text, str_eq, eq_of_str_eq}
use api_test.Std.Base64.{decode}
use api_test.Std.Http.{lookup, insert}
use api_test.Inbound.Types.{AuthError, other}
use api_test.Validator.Keys.{
  OidcConfig, PublicKey, Jwk, Validator, Provider, install, keys_from, may_sign, decode_rsa,
  big_endian, refresh_jwks, public_key, ttl_of, grace_period,
}
use api_test.Validator.Claims.{
  string, Claims, TokenHeader, JwtParser, keyfunc, claims_identity, claims_allowed, validate_bearer,
  parsed, parser_options, labelled_parse, audience_matches, text_claim,
}
use api_test.Validator.Served.{Cached, Fetched, key_age}
use api_test.Validator.Accepted.{ClaimsAllowed}
use api_test.Validator.Signed.{ChecksSignatures, accepted_token}

abbrev config : OidcConfig
config = record {
  issuer = text "https://idp/";
  audience = text "api";
  allowed_clients = [];
  clock_skew_seconds = 30;
  jwks_cache_ttl = 0;
  skip_signature_verification = false;
}

abbrev signing_key : Jwk
signing_key = record {
  kty = text "RSA";
  use_for = text "sig";
  alg = [];
  kid = text "k1";
  n = text "Aw";
  e = text "AQAB";
}

abbrev provider : Provider
provider = record {
  get = λ url. ok (200, []);
  decode_discovery = λ body. ok (text "https://idp/keys");
  decode_jwks = λ body. ok (signing_key ∷ []);
}

abbrev three : PublicKey
three = record { modulus = 3; exponent = 65537 }

abbrev empty_cache : Validator
empty_cache = record {
  cfg = config;
  jwks_url = text "https://idp/keys";
  keys = [];
  expires_at = 0;
  stale_ok = 0;
}

abbrev filled : Validator
filled = install 10 (signing_key ∷ []) empty_cache

filled_by_refresh : refresh_jwks provider 10 empty_cache ≡ ok filled
unfolding refresh_jwks
filled_by_refresh = refl

filled_key : lookup (text "k1") filled.keys ≡ some three
unfolding install keys_from may_sign decode_rsa decode big_endian str_eq lookup insert
filled_key = refl

abbrev quoted : Text → Text
quoted s = s

filled_current : Cached quoted provider 11 11 11 (text "k1") filled three
unfolding install ttl_of
filled_current = record { held = filled_key; current = inl (omega arith) }

served_anew :
    (public_key quoted provider 4000000000000 4000000000000 4000000000000 (text "k1") filled).0
    ≡ ok three
unfolding public_key install keys_from may_sign decode_rsa decode big_endian str_eq lookup insert
    ttl_of
served_anew = refl

old_enough : 10 + (ttl_of config + grace_period) ≤ 4000000000000
unfolding ttl_of
old_enough = omega arith

key_age_example :
    Fetched quoted provider 4000000000000 4000000000000 4000000000000 (text "k1") filled three
key_age_example =
    key_age quoted provider 10 4000000000000 4000000000000 4000000000000 (text "k1") empty_cache
      filled three filled_by_refresh old_enough (omega arith) served_anew

abbrev good_token : Text
good_token = text "h.p.s"

abbrev claims : Claims
claims = (text "aud", string (text "api")) ∷ (text "sub", string (text "u1")) ∷ []

abbrev header : TokenHeader
header = record { is_rsa = true; alg = text "RS256"; kid = text "k1" }

parse_good : Text → Result AuthError PublicKey → Result AuthError Claims
parse_good token (err e) = err e
parse_good token (ok k) =
    if str_eq token good_token then ok claims else err (other (text "bad signature"))

abbrev library : JwtParser
library = record {
  parse = λ opts find token. parse_good token (find header);
  parse_unverified = λ opts token. ok claims;
}

abbrev SignedGood : PublicKey → Text → Type 0
SignedGood k token = token ≡ good_token

library-ChecksSignatures : ChecksSignatures library SignedGood
unfolding parse_good
library-ChecksSignatures opts find token read h = elim (Result-cases (find header)) [
  | inr (e, failed) ↦ absurd (not_read (rw failed at h))
  | inl (k, found) ↦ elim (Bool-cases (str_eq token good_token)) [
    | inl same ↦ (header, k, found, eq_of_str_eq token good_token same)
    | inr differs ↦ absurd (not_read (rw (found, differs) at h))
  ]
]
  where
    not_read : {e : AuthError} {c : Claims} → err e ≡ ok c → ⊥
    not_read h = cc

abbrev no_text : Claims → Text
no_text c = []

accepted :
    validate_bearer library quoted no_text config
      (λ kid. (public_key quoted provider 11 11 11 kid filled).0)
      good_token
    ≡ ok (claims_identity no_text claims)
unfolding validate_bearer parse_good str_eq parsed claims_allowed claims_identity public_key install
    keys_from may_sign decode_rsa decode big_endian lookup insert ttl_of keyfunc parser_options
    labelled_parse audience_matches text_claim
accepted = refl

accepted_token_example :
    (good_token ≢ [])
    × (c : Claims) × (library.parse
          (parser_options config)
          (keyfunc config (λ kid. (public_key quoted provider 11 11 11 kid filled).0))
          good_token
        ≡ ok c)
    × (kid : Text) × (k : PublicKey) × (Cached quoted provider 11 11 11 kid filled k
        ⊎ Fetched quoted provider 11 11 11 kid filled k)
    × SignedGood k good_token
    × ClaimsAllowed config c
    × (claims_identity no_text claims ≡ claims_identity no_text c)
unfolding install
accepted_token_example =
    accepted_token library SignedGood quoted no_text provider filled 11 11 11 good_token
      (claims_identity no_text claims) library-ChecksSignatures refl accepted

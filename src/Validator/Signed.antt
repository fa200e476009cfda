-- ===== src/Validator/Signed.antt =====
-- What holds of a token that the validator accepts.
use api_test.Prelude.{ℕ, ◌≡◌, ◌≢◌, ◌⊎◌, refl, ap, Bool, true, false, not, [], arith, if◌then◌else◌}
use api_test.Prelude.Result.{Result, ok, err, ◌>>=◌, ◌>>◌, ensure, >>=-eq-ok, ensure-eq-ok}
use api_test.Std.Text.{Text, text, is_empty}
use api_test.Inbound.Types.{AuthError, other}
use api_test.Inbound.Oidc.{PortalIdentity}
use api_test.Validator.Keys.{OidcConfig, PublicKey, Validator, Provider, public_key}
use api_test.Validator.Claims.{
  Claims, TokenHeader, ParserOptions, JwtParser, parser_options, keyfunc, claims_allowed,
  claims_identity, labelled_parse, parsed, validate_bearer,
}
use api_test.Validator.Served.{Cached, Fetched, public_key_served}
use api_test.Validator.Accepted.{ClaimsAllowed, claims_allowed-ClaimsAllowed, not_empty}

keyfunc-eq-ok :
    (cfg : OidcConfig) (keys : Text → Result AuthError PublicKey) (header : TokenHeader)
    (k : PublicKey)
    → keyfunc cfg keys header ≡ ok k
    → (keys header.kid ≡ ok k) × (header.is_rsa ≡ true)
unfolding keyfunc
keyfunc-eq-ok cfg keys header k h = ground arith

labelled_parse-eq-ok :
    (r : Result AuthError Claims) (claims : Claims) → labelled_parse r ≡ ok claims → r ≡ ok claims
unfolding labelled_parse
labelled_parse-eq-ok (ok c) claims h = h
labelled_parse-eq-ok (err e) claims h = cc

-- What the JWT library promises: what Parse accepts is signed under the key of its header.
abbrev pub ChecksSignatures : JwtParser → (PublicKey → Text → Type 0) → Type 0
ChecksSignatures jwt Signed =
    (opts : ParserOptions) (find : TokenHeader → Result AuthError PublicKey) (token : Text)
    (claims : Claims)
    → jwt.parse opts find token ≡ ok claims
    → (header : TokenHeader) × (k : PublicKey) × (find header ≡ ok k) × Signed k token

module _ (jwt : JwtParser) (quote : Text → Text) (claims_text : Claims → Text) (cfg : OidcConfig)
    (keys : Text → Result AuthError PublicKey) where
  bearer_steps :
      (token : Text)
      → validate_bearer jwt quote claims_text cfg keys token ≡ (
          ensure (not (is_empty token)) (other (text "empty bearer token"))
          >> (parsed jwt cfg keys token >>= λ claims.
              claims_allowed quote cfg claims >> ok (claims_identity claims_text claims)))
  unfolding validate_bearer
  bearer_steps token = refl

  parsed_strictly :
      (token : Text)
      → cfg.skip_signature_verification ≡ false
      → parsed jwt cfg keys token
        ≡ labelled_parse (jwt.parse (parser_options cfg) (keyfunc cfg keys) token)
  unfolding parsed
  parsed_strictly token strict = ap labelled_parse (
      ap
        (λ (b : Bool).
          if b
          then jwt.parse_unverified (parser_options cfg) token
          else jwt.parse (parser_options cfg) (keyfunc cfg keys) token)
        strict)

  signed_parse :
      (Signed : PublicKey → Text → Type 0) (token : Text) (claims : Claims)
      → ChecksSignatures jwt Signed
      → cfg.skip_signature_verification ≡ false
      → parsed jwt cfg keys token ≡ ok claims
      → (jwt.parse (parser_options cfg) (keyfunc cfg keys) token ≡ ok claims)
        × (kid : Text) × (k : PublicKey) × (keys kid ≡ ok k)
        × Signed k token
  signed_parse Signed token claims checks strict h =
      let read =
        labelled_parse-eq-ok (jwt.parse (parser_options cfg) (keyfunc cfg keys) token) claims
          (rw (parsed_strictly token strict) at h) in
      let (header, k, found, signed) =
        checks (parser_options cfg) (keyfunc cfg keys) token claims read in
      (read, header.kid, k, (keyfunc-eq-ok cfg keys header k found).0, signed)

allowed_tail :
    (quote : Text → Text) (cfg : OidcConfig) (claims : Claims) (given id : PortalIdentity)
    → (claims_allowed quote cfg claims >> ok given) ≡ ok id
    → ClaimsAllowed cfg claims × (id ≡ given)
allowed_tail quote cfg claims given id h =
    let (_, allowed, same) = >>=-eq-ok (claims_allowed quote cfg claims) _ h in
    (claims_allowed-ClaimsAllowed quote cfg claims allowed, cc)

-- A token that is accepted with signatures on is not empty; it is signed under the key that the
-- cache serves for some identifier, which it holds in its time or in the grace period of a fetch
-- that failed, or which has just been fetched; its claims, those that the JWT library parses from the
-- token under the options for the issuer, a required expiry and RSA methods, name the audience and a client, where these
-- are configured; and the identity is that of these claims.
pub accepted_token :
    (jwt : JwtParser) (Signed : PublicKey → Text → Type 0) (quote : Text → Text)
    (claims_text : Claims → Text) (p : Provider) (v : Validator) (now done late : ℕ) (token : Text)
    (id : PortalIdentity)
    → ChecksSignatures jwt Signed
    → v.cfg.skip_signature_verification ≡ false
    → validate_bearer jwt quote claims_text v.cfg
        (λ kid. (public_key quote p now done late kid v).0)
        token
      ≡ ok id
    → (token ≢ [])
      × (claims : Claims) × (jwt.parse
            (parser_options v.cfg)
            (keyfunc v.cfg (λ kid. (public_key quote p now done late kid v).0))
            token
          ≡ ok claims)
      × (kid : Text) × (k : PublicKey) × (Cached quote p now done late kid v k
          ⊎ Fetched quote p now done late kid v k)
      × Signed k token
      × ClaimsAllowed v.cfg claims
      × (id ≡ claims_identity claims_text claims)
accepted_token jwt Signed quote claims_text p v now done late token id checks strict accepted =
    let keys = λ (kid : Text). (public_key quote p now done late kid v).0 in
    let (given, h1) =
      ensure-eq-ok _ _ _ (rw (bearer_steps jwt quote claims_text v.cfg keys token) at accepted) in
    let (claims, read, h2) = >>=-eq-ok (parsed jwt v.cfg keys token) _ h1 in
    let (allowed, same) =
      allowed_tail quote v.cfg claims (claims_identity claims_text claims) id h2 in
    let (from_token, kid, k, served, signed) =
      signed_parse jwt quote claims_text v.cfg keys Signed token claims checks strict read in
    (
      not_empty token given,
      claims,
      from_token,
      kid,
      k,
      public_key_served quote p now done late kid v k served,
      signed,
      allowed,
      same,
    )

-- ===== src/Validator/Keys.antt =====
-- The cache of public keys (pkg/auth/oidc.go): discovery, the fetch of the key set, and the answer
-- for a key identifier.
use api_test.Prelude.{
  ℕ, ◌+◌, ◌*◌, Bool, not, ◌&&◌, ◌||◌, List, [], ◌∷◌, ◌++◌, Option, none, some, ltb, ◌==◌,
  if◌then◌else◌, length,
}
use api_test.Prelude.Result.{Result, ok, err, ◌>>=◌, ◌>>◌, ensure}
use api_test.Std.Text.{Text, text, is_empty, str_eq}
use api_test.Std.Strconv.{itoa}
use api_test.Std.Base64.{decode}
use api_test.Std.Http.{Table, lookup, insert}
use api_test.Inbound.Types.{AuthError, other, wrapped}

-- config.OIDCConfig, as far as the validator reads it; times are nanoseconds.
pub record OidcConfig : Type 0 where
  pub issuer : Text
  pub audience : Text
  pub allowed_clients : List Text
  pub clock_skew_seconds : ℕ
  pub jwks_cache_ttl : ℕ
  pub skip_signature_verification : Bool

-- rsa.PublicKey
pub record PublicKey : Type 0 where
  pub modulus : ℕ
  pub exponent : ℕ

pub record Jwk : Type 0 where
  pub kty : Text
  pub use_for : Text
  pub alg : Text
  pub kid : Text
  pub n : Text
  pub e : Text

-- OIDCAuthenticator, without the client and the lock.
pub record Validator : Type 0 where
  pub cfg : OidcConfig
  pub jwks_url : Text
  pub keys : Table PublicKey
  pub expires_at : ℕ
  pub stale_ok : ℕ

-- The provider as the validator meets it: what a GET returns, a status and a body, and what the
-- JSON decoder makes of the two documents.
pub record Provider : Type 0 where
  pub get : Text → Result AuthError (ℕ × Text)
  pub decode_discovery : Text → Result AuthError Text
  pub decode_jwks : Text → Result AuthError (List Jwk)

abbrev pub grace_period : ℕ
grace_period = 300000000000

abbrev pub default_ttl : ℕ
default_ttl = 3600000000000

-- fmt.Errorf with `%w` behind a message
unfoldable pub labelled {ℓ} : {A : Type ℓ} → Text → Result AuthError A → Result AuthError A
labelled message (ok a) = ok a
labelled message (err e) = err (wrapped (other message) e)

-- The text up to its last byte that is no slash.
unfoldable pub trim_right_slash : Text → Text
trim_right_slash [] = []
trim_right_slash (c ∷ s) =
    let rest = trim_right_slash s in if is_empty rest && (c == b'/') then [] else c ∷ rest

-- The body of a GET that is answered with 200.
unfoldable pub fetched : Provider → Text → Text → Text → Result AuthError Text
unfolding labelled itoa
fetched p what failed url = do
  answer ← labelled failed (p.get url)
  ensure (answer.0 == 200) (other (what ++ (text ": status " ++ itoa answer.0)))
  ok (answer.1)

unfoldable pub discover : Provider → Validator → Result AuthError Validator
unfolding trim_right_slash fetched labelled
discover p v = do
  let url = trim_right_slash v.cfg.issuer ++ text "/.well-known/openid-configuration"
  body ← fetched p (text "discover " ++ url) (text "discover " ++ url) url
  uri ← labelled (text "decode discovery") (p.decode_discovery body)
  ensure (not (is_empty uri)) (other (text "discovery doc missing jwks_uri"))
  ok (record v { jwks_url = uri })

-- The bytes of a number, the first one highest.
unfoldable pub big_endian : ℕ → Text → ℕ
big_endian acc [] = acc
big_endian acc (b ∷ s) = big_endian (acc * 256 + b) s

decoded : Text → Option Text → Result AuthError Text
decoded message none = err (other message)
decoded message (some s) = ok s

unfoldable pub decode_rsa : Text → Text → Result AuthError PublicKey
unfolding decode decoded big_endian itoa
decode_rsa n64 e64 = do
  n ← decoded (text "decode n") (decode n64)
  e ← decoded (text "decode e") (decode e64)
  ensure (not (ltb 4 (length e)))
      (other (text "e too large: " ++ (itoa (length e) ++ text " bytes")))
  ok (record { modulus = big_endian 0 n; exponent = big_endian 0 e })

-- A key that may sign: of the right type, use and algorithm where they are given.
unfoldable pub may_sign : Jwk → Bool
unfolding str_eq
may_sign jwk =
    str_eq jwk.kty (text "RSA")
    && (is_empty jwk.use_for || str_eq jwk.use_for (text "sig"))
    && (is_empty jwk.alg
        || str_eq jwk.alg (text "RS256")
        || str_eq jwk.alg (text "RS384")
        || str_eq jwk.alg (text "RS512"))

unfoldable pub with_key : Text → Result AuthError PublicKey → Table PublicKey → Table PublicKey
unfolding insert
with_key kid (ok k) keys = insert kid k keys
with_key kid (err e) keys = keys

-- The loop over the key set: the keys that do not qualify are left out.
unfoldable pub keys_from : List Jwk → Table PublicKey → Table PublicKey
unfolding may_sign decode_rsa with_key
keys_from [] keys = keys
keys_from (jwk ∷ rest) keys =
    keys_from rest (if may_sign jwk then with_key jwk.kid (decode_rsa jwk.n jwk.e) keys else keys)

unfoldable pub located : Provider → Validator → Result AuthError Validator
unfolding discover
located p v = if is_empty v.jwks_url then discover p v else ok v

unfoldable pub ttl_of : OidcConfig → ℕ
ttl_of cfg = if cfg.jwks_cache_ttl == 0 then default_ttl else cfg.jwks_cache_ttl

-- A key set, with its times counted from `now`.
unfoldable pub install : ℕ → List Jwk → Validator → Validator
unfolding keys_from
install now jwks v = record v {
  keys = keys_from jwks [];
  expires_at = now + ttl_of v.cfg;
  stale_ok = now + (ttl_of v.cfg + grace_period);
}

-- refreshJWKS; `now` is the clock's reading behind the fetch.
unfoldable pub refresh_jwks : Provider → ℕ → Validator → Result AuthError Validator
unfolding located fetched labelled install
refresh_jwks p now v = do
  v ← located p v
  body ← fetched p (text "fetch jwks") (text "fetch jwks") v.jwks_url
  jwks ← labelled (text "decode jwks") (p.decode_jwks body)
  ok (install now jwks v)

-- NewOIDC
unfoldable pub new_oidc : Provider → ℕ → OidcConfig → Result AuthError Validator
unfolding discover refresh_jwks
new_oidc p now cfg = do
  ensure (not (is_empty cfg.issuer)) (other (text "oidc: issuer is required"))
  let v : Validator = record { cfg = cfg; jwks_url = []; keys = []; expires_at = 0; stale_ok = 0 }
  v ← discover p v
  refresh_jwks p now v

-- The old key, while it may be served, where the fetch has failed.
unfoldable pub stale_key : Option PublicKey → Bool → AuthError → Result AuthError PublicKey
stale_key none in_grace e = err e
stale_key (some k) in_grace e = if in_grace then ok k else err e

-- A key from the cache, which leaves the validator alone, or else an answer.
unfoldable pub unless_cached :
    Option PublicKey
    → Validator
    → Result AuthError PublicKey × Validator
    → Result AuthError PublicKey × Validator
unless_cached (some k) v answer = (ok k, v)
unless_cached none v answer = answer

-- `quote` is the verb %q.
module _ (quote : Text → Text) where
  unfoldable pub found_key : Text → Option PublicKey → Result AuthError PublicKey
  found_key kid none = err (other (text "no public key for kid " ++ quote kid))
  found_key kid (some k) = ok k

  -- Behind the fetch: the validator stays as it was where that has failed. `late` is the clock's
  -- reading then.
  unfoldable pub after_refresh :
      Validator → ℕ → Text → Result AuthError Validator → Result AuthError PublicKey × Validator
  unfolding found_key stale_key lookup
  after_refresh v late kid (ok v') = (found_key kid (lookup kid v'.keys), v')
  after_refresh v late kid (err e) = (stale_key (lookup kid v.keys) (ltb late v.stale_ok) e, v)

  -- publicKey, at three readings of the clock: at its start, behind the fetch, and behind its
  -- failure.
  unfoldable pub public_key :
      Provider → ℕ → ℕ → ℕ → Text → Validator → Result AuthError PublicKey × Validator
  unfolding refresh_jwks after_refresh unless_cached lookup
  public_key p now done late kid v =
      unless_cached (if ltb now v.expires_at then lookup kid v.keys else none) v
        (after_refresh v late kid (refresh_jwks p done v))

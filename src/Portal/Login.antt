-- ===== src/Portal/Login.antt =====
-- The browser login with PKCE (pkg/httpsrv/browserauth.go).
use api_test.Prelude.{
  ℕ, Bool, not, ◌||◌, ◌&&◌, List, [], ◌∷◌, ◌++◌, Option, none, some, if◌then◌else◌,
}
use api_test.Prelude.Result.{Result, ok, err, ◌>>=◌, ◌>>◌, ensure}
use api_test.Std.Text.{Text, text, str_eq, is_empty, has_prefix, contains}
use api_test.Std.Http.{Table, lookup, values_get}
use api_test.Std.Redirect.{rooted_location}
use api_test.Inbound.Oidc.{PortalIdentity}
use api_test.Portal.Nonces.{consume_nonce}
use api_test.Portal.Session.{
  Crypto, SessionStore, Cookie, seconds, delete, encode_payload, decode_payload, issue, clear,
}

-- The string claims of the payload that the login cookie carries.
abbrev pub Claims : Type 0
Claims = Table Text

-- How a handler fails: http.Error, or the panic of a payload without an identity.
pub data Failure : Type 0 where
  http_error : ℕ → Text → Failure
  panics : Failure

-- What a handler answers: a failure, the Location of a redirect with status 302, or a bare 204.
pub data Reply : Type 0 where
  fails : Failure → Reply
  redirect : Text → Reply
  no_content : Reply

pub record Outcome : Type 0 where
  pub reply : Reply
  pub cookies : List Cookie

-- Code from outside: randomString, SHA-256 of the verifier, url.Values.Encode, the token endpoint
-- and the validation of the ID token.
pub record External : Type 0 where
  pub random_string : ℕ → Option Text
  pub pkce_challenge : Text → Text
  pub query_encode : Table Text → Text
  pub exchange_code : Text → Text → Option Text
  pub validate_bearer : Text → Option PortalIdentity

pub record BrowserAuth : Type 0 where
  pub client_id : Text
  pub audience : Text
  pub base_url : Text
  pub redirect_path : Text
  pub authz_url : Text
  pub sessions : SessionStore
  pub pkce_cookie : SessionStore

unfoldable pub sanitize_return_path : Text → Text
unfolding has_prefix
sanitize_return_path p =
    if is_empty p
    then []
    else if not (has_prefix p (text "/"))
    then []
    else if has_prefix p (text "//") || has_prefix p (text "/\\")
    then []
    else p

unfoldable pub claim : Text → Claims → Text
claim name claims = elim (lookup name claims) [ none ↦ [] | some value ↦ value ]

unfoldable pub require {ℓ} : {A : Type ℓ} → ℕ → Text → Option A → Result Failure A
require status message none = err (http_error status message)
require status message (some a) = ok a

-- An error of another kind as the answer to it.
unfoldable pub answered {ℓ} : {A : Type ℓ} → ℕ → Text → Result Text A → Result Failure A
answered status message (ok a) = ok a
answered status message (err e) = err (http_error status (message ++ e))

unfoldable pub to_option {ℓ} : {A : Type ℓ} → Result Text A → Option A
to_option (ok a) = some a
to_option (err e) = none

-- The identity of a payload, whose claims the callback reads without a check for nil.
unfoldable pub present_identity : Option Claims → Result Failure Claims
present_identity (some claims) = ok claims
present_identity none = err panics

unfoldable pub outcome_of : Result Failure Outcome → Outcome
outcome_of (ok o) = o
outcome_of (err f) = record { reply = fails f; cookies = [] }

module _ (pkce : Crypto Claims) (session : Crypto PortalIdentity) (external : External)
    (b : BrowserAuth) where
  authorize_query : Text → Text → Table Text
  authorize_query state challenge =
      (text "response_type", text "code")
      ∷ (text "client_id", b.client_id)
      ∷ (text "redirect_uri", b.base_url ++ b.redirect_path)
      ∷ (text "scope", text "openid email profile")
      ∷ (text "state", state)
      ∷ (text "code_challenge", challenge)
      ∷ (text "code_challenge_method", text "S256")
      ∷ (if is_empty b.audience then [] else (text "audience", b.audience) ∷ [])

  unfoldable pub login_claims : Text → Text → Text → Text → Claims
  unfolding sanitize_return_path
  login_claims state verifier nonce return =
      (text "state", state)
      ∷ (text "verifier", verifier)
      ∷ (text "nonce", nonce)
      ∷ (text "return", sanitize_return_path return)
      ∷ []

  abbrev pub login_cookie : Text → Cookie
  login_cookie value = record {
    name = b.pkce_cookie.cookie_name;
    value = value;
    path = text "/portal/auth/";
    expires = none;
    max_age = seconds 600;
    secure = b.pkce_cookie.secure;
  }

  -- The login cookie and the redirect to the identity provider, whose URL has a scheme, so that
  -- http.Redirect sends it as it is.
  unfoldable pub handle_login : Table (List Text) → Outcome
  unfolding outcome_of require answered login_claims authorize_query
  handle_login query = outcome_of (do
    state ← require 500 (text "rng failure") (external.random_string 32)
    verifier ← require 500 (text "rng failure") (external.random_string 64)
    nonce ← require 500 (text "rng failure") (external.random_string 16)
    encoded ← answered 500 (text "encode pkce: ") (
        encode_payload pkce b.pkce_cookie (record {
          identity = some (login_claims state verifier nonce (values_get query (text "return")));
          expires = 0;
        }))
    ok (record {
      reply = redirect (
          b.authz_url
          ++ (if contains b.authz_url (text "?") then text "&" else text "?")
          ++ external.query_encode (authorize_query state (external.pkce_challenge verifier)));
      cookies = login_cookie encoded ∷ [];
    }))

  abbrev cleared_cookie : Cookie
  cleared_cookie = record {
    name = b.pkce_cookie.cookie_name;
    value = [];
    path = text "/portal/auth/";
    expires = none;
    max_age = delete;
    secure = b.pkce_cookie.secure;
  }

  -- The end of the callback: the session cookie and the redirect.
  unfoldable pub start_session : Text → Result Text Cookie → Outcome
  unfolding rooted_location
  start_session return_to (err e) = record {
    reply = fails (http_error 500 (text "issue session: " ++ e));
    cookies = cleared_cookie ∷ [];
  }
  start_session return_to (ok cookie) = record {
    reply = redirect (rooted_location (if is_empty return_to then text "/portal/" else return_to));
    cookies = cleared_cookie ∷ cookie ∷ [];
  }

  -- The callback behind the nonce.
  unfoldable pub finish : ℕ → Table (List Text) → Claims → Outcome
  unfolding outcome_of require claim start_session issue
  finish now query claims = outcome_of (do
    ensure (not (is_empty (values_get query (text "code")))) (http_error 400 (text "missing code"))
    id_token ←
        require 502 (text "code exchange failed")
          (external.exchange_code (values_get query (text "code")) (claim (text "verifier") claims))
    identity ← require 401 (text "id_token validation failed") (external.validate_bearer id_token)
    ok (start_session (claim (text "return") claims) (issue session b.sessions now identity)))

  -- The claims of the login cookie.
  unfoldable pub cookie_claims : Option Text → Result Failure Claims
  unfolding require to_option present_identity
  cookie_claims cookie = do
    value ← require 400 (text "missing pkce cookie") cookie
    pl ← require 400 (text "bad pkce cookie") (to_option (decode_payload pkce b.pkce_cookie value))
    present_identity pl.identity

  -- The callback before the nonce: the claims of a good cookie whose state is the request's.
  unfoldable pub callback_claims : Option Text → Table (List Text) → Result Failure Claims
  unfolding cookie_claims claim
  callback_claims cookie query = do
    claims ← cookie_claims cookie
    ensure
        (str_eq (values_get query (text "state")) (claim (text "state") claims)
          && not (is_empty (claim (text "state") claims)))
        (http_error 400 (text "state mismatch"))
    ok claims

  unfoldable pub after_nonce : ℕ → Table (List Text) → Claims → Bool → Outcome
  unfolding finish
  after_nonce now query claims fresh =
      if fresh
      then finish now query claims
      else record { reply = fails (http_error 400 (text "replay rejected")); cookies = [] }

  unfoldable pub after_claims :
      ℕ → Table (List Text) → Table ℕ → Result Failure Claims → Outcome × Table ℕ
  unfolding after_nonce consume_nonce claim
  after_claims now query ledger (err f) = (record { reply = fails f; cookies = [] }, ledger)
  after_claims now query ledger (ok claims) =
      let (fresh, ledger') = consume_nonce now (claim (text "nonce") claims) ledger in
      (after_nonce now query claims fresh, ledger')

  -- The answer and the ledger of nonces afterwards.
  unfoldable pub handle_callback : ℕ → Option Text → Table (List Text) → Table ℕ → Outcome × Table ℕ
  unfolding after_claims callback_claims
  handle_callback now cookie query ledger =
      after_claims now query ledger (callback_claims cookie query)

  unfoldable pub handle_logout : Outcome
  unfolding clear
  handle_logout = record { reply = no_content; cookies = clear b.sessions ∷ [] }

-- ===== src/Portal/Home.antt =====
-- Where a browser login leads: to a path, and not to a network-path reference.
use api_test.Prelude.{
  ℕ, ◌≡◌, refl, sym, ◌∙◌, Bool, true, false, ◌||◌, List, [], ◌∷◌, Option, some, arith, Bool-cases,
  Option-cases, inl, inr, ◌⊎◌,
}
use api_test.Prelude.Result.{Result, ok, err, Result-cases}
use api_test.Std.Text.{Text, text, str_eq, is_empty, has_prefix}
use api_test.Std.Base64.{encode, IsBytes}
use api_test.Std.Http.{Table, lookup, values_get}
use api_test.Inbound.Oidc.{PortalIdentity}
use api_test.Portal.Session.{Crypto, Cookie, issue}
use api_test.Portal.Signed.{decode_payload-encode_payload}
use api_test.Portal.Nonces.{consume_nonce}
use api_test.Portal.Login.{
  Claims, Reply, redirect, External, BrowserAuth, sanitize_return_path, claim, cookie_claims,
  callback_claims, handle_callback, after_claims, after_nonce, finish, start_session, outcome_of,
  require, answered, login_claims, handle_login, login_cookie, to_option, present_identity,
}
use api_test.Portal.Location.{IsRooted, rooted_location-IsRooted}
use api_test.Portal.Replay.{callback_claims-eq-ok}

abbrev IsReturn : Text → Type 0
IsReturn t = (is_empty t ≡ true) ⊎ IsRooted t

or_false : (x y : Bool) → (x || y) ≡ false → (x ≡ false) × (y ≡ false)
or_false x y h = ground arith

sanitize_return_path-IsReturn : (p : Text) → IsReturn (sanitize_return_path p)
unfolding sanitize_return_path
sanitize_return_path-IsReturn [] = inl refl
sanitize_return_path-IsReturn (c ∷ p) = elim (Bool-cases (has_prefix (c ∷ p) (text "/"))) [
  | inr far ↦ rw far (inl refl)
  | inl slash ↦
      elim (Bool-cases (has_prefix (c ∷ p) (text "//") || has_prefix (c ∷ p) (text "/\\"))) [
        | inl other ↦ rw (slash, other) (inl refl)
        | inr local ↦
            rw (slash, local)
              (let (one, _) =
                  or_false (has_prefix (c ∷ p) (text "//")) (has_prefix (c ∷ p) (text "/\\"))
                    local in
                inr (slash, one))
      ]
]

-- If the answer is a redirect, its Location starts with a slash, and not with two.
abbrev pub ReturnsHome : Reply → Type 0
ReturnsHome (redirect target) = IsRooted target
ReturnsHome _ = Unit

portal-IsRooted : IsRooted (text "/portal/")
unfolding has_prefix
portal-IsRooted = (refl, refl)

module _ (pkce : Crypto Claims) (session : Crypto PortalIdentity) (external : External)
    (b : BrowserAuth) where
  start_session-ReturnsHome :
      (return_to : Text) (issued : Result Text Cookie)
      → IsReturn return_to
      → ReturnsHome (start_session pkce session external b return_to issued).reply
  unfolding start_session
  start_session-ReturnsHome return_to (err e) h = tt
  start_session-ReturnsHome [] (ok cookie) h =
      rooted_location-IsRooted (text "/portal/") portal-IsRooted
  start_session-ReturnsHome (c ∷ s) (ok cookie) (inl h) = cc
  start_session-ReturnsHome (c ∷ s) (ok cookie) (inr h) = rooted_location-IsRooted (c ∷ s) h

  finish-ReturnsHome :
      (now : ℕ) (query : Table (List Text)) (claims : Claims)
      → IsReturn (claim (text "return") claims)
      → ReturnsHome (finish pkce session external b now query claims).reply
  unfolding finish outcome_of require
  finish-ReturnsHome now query claims h =
      elim (Bool-cases (is_empty (values_get query (text "code")))) [
        | inl missing ↦ rw missing tt
        | inr given ↦
            rw given
              (elim (Option-cases (
                external.exchange_code (values_get query (text "code"))
                  (claim (text "verifier") claims))) [
                    | inl none_given ↦ rw none_given tt
                    | inr (token, exchanged) ↦
                        rw exchanged (elim (Option-cases (external.validate_bearer token)) [
                          | inl invalid ↦ rw invalid tt
                          | inr (id, valid) ↦ rw valid (
                              start_session-ReturnsHome (claim (text "return") claims)
                                (issue session b.sessions now id) h)
                        ])
                  ])
      ]

  handle_callback-ReturnsHome :
      (now : ℕ) (cookie : Option Text) (query : Table (List Text)) (ledger : Table ℕ)
      (claims : Claims)
      → cookie_claims pkce session external b cookie ≡ ok claims
      → IsReturn (claim (text "return") claims)
      → ReturnsHome (handle_callback pkce session external b now cookie query ledger).0.reply
  unfolding handle_callback after_claims after_nonce
  handle_callback-ReturnsHome now cookie query ledger claims c h =
      elim (Result-cases (callback_claims pkce session external b cookie query)) [
        | inr (f, bad) ↦ rw bad tt
        | inl (found, good) ↦
            let one : ok claims ≡ ok found =
              sym c ∙ callback_claims-eq-ok pkce session external b cookie query found good in
            let e : claims ≡ found = cc in
            rw (good, ← e)
              (elim (Bool-cases (consume_nonce now (claim (text "nonce") claims) ledger).0) [
                | inl fresh ↦ rw fresh (finish-ReturnsHome now query claims h)
                | inr used ↦ rw used tt
              ])
      ]

  login_claims-IsReturn :
      (state verifier nonce p : Text)
      → IsReturn
          (claim (text "return") (login_claims pkce session external b state verifier nonce p))
  unfolding login_claims claim lookup str_eq
  login_claims-IsReturn state verifier nonce p = sanitize_return_path-IsReturn p

  -- Whatever return path a login is asked for, the login, whose randomness does not fail and whose
  -- payload is read back from its JSON form, sets one cookie, and a callback with that cookie, at
  -- any time and with any query and ledger, sends no Location but one that starts with a slash, and
  -- not with two, also behind the path.Clean of http.Redirect.
  pub handle_login-ReturnsHome :
      (query query' : Table (List Text)) (now : ℕ) (ledger : Table ℕ)
      (state verifier nonce body : Text)
      → external.random_string 32 ≡ some state
      → external.random_string 64 ≡ some verifier
      → external.random_string 16 ≡ some nonce
      → pkce.marshal (record {
        identity = some (
            login_claims pkce session external b state verifier nonce
              (values_get query (text "return")));
        expires = 0;
      })
        ≡ some body
      → pkce.unmarshal body
        ≡ some (record {
          identity = some (
              login_claims pkce session external b state verifier nonce
                (values_get query (text "return")));
          expires = 0;
        })
      → IsBytes body
      → IsBytes (pkce.hmac b.pkce_cookie.secret (encode body))
      → (value : Text) × ((handle_login pkce session external b query).cookies
          ≡ login_cookie pkce session external b value ∷ [])
        × ReturnsHome
            (handle_callback pkce session external b now (some value) query' ledger).0.reply
  unfolding handle_login outcome_of require answered
  handle_login-ReturnsHome query query' now ledger state verifier nonce body hs hv hn marshals
        unmarshals bytes mac =
      let claims =
        login_claims pkce session external b state verifier nonce
          (values_get query (text "return")) in
      let (value, encoded, decoded) =
        decode_payload-encode_payload pkce b.pkce_cookie
          (record { identity = some claims; expires = 0 }) body marshals unmarshals bytes mac in
      let c : cookie_claims pkce session external b (some value) ≡ ok claims =
        unfold cookie_claims to_option present_identity in rw decoded refl in
      (
        value,
        rw (hs, hv, hn, encoded) refl,
        handle_callback-ReturnsHome now (some value) query' ledger claims c
            (login_claims-IsReturn state verifier nonce (values_get query (text "return"))),
      )

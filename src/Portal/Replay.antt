-- ===== src/Portal/Replay.antt =====
-- A login cookie is good for one callback.
use api_test.Prelude.{
  ℕ, ◌+◌, ◌≤◌, ◌≡◌, ◌≢◌, refl, ap, sym, ◌∙◌, true, false, List, [], ◌∷◌, Option, some,
  if◌then◌else◌, All, arith, Bool-cases, Option-cases, inl, inr,
}
use api_test.Prelude.Result.{ok, Result-cases, >>=-eq-ok, ensure-eq-ok}
use api_test.Std.Text.{Text, text, str_eq, str_eq_refl, eq_of_str_eq}
use api_test.Std.Http.{Table, lookup, insert}
use api_test.Inbound.Oidc.{PortalIdentity}
use api_test.Portal.Session.{Crypto}
use api_test.Portal.Nonces.{nonce_ttl, evict, record_nonce, consume_nonce}
use api_test.Portal.Login.{
  Claims, redirect, fails, http_error, cookie_claims, Outcome, External, BrowserAuth, claim,
  callback_claims, handle_callback, after_claims, after_nonce,
}

lookup-insert :
    (k j : Text) (v : ℕ) (m : Table ℕ)
    → lookup k (insert j v m) ≡ (if str_eq j k then some v else lookup k m)
unfolding lookup insert
lookup-insert k j v [] = refl
lookup-insert k j v ((i, w) ∷ m) = elim (Bool-cases (str_eq i j)) [
  | inl same ↦
      rw (same, eq_of_str_eq i j same)
        (elim (Bool-cases (str_eq j k)) [ inl e ↦ rw e refl | inr e ↦ rw e refl ])
  | inr other ↦
      rw other
        (grind (arith, lookup-insert k j v m, eq_of_str_eq i k, eq_of_str_eq j k, str_eq_refl k))
]

-- A nonce in its ten minutes stays in the ledger.
lookup-evict :
    (now t : ℕ) (k : Text) (ledger : Table ℕ)
    → now ≤ t + nonce_ttl
    → lookup k ledger ≡ some t
    → lookup k (evict now ledger) ≡ some t
unfolding lookup evict
lookup-evict now t k [] fresh h = cc
lookup-evict now t k ((j, s) ∷ ledger) fresh h = elim (Bool-cases (str_eq j k)) [
  | inl same ↦ ground (arith, same, fresh, h)
  | inr other ↦ ground (arith, other, h, lookup-evict now t k ledger fresh)
]

consume_nonce_keeps :
    (now t : ℕ) (k nonce : Text) (ledger : Table ℕ)
    → now ≤ t + nonce_ttl
    → lookup k ledger ≡ some t
    → lookup k (consume_nonce now nonce ledger).1 ≡ some t
unfolding consume_nonce record_nonce
consume_nonce_keeps now t k [] ledger fresh h = h
consume_nonce_keeps now t k (c ∷ n) ledger fresh h =
    let kept = evict now ledger in
    let still = lookup-evict now t k ledger fresh h in
    elim (Option-cases (lookup (c ∷ n) kept)) [
      | inl unused ↦
          rw (unused, lookup-insert k (c ∷ n) now kept)
            (grind (arith, still, unused, eq_of_str_eq (c ∷ n) k))
      | inr (u, used) ↦ rw used still
    ]

consume_nonce_used :
    (now t : ℕ) (nonce : Text) (ledger : Table ℕ)
    → now ≤ t + nonce_ttl
    → lookup nonce ledger ≡ some t
    → (consume_nonce now nonce ledger).0 ≡ false
unfolding consume_nonce record_nonce
consume_nonce_used now t [] ledger fresh h = refl
consume_nonce_used now t (c ∷ n) ledger fresh h =
    rw (lookup-evict now t (c ∷ n) ledger fresh h) refl

consume_nonce_fresh :
    (now : ℕ) (nonce : Text) (ledger : Table ℕ)
    → (consume_nonce now nonce ledger).0 ≡ true
    → lookup nonce (consume_nonce now nonce ledger).1 ≡ some now
unfolding consume_nonce record_nonce
consume_nonce_fresh now [] ledger h = cc
consume_nonce_fresh now (c ∷ n) ledger h = elim (Option-cases (lookup (c ∷ n) (evict now ledger))) [
  | inl unused ↦
      rw (unused, lookup-insert (c ∷ n) (c ∷ n) now (evict now ledger), str_eq_refl (c ∷ n)) refl
  | inr (u, used) ↦ let clash : false ≡ true = rw used at h in cc
]

-- A callback: when it comes, with what cookie and what query.
pub record Attempt : Type 0 where
  pub at_time : ℕ
  pub cookie : Option Text
  pub query : Table (List Text)

module _ (pkce : Crypto Claims) (session : Crypto PortalIdentity) (external : External)
    (b : BrowserAuth) where
  abbrev callback : Attempt → Table ℕ → Outcome × Table ℕ
  callback a ledger = handle_callback pkce session external b a.at_time a.cookie a.query ledger

  -- The ledger after these callbacks, in this order.
  unfoldable pub after_all : List Attempt → Table ℕ → Table ℕ
  after_all [] ledger = ledger
  after_all (a ∷ attempts) ledger = after_all attempts (callback a ledger).1

  callback_keeps :
      (a : Attempt) (t : ℕ) (k : Text) (ledger : Table ℕ)
      → a.at_time ≤ t + nonce_ttl
      → lookup k ledger ≡ some t
      → lookup k (callback a ledger).1 ≡ some t
  unfolding handle_callback after_claims
  callback_keeps a t k ledger fresh h =
      elim (Result-cases (callback_claims pkce session external b a.cookie a.query)) [
        | inl (claims, good) ↦
            rw good (consume_nonce_keeps a.at_time t k (claim (text "nonce") claims) ledger fresh h)
        | inr (f, bad) ↦ rw bad h
      ]

  after_all_keeps :
      (attempts : List Attempt) (t : ℕ) (k : Text) (ledger : Table ℕ)
      → All (λ a. a.at_time ≤ t + nonce_ttl) attempts
      → lookup k ledger ≡ some t
      → lookup k (after_all attempts ledger) ≡ some t
  unfolding after_all
  after_all_keeps [] t k ledger fresh h = h
  after_all_keeps (a ∷ attempts) t k ledger (now, fresh) h =
      after_all_keeps attempts t k (callback a ledger).1 fresh (callback_keeps a t k ledger now h)

  -- A callback that redirects had a good cookie, and its nonce is in the ledger.
  redirected :
      (a : Attempt) (ledger : Table ℕ) (target : Text)
      → (callback a ledger).0.reply ≡ redirect target
      → (claims : Claims) × (callback_claims pkce session external b a.cookie a.query ≡ ok claims)
        × ((consume_nonce a.at_time (claim (text "nonce") claims) ledger).0 ≡ true)
        × (lookup (claim (text "nonce") claims) (callback a ledger).1 ≡ some a.at_time)
  unfolding handle_callback after_claims after_nonce
  redirected a ledger target h =
      elim (Result-cases (callback_claims pkce session external b a.cookie a.query)) [
        | inl (claims, good) ↦
            elim (Bool-cases (consume_nonce a.at_time (claim (text "nonce") claims) ledger).0) [
              | inl fresh ↦ (
                claims,
                good,
                fresh,
                rw good (consume_nonce_fresh a.at_time (claim (text "nonce") claims) ledger fresh),
              )
              | inr used ↦
                  let clash : fails (http_error 400 (text "replay rejected")) ≡ redirect target =
                    rw (good, used) at h in
                  cc
            ]
        | inr (f, bad) ↦ let clash : fails f ≡ redirect target = rw bad at h in cc
      ]

  pub callback_claims-eq-ok :
      (cookie : Option Text) (query : Table (List Text)) (claims : Claims)
      → callback_claims pkce session external b cookie query ≡ ok claims
      → cookie_claims pkce session external b cookie ≡ ok claims
  unfolding callback_claims
  callback_claims-eq-ok cookie query claims h =
      let (found, good, h1) = >>=-eq-ok (cookie_claims pkce session external b cookie) _ h in
      let (_, same) = ensure-eq-ok _ _ (ok found) h1 in good ∙ same

  -- A login cookie is good for one callback: once a callback with it has redirected, no callback
  -- with it redirects in the ten minutes after that, whatever callbacks come in between.
  pub callback_once :
      (first again : Attempt) (attempts : List Attempt) (ledger : Table ℕ) (target : Text)
      → (callback first ledger).0.reply ≡ redirect target
      → All (λ a. a.at_time ≤ first.at_time + nonce_ttl) attempts
      → again.at_time ≤ first.at_time + nonce_ttl
      → again.cookie ≡ first.cookie
      → (target' : Text)
      → (callback again (after_all attempts (callback first ledger).1)).0.reply ≢ redirect target'
  callback_once first again attempts ledger target h before now same target' h' =
      let l1 = (callback first ledger).1 in
      let (claims, good, _, used) = redirected first ledger target h in
      let (claims', good', fresh, _) = redirected again (after_all attempts l1) target' h' in
      let c : cookie_claims pkce session external b first.cookie ≡ ok claims =
        callback_claims-eq-ok first.cookie first.query claims good in
      let c' : cookie_claims pkce session external b again.cookie ≡ ok claims' =
        callback_claims-eq-ok again.cookie again.query claims' good' in
      let one : ok claims ≡ ok claims' =
        sym c ∙ ap (cookie_claims pkce session external b) (sym same) ∙ c' in
      let e : claims ≡ claims' = cc in
      let nonce = claim (text "nonce") claims in
      let spent =
        consume_nonce_used again.at_time first.at_time nonce (after_all attempts l1) now
          (after_all_keeps attempts first.at_time nonce l1 before used) in
      let clash : false ≡ true =
        sym spent
        ∙ ap (λ x. (consume_nonce again.at_time (claim (text "nonce") x) (after_all attempts l1)).0)
            e
        ∙ fresh in
      cc

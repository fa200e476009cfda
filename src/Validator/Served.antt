-- ===== src/Validator/Served.antt =====
-- Which key is served for an identifier, and until when.
use api_test.Prelude.{
  ℕ, ◌+◌, ◌≤◌, ◌<◌, ◌≡◌, ◌⊎◌, inl, inr, refl, sym, ap, ◌∙◌, Bool, true, false, List, Option, none,
  some, ltb, if◌then◌else◌, arith, Bool-cases,
}
use api_test.Prelude.Result.{Result, ok, err, >>=-eq-ok, ◌>>=◌}
use api_test.Std.Text.{Text, text}
use api_test.Std.Http.{lookup}
use api_test.Inbound.Types.{AuthError}
use api_test.Validator.Keys.{
  discover, PublicKey, Jwk, Validator, Provider, grace_period, install, ttl_of, located, fetched,
  labelled, refresh_jwks, stale_key, found_key, after_refresh, unless_cached, public_key,
}
use api_test.Validator.Cached.{HasKey, install-HasKey}

module _ (quote : Text → Text) (p : Provider) (now done late : ℕ) (kid : Text) (v : Validator) where
  -- The key of a new fetch.
  pub record Fetched (k : PublicKey) : Type 0 where
    pub validator : Validator
    pub refreshed : refresh_jwks p done v ≡ ok validator
    pub listed : lookup kid validator.keys ≡ some k

  -- The key that the cache holds, in its time, or behind it after a fetch that fails.
  pub record Cached (k : PublicKey) : Type 0 where
    pub held : lookup kid v.keys ≡ some k
    pub current :
        (now < v.expires_at)
        ⊎ ((late < v.stale_ok) × (e : AuthError) × (refresh_jwks p done v ≡ err e))

  public_key_parts :
      public_key quote p now done late kid v
      ≡ unless_cached
          (if ltb now v.expires_at then lookup kid v.keys else none)
          v
          (after_refresh quote v late kid (refresh_jwks p done v))
  unfolding public_key
  public_key_parts = refl

  found_key-eq-ok :
      (found : Option PublicKey) (k : PublicKey) → found_key quote kid found ≡ ok k → found ≡ some k
  unfolding found_key
  found_key-eq-ok none k h = cc
  found_key-eq-ok (some a) k h = ground arith

  stale_key-eq-ok :
      (cached : Option PublicKey) (k : PublicKey) (in_grace : Bool) (e : AuthError)
      → stale_key cached in_grace e ≡ ok k
      → (cached ≡ some k) × (in_grace ≡ true)
  unfolding stale_key
  stale_key-eq-ok none k in_grace e h = cc
  stale_key-eq-ok (some a) k true e h = (ground arith, refl)
  stale_key-eq-ok (some a) k false e h = cc

  after_refresh-eq-ok :
      (r : Result AuthError Validator) (k : PublicKey)
      → refresh_jwks p done v ≡ r
      → (after_refresh quote v late kid r).0 ≡ ok k
      → Cached k ⊎ Fetched k
  unfolding after_refresh
  after_refresh-eq-ok (ok v') k answer h = inr (record {
    validator = v';
    refreshed = answer;
    listed = found_key-eq-ok (lookup kid v'.keys) k h;
  })
  after_refresh-eq-ok (err e) k answer h =
      let (held, grace) = stale_key-eq-ok (lookup kid v.keys) k (ltb late v.stale_ok) e h in
      inl (record { held = held; current = inr (ground arith, e, answer) })

  unless_cached-eq-ok :
      (cached : Option PublicKey) (answer : Result AuthError PublicKey × Validator) (k : PublicKey)
      → (unless_cached cached v answer).0 ≡ ok k
      → (cached ≡ some k) ⊎ (answer.0 ≡ ok k)
  unfolding unless_cached
  unless_cached-eq-ok (some a) answer k h = inl (ground arith)
  unless_cached-eq-ok none answer k h = inr h

  in_time :
      (k : PublicKey)
      → (if ltb now v.expires_at then lookup kid v.keys else none) ≡ some k
      → (lookup kid v.keys ≡ some k) × (now < v.expires_at)
  in_time k h = elim (Bool-cases (ltb now v.expires_at)) [
    | inl before ↦ (rw before at h, ground arith)
    | inr behind ↦ absurd (none_some (rw behind at h))
  ]
    where
      none_some : {k : PublicKey} → none ≡ some k → ⊥
      none_some e = cc

  -- A key is served for an identifier only if the cache holds it and its time is not over, or a
  -- fetch has failed and the grace period is not over; or if a fetch has just given it.
  pub public_key_served :
      (k : PublicKey) → (public_key quote p now done late kid v).0 ≡ ok k → Cached k ⊎ Fetched k
  public_key_served k h =
      elim (unless_cached-eq-ok (if ltb now v.expires_at then lookup kid v.keys else none)
        (after_refresh quote v late kid (refresh_jwks p done v)) k (rw public_key_parts at h)) [
          | inr answered ↦ after_refresh-eq-ok (refresh_jwks p done v) k refl answered
          | inl cached ↦
              let (held, before) = in_time k cached in
              inl (record { held = held; current = inl before })
        ]

-- What a refresh leaves: a key set, with its times counted from the fetch.
pub record Refreshed (p : Provider) (t : ℕ) (v v' : Validator) : Type 0 where
  pub located_at : Validator
  pub jwks : List Jwk
  pub same_config : located_at.cfg ≡ v.cfg
  pub installed : v' ≡ install t jwks located_at

discover-cfg : (p : Provider) (v v' : Validator) → discover p v ≡ ok v' → v'.cfg ≡ v.cfg
unfolding discover
discover-cfg p v v' h = ground arith

located-cfg : (p : Provider) (v v' : Validator) → located p v ≡ ok v' → v'.cfg ≡ v.cfg
unfolding located
located-cfg p v v' h = ground (arith, discover-cfg p v v')

refresh_steps :
    (p : Provider) (t : ℕ) (v : Validator)
    → refresh_jwks p t v ≡ (
        located p v >>= λ w.
        fetched p (text "fetch jwks") (text "fetch jwks") w.jwks_url >>= λ body.
        labelled (text "decode jwks") (p.decode_jwks body) >>= λ jwks. ok (install t jwks w))
unfolding refresh_jwks
refresh_steps p t v = refl

refresh_jwks-Refreshed :
    (p : Provider) (t : ℕ) (v v' : Validator) → refresh_jwks p t v ≡ ok v' → Refreshed p t v v'
refresh_jwks-Refreshed p t v v' h =
    let (w, at, h1) = >>=-eq-ok (located p v) _ (rw (refresh_steps p t v) at h) in
    let (body, _, h2) =
      >>=-eq-ok (fetched p (text "fetch jwks") (text "fetch jwks") w.jwks_url) _ h1 in
    let (jwks, _, h3) = >>=-eq-ok (labelled (text "decode jwks") (p.decode_jwks body)) _ h2 in
    record { located_at = w; jwks = jwks; same_config = located-cfg p v w at; installed = cc }

Refreshed-times :
    {p : Provider} {t : ℕ} {v v' : Validator}
    → Refreshed p t v v'
    → (v'.expires_at ≡ t + ttl_of v.cfg) × (v'.stale_ok ≡ t + (ttl_of v.cfg + grace_period))
unfolding install
Refreshed-times {t = t} r = (
  ap (λ (x : Validator). x.expires_at) r.installed ∙ ap (λ c. t + ttl_of c) r.same_config,
  ap (λ (x : Validator). x.stale_ok) r.installed
      ∙ ap (λ c. t + (ttl_of c + grace_period)) r.same_config,
)

-- No key outlives its fetch by more than the cache's time and the grace period: from then on
-- whatever is served for an identifier comes from a new fetch, and where that fails nothing is.
pub key_age :
    (quote : Text → Text) (p : Provider) (t now done late : ℕ) (kid : Text) (v v' : Validator)
    (k : PublicKey)
    → refresh_jwks p t v ≡ ok v'
    → t + (ttl_of v.cfg + grace_period) ≤ now
    → now ≤ late
    → (public_key quote p now done late kid v').0 ≡ ok k
    → Fetched quote p now done late kid v' k
key_age quote p t now done late kid v v' k refreshed old later served =
    elim (public_key_served quote p now done late kid v' k served) [
      | inr new ↦ new
      | inl c ↦
          let (expires, stale) = Refreshed-times (refresh_jwks-Refreshed p t v v' refreshed) in
          absurd (too_old c expires stale)
    ]
  where
    too_old :
        Cached quote p now done late kid v' k
        → v'.expires_at ≡ t + ttl_of v.cfg
        → v'.stale_ok ≡ t + (ttl_of v.cfg + grace_period)
        → ⊥
    too_old c expires stale = elim (c.current) [
      | inl before ↦ omega arith
      | inr (grace, _, _) ↦ omega arith
    ]

-- What is fetched for an identifier stands in the provider's document as a key that may sign.
pub Fetched-HasKey :
    {quote : Text → Text} {p : Provider} {now done late : ℕ} {kid : Text} {v : Validator}
    {k : PublicKey}
    → Fetched quote p now done late kid v k
    → (jwks : List Jwk) × HasKey jwks kid k
Fetched-HasKey {p = p} {done = done} {kid = kid} {v = v} {k = k} f =
    let r = refresh_jwks-Refreshed p done v f.validator f.refreshed in
    (
      r.jwks,
      install-HasKey done r.jwks r.located_at kid k
          (ap (λ (x : Validator). lookup kid x.keys) (sym (r.installed)) ∙ f.listed),
    )

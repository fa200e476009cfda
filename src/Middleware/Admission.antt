-- ===== src/Middleware/Admission.antt =====
-- Who is let in, and by which credential.
use api_test.Prelude.{
  ℕ, zero, suc, ◌≡◌, refl, ◌∙◌, ap, ◌⊎◌, inl, inr, Bool, true, false, ◌||◌, List, [], ◌∷◌, Option,
  none, some, arith, take, Bool-cases, Option-cases, if◌then◌else◌,
}
use api_test.Prelude.Result.{Result, ok, err}
use api_test.Std.Text.{Text, text, is_empty, str_eq, to_lower, has_prefix, equal_fold, trim_space}
use api_test.Std.Http.{Request, Response, header_get, values_get}
use api_test.Inbound.Types.{
  Identity, AuthError, no_credential, is_no_credential, is_invalid_credential, anonymous,
  anonymous_type, KeyStore,
}
use api_test.Inbound.Keys.{api_key}
use api_test.Inbound.Bearer.{bearer, extract_bearer, FileToken}
use api_test.Inbound.Oidc.{oidc_bearer, PortalIdentity}
use api_test.Inbound.Chain.{Chain, authenticate}
use api_test.Inbound.Chain.Decides.{authenticate_none}
use api_test.Middleware.Identity.{
  is_bearer, has_inbound_credential, refuse, judge, admission, enforce, identity,
}
use api_test.Middleware.Portal.{
  has_credential, adapt, unless_anonymous, script_client, portal_admission, require_csrf,
  changes_state,
}

judge_err :
    (e : AuthError)
    → (challenge : Text) × (message : Text) × (judge (err e)
        ≡ refuse
            (if is_no_credential e || is_invalid_credential e then 401 else 500)
            challenge
            message)
unfolding judge
judge_err e = elim (Bool-cases (is_no_credential e)) [
  | inl absent ↦ (text "Bearer realm=\"api-test\"", text "missing credential", rw absent)
  | inr present ↦ elim (Bool-cases (is_invalid_credential e)) [
    | inl invalid ↦ (
      text "Bearer realm=\"api-test\", error=\"invalid_token\"",
      text "invalid credential",
      rw (present, invalid),
    )
    | inr serious ↦ ([], text "auth error", rw (present, serious))
  ]
]

admission_wire :
    (chain : Chain) (pre : Option Identity) (r : Request)
    → has_inbound_credential r ≡ true
    → admission chain pre r ≡ judge (authenticate chain r)
unfolding admission
admission_wire chain none r wire = refl
admission_wire chain (some pre) r wire = rw wire

-- A credential on the wire that the chain rejects is answered without the handler: with 401 if it
-- is missing or invalid, with 500 for any other error, such as one of the store of keys; and no
-- identity is recorded.
pub identity_refuses {ℓ} :
    {A : Type ℓ} (chain : Chain) (next next' : Identity → Request → Response A)
    (pre : Option Identity) (r : Request) (e : AuthError)
    → authenticate chain r ≡ err e
    → has_inbound_credential r ≡ true
    → ((identity chain next pre r).0.status
        ≡ (if is_no_credential e || is_invalid_credential e then 401 else 500))
      × ((identity chain next pre r).1 ≡ none)
      × (identity chain next pre r ≡ identity chain next' pre r)
unfolding enforce
identity_refuses chain next next' pre r e failed wire =
    let (challenge, message, refused) = judge_err e in
    let verdict : admission chain pre r ≡ refuse _ challenge message =
      admission_wire chain pre r wire ∙ ap judge failed ∙ refused in
    unfold identity in rw (verdict) (refl, refl, refl)

-- `s` begins with what its first bytes are.
has_prefix_of_take :
    (n : ℕ) (s p : Text) → str_eq (to_lower (take n s)) p ≡ true → has_prefix (to_lower s) p ≡ true
unfolding to_lower str_eq has_prefix
has_prefix_of_take n s [] h = refl
has_prefix_of_take zero s (c ∷ p) h = cc
has_prefix_of_take (suc n) [] (c ∷ p) h = cc
has_prefix_of_take (suc n) (a ∷ s) (c ∷ p) h = ground (arith, has_prefix_of_take n s p)

-- Without a bearer scheme there is no bearer token.
extract_bearer_none : (a : Text) → is_bearer a ≡ false → is_empty (extract_bearer a) ≡ true
unfolding extract_bearer is_bearer equal_fold to_lower
extract_bearer_none a h = elim (Bool-cases (equal_fold (take 7 a) (text "Bearer "))) [
  | inl same ↦ ground (arith, has_prefix_of_take 7 a (text "bearer ") same)
  | inr other ↦ rw other (ground arith)
]

is_empty_trim : (s : Text) → is_empty s ≡ true → is_empty (trim_space s) ≡ true
unfolding trim_space
is_empty_trim [] h = refl
is_empty_trim (c ∷ s) h = cc

api_key_passes :
    (store : KeyStore) (r : Request)
    → has_inbound_credential r ≡ false
    → api_key store [] [] r ≡ err no_credential
unfolding api_key has_inbound_credential
api_key_passes store r h = ground (
  arith,
  is_empty_trim (header_get r.header (text "X-API-Key")),
  is_empty_trim (values_get r.query (text "api_key")),
)

no_bearer :
    (r : Request)
    → has_inbound_credential r ≡ false
    → is_empty (extract_bearer (header_get r.header (text "Authorization"))) ≡ true
unfolding has_inbound_credential
no_bearer r h = extract_bearer_none (header_get r.header (text "Authorization")) (ground arith)

oidc_passes :
    (header_alg : Text → Option Text) (v : Option (Text → Result AuthError PortalIdentity))
    (r : Request)
    → has_inbound_credential r ≡ false
    → oidc_bearer header_alg v r ≡ err no_credential
unfolding oidc_bearer
oidc_passes header_alg none r h = refl
oidc_passes header_alg (some validate) r h = rw (no_bearer r h)

bearer_passes :
    (tokens : List FileToken) (r : Request)
    → has_inbound_credential r ≡ false
    → bearer tokens r ≡ err no_credential
unfolding bearer
bearer_passes tokens r h = rw (no_bearer r h)

-- The context's identity never hides a credential: a request that the middleware takes for one
-- without a credential carries none that the server's authenticators, under the default names,
-- would read. `validator` is none where OIDC is off.
pub bypass_misses_nothing :
    (store : KeyStore) (header_alg : Text → Option Text)
    (validator : Option (Text → Result AuthError PortalIdentity)) (tokens : List FileToken)
    (allow : Bool) (r : Request)
    → has_inbound_credential r ≡ false
    → authenticate
        (record {
          authenticators =
              api_key store [] [] ∷ oidc_bearer header_alg validator ∷ bearer tokens ∷ [];
          allow_anonymous = allow;
        })
        r
      ≡ (if allow then ok anonymous else err no_credential)
unfolding is_no_credential
bypass_misses_nothing store header_alg validator tokens allow r h = authenticate_none _ r (
  (no_credential, api_key_passes store r h, refl),
  (
    (no_credential, oidc_passes header_alg validator r h, refl),
    ((no_credential, bearer_passes tokens r h, refl), tt),
  ),
)

abbrev pub IsScriptClient : Option Chain → Request → PortalIdentity → Type 0
IsScriptClient chain r id =
    (c : Chain) × (caller : Identity) × (chain ≡ some c)
    × (has_credential r ≡ true)
    × (authenticate c r ≡ ok caller)
    × (str_eq caller.auth_type anonymous_type ≡ false)
    × (id ≡ adapt caller)

unless_anonymous-eq-some :
    (answer : Result AuthError Identity) (id : PortalIdentity)
    → unless_anonymous answer ≡ some id
    → (caller : Identity) × (answer ≡ ok caller)
      × (str_eq caller.auth_type anonymous_type ≡ false)
      × (id ≡ adapt caller)
unfolding unless_anonymous
unless_anonymous-eq-some (ok caller) id h =
    elim (Bool-cases (str_eq caller.auth_type anonymous_type)) [
      | inl same ↦ absurd (ground arith)
      | inr other ↦ (caller, refl, other, ground arith)
    ]
unless_anonymous-eq-some (err e) id h = cc

script_client-eq-some :
    (chain : Option Chain) (r : Request) (id : PortalIdentity)
    → script_client chain r ≡ some id
    → IsScriptClient chain r id
unfolding script_client
script_client-eq-some none r id h = cc
script_client-eq-some (some c) r id h = elim (Bool-cases (has_credential r)) [
  | inl wire ↦
      let (caller, found, named, same) =
        unless_anonymous-eq-some (authenticate c r) id (rw wire at h) in
      (c, caller, refl, wire, found, named, same)
  | inr bare ↦ absurd (ground arith)
]

-- The portal lets in whom the session names, and otherwise only a request with a credential that
-- the chain resolves to an identity that is not anonymous.
pub portal_never_anonymous :
    (session : Option (Request → Option PortalIdentity)) (chain : Option Chain) (r : Request)
    (id : PortalIdentity)
    → portal_admission session chain r ≡ some id
    → ((read : Request → Option PortalIdentity) × (session ≡ some read) × (read r ≡ some id))
      ⊎ IsScriptClient chain r id
unfolding portal_admission
portal_never_anonymous none chain r id h = inr (script_client-eq-some chain r id h)
portal_never_anonymous (some read) chain r id h = elim (Option-cases (read r)) [
  | inl absent ↦ inr (script_client-eq-some chain r id (rw (absent, portal_admission) at h))
  | inr (user, found) ↦ inl (read, refl, found ∙ (rw (found, portal_admission) at h))
]

-- A request that would change state and lacks X-Requested-With is answered with 403, and no
-- handler sees it.
pub csrf_blocks {ℓ} :
    {A : Type ℓ} (next next' : Request → Response A) (r : Request)
    → changes_state r.method ≡ true
    → is_empty (header_get r.header (text "X-Requested-With")) ≡ true
    → (require_csrf next r ≡ require_csrf next' r) × ((require_csrf next r).status ≡ 403)
unfolding require_csrf
csrf_blocks next next' r changes missing = rw changes (rw missing (refl, refl))

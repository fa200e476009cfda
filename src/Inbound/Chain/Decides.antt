-- ===== src/Inbound/Chain/Decides.antt =====
-- Which authenticator decides.
use api_test.Prelude.{
  ◌≡◌, refl, ◌∙◌, Bool, true, false, List, [], ◌∷◌, ◌++◌, Option, none, some, arith, All, inl, inr,
  if◌then◌else◌,
}
use api_test.Prelude.Result.{Result, ok, err, Result-cases}
use api_test.Std.Text.{Text, text, is_empty, str_eq}
use api_test.Std.Http.{Request, header_get}
use api_test.Inbound.Types.{
  Identity, AuthError, no_credential, invalid_credential, wrapped, is_no_credential, anonymous,
  anonymous_type, Authenticator, KeyStore,
}
use api_test.Inbound.Keys.{api_key}
use api_test.Inbound.Bearer.{bearer, extract_bearer, FileToken}
use api_test.Inbound.Oidc.{oidc_bearer, looks_like_jwt, PortalIdentity}
use api_test.Inbound.Chain.{Chain, walk, authenticate}

-- The authenticator finds no credential of its kind in the request.
abbrev pub Passes : Request → Authenticator → Type 0
Passes r a = (e : AuthError) × (a r ≡ err e) × (is_no_credential e ≡ true)

-- The authenticator finds a credential, good or bad.
abbrev pub Decides : Request → Authenticator → Type 0
Decides r a = (e : AuthError) → a r ≡ err e → is_no_credential e ≡ false

walk_skip :
    (allow : Bool) (r : Request) (before after : List Authenticator)
    → All (Passes r) before
    → walk allow r (before ++ after) ≡ walk allow r after
unfolding walk
walk_skip allow r [] after h = refl
walk_skip allow r (a ∷ before) after ((e, passed, none_found), h) =
    rw (passed, walk) (rw none_found (walk_skip allow r before after h))

All-pass :
    (allow : Bool) (r : Request) (auths : List Authenticator)
    → All (Passes r) auths
    → walk allow r auths ≡ (if allow then ok anonymous else err no_credential)
unfolding walk
All-pass allow r [] h = refl
All-pass allow r (a ∷ auths) ((e, passed, none_found), h) =
    rw (passed, walk) (rw none_found (All-pass allow r auths h))

walk_decided :
    (allow : Bool) (r : Request) (a : Authenticator) (after : List Authenticator)
    → Decides r a
    → walk allow r (a ∷ after) ≡ a r
unfolding walk
walk_decided allow r a after h = elim (Result-cases (a r)) [
  | inl (id, accepted) ↦ rw (accepted, walk)
  | inr (e, refused) ↦ rw (refused, walk) (rw (h e refused))
]

-- The first authenticator that admits the request or fails with anything but a missing credential
-- decides: its result is the chain's, whatever stands behind it, and no anonymous identity is
-- given.
pub authenticate_decided :
    (allow : Bool) (r : Request) (before after : List Authenticator) (a : Authenticator)
    → All (Passes r) before
    → Decides r a
    → authenticate (record { authenticators = before ++ a ∷ after; allow_anonymous = allow }) r
      ≡ a r
unfolding authenticate
authenticate_decided allow r before after a passed decides =
    walk_skip allow r before (a ∷ after) passed ∙ walk_decided allow r a after decides

-- If every authenticator finds its credential missing, the request is the anonymous caller where
-- that is allowed, and has no credential otherwise.
pub authenticate_none :
    (c : Chain) (r : Request)
    → All (Passes r) c.authenticators
    → authenticate c r ≡ (if c.allow_anonymous then ok anonymous else err no_credential)
unfolding authenticate
authenticate_none c r passed = All-pass c.allow_anonymous r c.authenticators passed

-- What the three authenticators of the server answer is never anonymous.
abbrev pub IsNamed : Authenticator → Type 0
IsNamed a = (r : Request) (id : Identity) → a r ≡ ok id → str_eq id.auth_type anonymous_type ≡ false

pub api_key-IsNamed :
    (store : KeyStore) (header query : Text) → IsNamed (api_key store header query)
unfolding api_key str_eq
api_key-IsNamed store header query r id h = ground arith

pub bearer-IsNamed : (tokens : List FileToken) → IsNamed (bearer tokens)
unfolding bearer str_eq
bearer-IsNamed tokens r id h = ground arith

pub oidc_bearer-IsNamed :
    (header_alg : Text → Option Text) (v : Option (Text → Result AuthError PortalIdentity))
    → IsNamed (oidc_bearer header_alg v)
unfolding oidc_bearer str_eq
oidc_bearer-IsNamed header_alg none r id h = cc
oidc_bearer-IsNamed header_alg (some validate) r id h = ground arith

pub oidc_refuses :
    (header_alg : Text → Option Text) (validate : Text → Result AuthError PortalIdentity)
    (r : Request) (token : Text) (e : AuthError)
    → extract_bearer (header_get r.header (text "Authorization")) ≡ token
    → is_empty token ≡ false
    → looks_like_jwt header_alg token ≡ true
    → validate token ≡ err e
    → oidc_bearer header_alg (some validate) r ≡ err (wrapped invalid_credential e)
unfolding oidc_bearer
oidc_refuses header_alg validate r token e same full jwt failed = ground arith

-- A bearer token that does not look like a JWT is left to the authenticators behind.
pub oidc_static_token :
    (header_alg : Text → Option Text) (validate : Text → Result AuthError PortalIdentity)
    (allow : Bool) (rest : List Authenticator) (r : Request)
    → looks_like_jwt header_alg (extract_bearer (header_get r.header (text "Authorization")))
      ≡ false
    → authenticate
        (record {
          authenticators = oidc_bearer header_alg (some validate) ∷ rest;
          allow_anonymous = allow;
        })
        r
      ≡ authenticate (record { authenticators = rest; allow_anonymous = allow }) r
unfolding authenticate oidc_bearer is_no_credential walk
oidc_static_token header_alg validate allow rest r plain = ground arith

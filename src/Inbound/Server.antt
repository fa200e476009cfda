-- ===== src/Inbound/Server.antt =====
-- The chain that the server puts together (Build of internal/server/server.go).
use api_test.Prelude.{
  ◌≡◌, ◌⊎◌, inl, inr, sym, ◌∙◌, Bool, true, false, List, [], ◌∷◌, Option, none, some, Bool-cases,
}
use api_test.Prelude.Result.{Result, ok, err, Result-cases}
use api_test.Std.Text.{Text, text, is_empty}
use api_test.Std.Http.{Request, header_get}
use api_test.Inbound.Types.{
  Identity, AuthError, invalid_credential, wrapped, is_no_credential, Authenticator, KeyStore,
}
use api_test.Inbound.Keys.{api_key}
use api_test.Inbound.Bearer.{bearer, extract_bearer, FileToken}
use api_test.Inbound.Oidc.{oidc_bearer, looks_like_jwt, PortalIdentity}
use api_test.Inbound.Chain.{Chain, new_chain, authenticate}
use api_test.Inbound.Chain.Decides.{Passes, Decides, authenticate_decided, oidc_refuses}

with_oidc :
    (Text → Option Text)
    → Option (Text → Result AuthError PortalIdentity)
    → List (Option Authenticator)
    → List (Option Authenticator)
unfolding oidc_bearer
with_oidc header_alg none auths = auths
with_oidc header_alg (some validate) auths = some (oidc_bearer header_alg (some validate)) ∷ auths

-- API keys, then OIDC where there is a validator, then static bearer tokens.
unfoldable pub server_chain :
    KeyStore
    → Text
    → Text
    → (Text → Option Text)
    → Option (Text → Result AuthError PortalIdentity)
    → List FileToken
    → Bool
    → Chain
unfolding new_chain api_key with_oidc bearer
server_chain store header_name query_param header_alg validator tokens allow = new_chain allow (
    some (api_key store header_name query_param)
    ∷ with_oidc header_alg validator (some (bearer tokens) ∷ []))

module _ (store : KeyStore) (header_name query_param : Text) (header_alg : Text → Option Text)
    (validate : Text → Result AuthError PortalIdentity) (tokens : List FileToken) (allow : Bool)
    (r : Request) where
  abbrev key : Authenticator
  key = api_key store header_name query_param

  abbrev jwt : Authenticator
  jwt = oidc_bearer header_alg (some validate)

  abbrev chain : Chain
  chain = server_chain store header_name query_param header_alg (some validate) tokens allow

  by_key : Decides r key → authenticate chain r ≡ key r
  unfolding server_chain
  by_key decides = authenticate_decided allow r [] (jwt ∷ bearer tokens ∷ []) key tt decides

  by_jwt : Passes r key → Decides r jwt → authenticate chain r ≡ jwt r
  unfolding server_chain
  by_jwt passes decides =
      authenticate_decided allow r (key ∷ []) (bearer tokens ∷ []) jwt (passes, tt) decides

  refusal-Decides :
      (a : Authenticator) (e : AuthError) → a r ≡ err e → is_no_credential e ≡ false → Decides r a
  refusal-Decides a e refused serious f again = let same : e ≡ f = cc in rw (← same) serious

  admission-Decides : (a : Authenticator) (id : Identity) → a r ≡ ok id → Decides r a
  admission-Decides a id admitted f again = absurd (clash (sym admitted ∙ again))
    where
      clash : ok id ≡ err f → ⊥
      clash e = cc

  -- A bearer token that looks like a JWT and fails validation, with an error that is no missing
  -- credential, lets nobody in by itself: either the request has an API key that admits it, and the
  -- caller is the key's, or it is refused, and never with a missing credential, so that it is neither
  -- the caller of a static token nor the anonymous one, whatever the static tokens are and also where
  -- anonymous callers are allowed.
  pub oidc_no_fallthrough :
      (token : Text) (e : AuthError)
      → extract_bearer (header_get r.header (text "Authorization")) ≡ token
      → is_empty token ≡ false
      → looks_like_jwt header_alg token ≡ true
      → validate token ≡ err e
      → is_no_credential e ≡ false
      → ((id : Identity) × (api_key store header_name query_param r ≡ ok id)
          × (authenticate
                (server_chain store header_name query_param header_alg (some validate) tokens allow)
                r
              ≡ ok id))
        ⊎ ((refusal : AuthError) × (authenticate
                (server_chain store header_name query_param header_alg (some validate) tokens allow)
                r
              ≡ err refusal)
            × (is_no_credential refusal ≡ false))
  unfolding is_no_credential
  oidc_no_fallthrough token e same full jwt_shaped failed serious = elim (Result-cases (key r)) [
    | inl (id, admitted) ↦ inl (id, admitted, by_key (admission-Decides key id admitted) ∙ admitted)
    | inr (f, rejected) ↦ elim (Bool-cases (is_no_credential f)) [
      | inr decided ↦ inr (f, by_key (refusal-Decides key f rejected decided) ∙ rejected, decided)
      | inl none_found ↦
          let refused = oidc_refuses header_alg validate r token e same full jwt_shaped failed in
          inr (
            wrapped invalid_credential e,
            by_jwt (f, rejected, none_found)
                  (refusal-Decides jwt (wrapped invalid_credential e) refused serious)
                ∙ refused,
            serious,
          )
    ]
  ]

-- ===== src/Config/Loaded.antt =====
-- What a configuration that loads has.
use api_test.Prelude.{
  ℕ, ◌≡◌, ◌≢◌, refl, ap, Bool, true, false, not, ◌&&◌, ◌||◌, List, [], ◌∷◌, ◌++◌, Option, zero, suc,
  arith,
}
use api_test.Prelude.Int.{ℤ, pos, negsuc, pos_part}
use api_test.Prelude.Result.{Result, ok, err, >>=-eq-ok}
use api_test.Std.Text.{Text, text, is_empty}
use api_test.Inbound.Keys.{key_header, key_query}
use api_test.Audit.Event.{AuditOptions, with_defaults}
use api_test.Config.Types.{Config}
use api_test.Config.Load.{
  default_text, default_int, default_list, apply_defaults, server_defaults, has_inbound_auth, note,
  complaints, accepted, validate, prefixed, expand_env, load,
}

-- What the validation asks for.
pub record IsAllowed (insecure : Bool) (c : Config) : Type 0 where
  pub has_database : ((c.audit.enabled || c.api_keys.db_enabled) && is_empty c.database.url) ≡ false
  pub has_secret : (c.portal.enabled && is_empty c.portal.cookie_secret) ≡ false
  pub has_issuer : (c.oidc.enabled && is_empty c.oidc.issuer) ≡ false
  pub checks_signatures : (c.oidc.skip_signature_verification && not insecure) ≡ false
  pub authenticates : (not (has_inbound_auth c) && not c.allow_anonymous) ≡ false
  pub has_admin : (c.register.enabled && is_empty c.register.admin_url) ≡ false

-- What is set in every configuration with defaults.
pub record IsComplete (c : Config) : Type 0 where
  pub named : is_empty c.server.name ≡ false
  pub addressed : is_empty c.server.address ≡ false
  pub based : is_empty c.server.base_url ≡ false
  pub key_header_set : is_empty c.api_keys.header_name ≡ false
  pub key_query_set : is_empty c.api_keys.query_param_name ≡ false
  pub cookie_named : is_empty c.portal.cookie_name ≡ false
  pub payload_bounded : c.audit.max_payload_bytes ≢ pos 0
  pub cache_timed : c.oidc.jwks_cache_ttl ≢ pos 0
  pub redacts : c.audit.redact_keys ≢ []

default_text-set :
    (t default : Text) → is_empty default ≡ false → is_empty (default_text t default) ≡ false
default_text-set [] default set = set
default_text-set (c ∷ t) default set = refl

note-nil :
    (test : Bool) (message : Text) (errs : List Text)
    → note test message errs ≡ []
    → (test ≡ false) × (errs ≡ [])
note-nil false message errs h = (refl, h)
note-nil true message errs h = cc

complaints-IsAllowed :
    (insecure : Bool) (c : Config) → complaints insecure c ≡ [] → IsAllowed insecure c
unfolding complaints
complaints-IsAllowed insecure c h =
    let (database, h1) = note-nil _ _ _ h in
    let (secret, h2) = note-nil _ _ _ h1 in
    let (issuer, h3) = note-nil _ _ _ h2 in
    let (signatures, h4) = note-nil _ _ _ h3 in
    let (inbound, h5) = note-nil _ _ _ h4 in
    let (admin, _) = note-nil _ _ _ h5 in
    record {
      has_database = database;
      has_secret = secret;
      has_issuer = issuer;
      checks_signatures = signatures;
      authenticates = inbound;
      has_admin = admin;
    }

accepted-eq-ok : (c d : Config) (errs : List Text) → accepted c errs ≡ ok d → (errs ≡ []) × (d ≡ c)
unfolding accepted
accepted-eq-ok c d [] h = (refl, cc)
accepted-eq-ok c d (e ∷ errs) h = cc

default_int-set : (n : ℤ) (default : ℕ) → (default ≡ 0 → ⊥) → default_int n default ≢ pos 0
default_int-set (pos zero) default set h = set (ap pos_part h)
default_int-set (pos (suc n)) default set h = omega (arith, ap pos_part h)
default_int-set (negsuc n) default set h = clash h
  where
    clash : negsuc n ≡ pos 0 → ⊥
    clash e = cc

default_list-set : (ts default : List Text) → default ≢ [] → default_list ts default ≢ []
default_list-set [] default set h = set h
default_list-set (t ∷ ts) default set h = cc

apply_defaults-IsComplete :
    (description : Text) (c : Config) → IsComplete (apply_defaults description c)
unfolding apply_defaults server_defaults
apply_defaults-IsComplete description c = record {
  named = default_text-set c.server.name (text "api-test") refl;
  addressed = default_text-set c.server.address (text ":8080") refl;
  based = default_text-set c.server.base_url _ refl;
  key_header_set = default_text-set c.api_keys.header_name (text "X-API-Key") refl;
  key_query_set = default_text-set c.api_keys.query_param_name (text "api_key") refl;
  cookie_named = default_text-set c.portal.cookie_name (text "api_test_session") refl;
  payload_bounded = default_int-set c.audit.max_payload_bytes 1048576 (λ e. omega arith);
  cache_timed = default_int-set c.oidc.jwks_cache_ttl 3600000000000 (λ e. omega arith);
  redacts = default_list-set c.audit.redact_keys _ (λ e. some_key e);
}
  where
    some_key : {t : Text} {ts : List Text} → t ∷ ts ≡ [] → ⊥
    some_key e = cc

prefixed-eq-ok {ℓ} :
    {A : Type ℓ} (prefix : Text) (r : Result Text A) {a : A} → prefixed prefix r ≡ ok a → r ≡ ok a
unfolding prefixed
prefixed-eq-ok prefix (ok a) h = cc
prefixed-eq-ok prefix (err e) h = cc

-- A configuration that loads is complete, and is one that the validation allows: whatever the file and
-- the environment say, it has a way to authenticate callers or lets anonymous ones in, checks the
-- signatures of tokens unless APITEST_INSECURE is set, has a secret for the portal's cookies, an issuer,
-- a database and an admin's URL where they are needed, and has no empty name for a key's header, query
-- parameter or cookie, no cap of 0 bytes on payloads, no cache time of 0 and some redaction key.
pub loaded_config :
    (env : Text → Option Text) (insecure : Bool) (description : Text)
    (unmarshal : Text → Result Text Config) (path : Text) (file : Result Text Text) (c : Config)
    → load env insecure description unmarshal path file ≡ ok c
    → IsComplete c × IsAllowed insecure c
unfolding load validate
loaded_config env insecure description unmarshal path file c h =
    let (raw, _, h1) = >>=-eq-ok (prefixed (text "read config " ++ (path ++ text ": ")) file) _ h in
    let (d, _, h2) =
      >>=-eq-ok (prefixed (text "parse config: ") (unmarshal (expand_env env raw))) _ h1 in
    let (clean, same) =
      accepted-eq-ok (apply_defaults description d) c
        (complaints insecure (apply_defaults description d)) h2 in
    rw same (
      apply_defaults-IsComplete description d,
      complaints-IsAllowed insecure (apply_defaults description d) clean,
    )

key_default : (name : Text) → key_header (default_text name (text "X-API-Key")) ≡ key_header name
unfolding key_header
key_default [] = refl
key_default (c ∷ name) = refl

query_default : (name : Text) → key_query (default_text name (text "api_key")) ≡ key_query name
unfolding key_query
query_default [] = refl
query_default (c ∷ name) = refl

cap_default :
    (o : AuditOptions) (n : ℤ)
    → with_defaults (record o { max_payload_bytes = default_int n 1048576 })
      ≡ with_defaults (record o { max_payload_bytes = n })
unfolding with_defaults
cap_default o (pos zero) = refl
cap_default o (pos (suc n)) = refl
cap_default o (negsuc n) = refl

-- The configuration's defaults are those of the parts that it configures: the header and the query
-- parameter of an API key's authenticator and the audit middleware's cap on payloads are the same with
-- the raw configuration as with the one with defaults.
defaults_agree :
    (description : Text) (c : Config) (o : AuditOptions)
    → (key_header (apply_defaults description c).api_keys.header_name
        ≡ key_header c.api_keys.header_name)
      × (key_query (apply_defaults description c).api_keys.query_param_name
          ≡ key_query c.api_keys.query_param_name)
      × ((with_defaults (record o {
        max_payload_bytes = (apply_defaults description c).audit.max_payload_bytes;
      }))
          ≡ with_defaults (record o { max_payload_bytes = c.audit.max_payload_bytes }))
unfolding apply_defaults
defaults_agree description c o = (
  key_default c.api_keys.header_name,
  query_default c.api_keys.query_param_name,
  cap_default o c.audit.max_payload_bytes,
)

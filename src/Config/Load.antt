-- ===== src/Config/Load.antt =====
-- Loading a configuration: variables of the environment, defaults and validation
-- (pkg/config/config.go).
use api_test.Prelude.{
  ℕ, zero, suc, ◌+◌, ◌==◌, Bool, true, false, not, ◌&&◌, ◌||◌, List, [], ◌∷◌, ◌++◌, Option, none,
  some, leb, length, drop, if◌then◌else◌,
}
use api_test.Prelude.Int.{ℤ, pos}
use api_test.Prelude.Result.{Result, ok, err, ◌>>=◌}
use api_test.Std.Text.{Text, text, is_empty, has_prefix}
use api_test.Pagination.Handlers.{join}
use api_test.Config.Types.{ServerConfig, Config}

abbrev is_word : ℕ → Bool
is_word c =
    (leb b'a' c && leb c b'z')
    || (leb b'A' c && leb c b'Z')
    || (leb b'0' c && leb c b'9')
    || (c == b'_')

abbrev starts_word : Text → Bool
starts_word [] = false
starts_word (c ∷ s) = is_word c && not (leb b'0' c && leb c b'9')

-- The longest run of bytes that pass, and what follows it.
unfoldable pub span : (ℕ → Bool) → Text → Text × Text
span test [] = ([], [])
span test (c ∷ s) = let (run, rest) = span test s in if test c then (c ∷ run, rest) else ([], c ∷ s)

up_to_brace : Text → Option (Text × ℕ)
unfolding span
up_to_brace s =
    let (default, rest) = span (λ c. not (c == b'}')) s in
    elim rest [ [] ↦ none | c ∷ more ↦ some (default, 3 + length default) ]

-- The default of a reference, after its name, and the number of bytes up to its end.
unfoldable pub reference_end : Text → Option (Text × ℕ)
unfolding has_prefix up_to_brace
reference_end s =
    if has_prefix s (text "}")
    then some ([], 1)
    else if has_prefix s (text ":-")
    then up_to_brace (drop 2 s)
    else none

-- A match of envPattern behind a dollar sign: the name, the default and the bytes up to its end.
unfoldable pub reference : Text → Option (Text × Text × ℕ)
unfolding span reference_end
reference [] = none
reference (c ∷ s) =
    let (name, rest) = span is_word s in
    elim (reference_end rest) [
      | none ↦ none
      | some found ↦
          if (c == b'{') && starts_word s
          then some (name, found.0, suc (length name + found.1))
          else none
    ]

value_of : (Text → Option Text) → Text → Text → Text
value_of env name default = elim (env name) [ none ↦ default | some v ↦ v ]

-- ReplaceAllStringFunc over envPattern, where `skip` bytes of a match are left to pass.
unfoldable pub expand_from : (Text → Option Text) → ℕ → Text → Text
unfolding reference value_of
expand_from env skip [] = []
expand_from env (suc skip) (c ∷ s) = expand_from env skip s
expand_from env zero (c ∷ s) = elim (if c == b'$' then reference s else none) [
  | none ↦ c ∷ expand_from env zero s
  | some found ↦ value_of env found.0 found.1 ++ expand_from env found.2 s
]

unfoldable pub expand_env : (Text → Option Text) → Text → Text
unfolding expand_from
expand_env env s = expand_from env zero s

-- The suffix from the last colon on.
last_port : Text → Option Text
last_port [] = none
last_port (c ∷ s) = elim (last_port s) [
  | some port ↦ some port
  | none ↦ if c == b':' then some (c ∷ s) else none
]

unfoldable pub port_from_addr : Text → Text
unfolding last_port
port_from_addr addr = elim (last_port addr) [ none ↦ text ":8080" | some port ↦ port ]

abbrev pub default_text : Text → Text → Text
default_text t default = if is_empty t then default else t

abbrev pub default_int : ℤ → ℕ → ℤ
default_int (pos zero) default = pos default
default_int n default = n

abbrev pub default_list : List Text → List Text → List Text
default_list [] default = default
default_list (t ∷ ts) default = t ∷ ts

abbrev hour : ℕ
hour = 3600000000000

abbrev redact_keys_default : List Text
redact_keys_default =
    text "password"
    ∷ text "token"
    ∷ text "secret"
    ∷ text "authorization"
    ∷ text "api_key"
    ∷ text "api-key"
    ∷ text "credentials"
    ∷ text "bearer"
    ∷ text "cookie"
    ∷ text "jwt"
    ∷ text "session_id"
    ∷ text "private_key"
    ∷ text "passwd"
    ∷ []

-- `description` is DefaultServerDescription.
unfoldable pub server_defaults : Text → ServerConfig → ServerConfig
unfolding port_from_addr
server_defaults description s =
    let address = default_text s.address (text ":8080") in
    record {
      name = default_text s.name (text "api-test");
      address = address;
      base_url = default_text s.base_url (text "http://localhost" ++ port_from_addr address);
      description = default_text s.description description;
      read_header_timeout = default_int s.read_header_timeout 10000000000;
      shutdown = record {
        grace_period = default_int s.shutdown.grace_period 25000000000;
        pre_shutdown_delay = default_int s.shutdown.pre_shutdown_delay 2000000000;
      };
    }

unfoldable pub apply_defaults : Text → Config → Config
unfolding server_defaults
apply_defaults description c = record c {
  server = server_defaults description c.server;
  oidc = record (c.oidc) {
    clock_skew_seconds = default_int c.oidc.clock_skew_seconds 30;
    jwks_cache_ttl = default_int c.oidc.jwks_cache_ttl hour;
  };
  api_keys = record (c.api_keys) {
    header_name = default_text c.api_keys.header_name (text "X-API-Key");
    query_param_name = default_text c.api_keys.query_param_name (text "api_key");
  };
  database = record (c.database) {
    max_open_conns = default_int c.database.max_open_conns 25;
    max_idle_conns = default_int c.database.max_idle_conns 5;
    conn_max_lifetime = default_int c.database.conn_max_lifetime hour;
  };
  audit = record (c.audit) {
    retention_days = default_int c.audit.retention_days 7;
    max_payload_bytes = default_int c.audit.max_payload_bytes 1048576;
    redact_keys = default_list c.audit.redact_keys redact_keys_default;
  };
  portal = record (c.portal) {
    cookie_name = default_text c.portal.cookie_name (text "api_test_session");
    oidc_redirect_path = default_text c.portal.oidc_redirect_path (text "/portal/auth/callback");
  };
  register = record (c.register) {
    conn_name = default_text c.register.conn_name (text "api-test");
  };
}

unfoldable pub is_nil {ℓ} : {A : Type ℓ} → List A → Bool
is_nil [] = true
is_nil (_ ∷ _) = false

unfoldable pub has_inbound_auth : Config → Bool
unfolding is_nil
has_inbound_auth c =
    c.oidc.enabled
    || not (is_nil c.api_keys.file)
    || c.api_keys.db_enabled
    || not (is_nil c.bearer_tokens)

abbrev pub note : Bool → Text → List Text → List Text
note false message errs = errs
note true message errs = message ∷ errs

-- The messages of Validate; `insecure` tells that APITEST_INSECURE is 1.
unfoldable pub complaints : Bool → Config → List Text
unfolding has_inbound_auth
complaints insecure c =
    note ((c.audit.enabled || c.api_keys.db_enabled) && is_empty c.database.url)
      (text "database.url is required when audit.enabled or api_keys.db.enabled")
      (note (c.portal.enabled && is_empty c.portal.cookie_secret)
        (text "portal.cookie_secret is required when portal.enabled=true")
        (note (c.oidc.enabled && is_empty c.oidc.issuer)
          (text "oidc.issuer is required when oidc.enabled=true")
          (note (c.oidc.skip_signature_verification && not insecure)
            (text "oidc.skip_signature_verification requires APITEST_INSECURE=1")
            (note (not (has_inbound_auth c) && not c.allow_anonymous)
              (text
                "no inbound auth method enabled: configure oidc, api_keys, bearer.tokens, or auth.allow_anonymous")
              (note (c.register.enabled && is_empty c.register.admin_url)
                (text "plexara.register.admin_url is required when plexara.register.enabled=true")
                [])))))

unfoldable pub accepted : Config → List Text → Result Text Config
accepted c [] = ok c
accepted c (e ∷ errs) = err (text "invalid config: " ++ join (text "; ") (e ∷ errs))

unfoldable pub validate : Bool → Config → Result Text Config
unfolding complaints accepted
validate insecure c = accepted c (complaints insecure c)

unfoldable pub prefixed {ℓ} : {A : Type ℓ} → Text → Result Text A → Result Text A
prefixed prefix (ok a) = ok a
prefixed prefix (err e) = err (prefix ++ e)

-- Load, with the file's content or the error of reading it, and the decoder of YAML.
unfoldable pub load :
    (Text → Option Text)
    → Bool
    → Text
    → (Text → Result Text Config)
    → Text
    → Result Text Text
    → Result Text Config
unfolding prefixed expand_env apply_defaults validate
load env insecure description unmarshal path file = do
  raw ← prefixed (text "read config " ++ (path ++ text ": ")) file
  c ← prefixed (text "parse config: ") (unmarshal (expand_env env raw))
  validate insecure (apply_defaults description c)

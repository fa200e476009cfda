-- ===== src/Config/Types.antt =====
-- The configuration's parts, as far as its defaults and its validation read them
-- (pkg/config/config.go). Durations are nanoseconds.
use api_test.Prelude.{Bool, List}
use api_test.Prelude.Int.{ℤ}
use api_test.Std.Text.{Text}
use api_test.Inbound.Keys.{FileKey}
use api_test.Inbound.Bearer.{FileToken}

pub record ShutdownConfig : Type 0 where
  pub grace_period : ℤ
  pub pre_shutdown_delay : ℤ

pub record ServerConfig : Type 0 where
  pub name : Text
  pub address : Text
  pub base_url : Text
  pub description : Text
  pub read_header_timeout : ℤ
  pub shutdown : ShutdownConfig

pub record OidcConfig : Type 0 where
  pub enabled : Bool
  pub issuer : Text
  pub clock_skew_seconds : ℤ
  pub jwks_cache_ttl : ℤ
  pub skip_signature_verification : Bool

pub record ApiKeysConfig : Type 0 where
  pub file : List FileKey
  pub db_enabled : Bool
  pub header_name : Text
  pub query_param_name : Text

pub record DatabaseConfig : Type 0 where
  pub url : Text
  pub max_open_conns : ℤ
  pub max_idle_conns : ℤ
  pub conn_max_lifetime : ℤ

pub record AuditConfig : Type 0 where
  pub enabled : Bool
  pub retention_days : ℤ
  pub redact_keys : List Text
  pub max_payload_bytes : ℤ

pub record PortalConfig : Type 0 where
  pub enabled : Bool
  pub cookie_name : Text
  pub cookie_secret : Text
  pub oidc_redirect_path : Text

pub record PlexaraRegisterConfig : Type 0 where
  pub enabled : Bool
  pub admin_url : Text
  pub conn_name : Text

pub record Config : Type 0 where
  pub server : ServerConfig
  pub oidc : OidcConfig
  pub api_keys : ApiKeysConfig
  pub bearer_tokens : List FileToken
  pub allow_anonymous : Bool
  pub database : DatabaseConfig
  pub audit : AuditConfig
  pub portal : PortalConfig
  pub register : PlexaraRegisterConfig

-- ===== src/Config/Tests.antt =====
-- A file, an environment and options at which the theorems on the configuration apply.
use api_test.Prelude.{◌≡◌, refl, true, false, [], Option, none, some, if◌then◌else◌}
use api_test.Prelude.Int.{pos}
use api_test.Prelude.Result.{ok}
use api_test.Std.Text.{Text, text, has_prefix, str_eq}
use api_test.Config.Types.{Config}
use api_test.Config.Load.{
  span, reference, reference_end, expand_from, expand_env, apply_defaults, complaints, accepted,
  validate, has_inbound_auth, prefixed, load,
}
use api_test.Config.Loaded.{IsAllowed, IsComplete, loaded_config}

abbrev env : Text → Option Text
env name = if str_eq name (text "PORT") then some (text "81") else none

expanded :
    expand_env env (text "a: ${PORT} $PORT ${HOST:-h:${x} ${9} ${NONE}.")
    ≡ text "a: 81 $PORT h:${x ${9} ."
unfolding expand_env expand_from reference reference_end span has_prefix str_eq
expanded = refl

abbrev raw : Config
raw = record {
  server = record {
    name = [];
    address = text "0.0.0.0:81";
    base_url = [];
    description = [];
    read_header_timeout = pos 0;
    shutdown = record { grace_period = pos 0; pre_shutdown_delay = pos 0 };
  };
  oidc = record {
    enabled = false;
    issuer = [];
    clock_skew_seconds = pos 0;
    jwks_cache_ttl = pos 0;
    skip_signature_verification = false;
  };
  api_keys = record { file = []; db_enabled = false; header_name = []; query_param_name = [] };
  bearer_tokens = [];
  allow_anonymous = true;
  database = record {
    url = [];
    max_open_conns = pos 0;
    max_idle_conns = pos 0;
    conn_max_lifetime = pos 0;
  };
  audit = record {
    enabled = false;
    retention_days = pos 0;
    redact_keys = [];
    max_payload_bytes = pos 0;
  };
  portal = record {
    enabled = false;
    cookie_name = [];
    cookie_secret = [];
    oidc_redirect_path = [];
  };
  register = record { enabled = false; admin_url = []; conn_name = [] };
}

abbrev config : Config
config = apply_defaults (text "d") raw

loads : load env false (text "d") (λ s. ok raw) (text "c.yaml") (ok (text "x")) ≡ ok config
unfolding load prefixed validate accepted complaints has_inbound_auth apply_defaults
loads = refl

loaded_config_example : IsComplete config × IsAllowed false config
loaded_config_example =
    loaded_config env false (text "d") (λ s. ok raw) (text "c.yaml") (ok (text "x")) config loads

-- ===== src/Config/Finalize.antt =====
-- `Config::finalize` and `try_load_config` of src/config.rs. The file system and the TOML parser
-- are arguments.
pub mod Complete
use azoth_balancer.Prelude.{ℕ, List, map, Option, none, some, max, Text, Result, get_or, or_some}
use azoth_balancer.Float.{Float}
use azoth_balancer.Config.{
  Config, ServerConfig, BalancerConfig, EndpointConfig, ConfigError, config_error,
  validate_and_dedupe_endpoints, get_default_endpoints, default_bind_addr,
  default_health_check_interval_secs, default_health_check_timeout_secs, default_base_cooldown_secs,
  default_max_cooldown_secs, default_max_batch_size, default_max_concurrency,
  default_connect_timeout_ms, default_timeout_secs, default_pool_idle_timeout_secs,
  default_pool_max_idle_per_host, default_endpoint_weight,
}

-- `ServerConfig::default()` and `BalancerConfig::default()`
abbrev pub default_server : ServerConfig
default_server = record { bind_addr = none }

abbrev pub default_balancer : {F : Type 0} → BalancerConfig F
default_balancer = record {
  health_check_interval_secs = none;
  health_check_timeout_secs = none;
  base_cooldown_secs = none;
  max_cooldown_secs = none;
  latency_smoothing_factor = none;
  endpoints = none;
  max_batch_size = none;
  max_concurrency = none;
  connect_timeout_ms = none;
  timeout_secs = none;
  pool_idle_timeout_secs = none;
  pool_max_idle_per_host = none;
}

-- `Config::default()`
abbrev pub default_config : {F : Type 0} → Config F
default_config = record { server = none; balancer = none }

-- The last constraints on one endpoint.
unfoldable pub constrain : EndpointConfig → EndpointConfig
constrain ep = record ep {
  rate_limit_per_sec = max ep.rate_limit_per_sec 1;
  burst_size = max ep.burst_size 1;
  weight = or_some ep.weight default_endpoint_weight;
}

unfoldable pub finalize_server : ServerConfig → ServerConfig
finalize_server server_cfg = record server_cfg {
  bind_addr = or_some server_cfg.bind_addr default_bind_addr;
}

module _ {F : Type 0} (fl : Float F) where
  -- The defaults and the clamping of the settings; the endpoints are those that were validated.
  unfoldable pub finalize_balancer : BalancerConfig F → List EndpointConfig → BalancerConfig F
  finalize_balancer cfg endpoints = record {
    health_check_interval_secs =
        or_some cfg.health_check_interval_secs default_health_check_interval_secs;
    health_check_timeout_secs =
        or_some cfg.health_check_timeout_secs default_health_check_timeout_secs;
    base_cooldown_secs = or_some cfg.base_cooldown_secs default_base_cooldown_secs;
    max_cooldown_secs = or_some cfg.max_cooldown_secs default_max_cooldown_secs;
    latency_smoothing_factor =
        some (fl.clamp (get_or cfg.latency_smoothing_factor fl.tenth) fl.zero fl.one);
    endpoints = some (map constrain endpoints);
    max_batch_size = some (max (get_or cfg.max_batch_size default_max_batch_size) 1);
    max_concurrency = some (max (get_or cfg.max_concurrency default_max_concurrency) 1);
    connect_timeout_ms = or_some cfg.connect_timeout_ms default_connect_timeout_ms;
    timeout_secs = or_some cfg.timeout_secs default_timeout_secs;
    pool_idle_timeout_secs = or_some cfg.pool_idle_timeout_secs default_pool_idle_timeout_secs;
    pool_max_idle_per_host = or_some cfg.pool_max_idle_per_host default_pool_max_idle_per_host;
  }

  unfoldable pub finalize : Config F → Result ConfigError (Config F)
  unfolding finalize_balancer finalize_server
  finalize config =
      let balancer_cfg = get_or config.balancer default_balancer in
      elim (validate_and_dedupe_endpoints (get_or balancer_cfg.endpoints get_default_endpoints)) [
        | Result.err e ↦ Result.err e
        | Result.ok endpoints ↦ Result.ok (record {
          server = some (finalize_server (get_or config.server default_server));
          balancer = some (finalize_balancer balancer_cfg endpoints);
        })
      ]

-- What `fs::read_to_string` gives.
pub data FileRead : Type 0 where
  contents : Text → FileRead
  not_found : FileRead
  io_error : Text → FileRead

module _ {F : Type 0} (read_to_string : Text → FileRead)
    (from_toml : Text → Result Text (Config F)) where
  parsed : Result Text (Config F) → Result ConfigError (Option (Config F))
  parsed (Result.ok cfg) = Result.ok (some cfg)
  parsed (Result.err e) = Result.err (config_error e)

  loaded : FileRead → Result ConfigError (Option (Config F))
  unfolding parsed
  loaded (contents raw) = parsed (from_toml raw)
  loaded not_found = Result.ok none
  loaded (io_error e) = Result.err (config_error e)

  unfoldable pub try_load_config : Text → Result ConfigError (Option (Config F))
  unfolding loaded
  try_load_config path = loaded (read_to_string path)

-- ===== src/Reload.antt =====
-- src/config_reloader.rs: a new configuration in a running balancer. `none` is a panic. The order
-- of the lists that the code collects from hash sets is taken from the endpoint lists. Here nothing
-- runs between the reading of the endpoints and the writing of the new ones; Reload/Phases has the
-- two parts.
pub mod Rebuild
pub mod Quiet
pub mod Outcome
pub mod Applied
pub mod Safe
pub mod Counters
pub mod Phases
pub mod Finished
pub mod Begun
pub mod Race
use azoth_balancer.Prelude.{
  ℕ, ◌*◌, Bool, true, not, ◌||◌, List, [], ◌∷◌, ◌++◌, map, Option, none, some, Text, codes, text_eq,
  lookup, insert, ◌==◌, any, filter, find, length, get_or, wrap_u64, Result, ◌>>=◌, if◌then◌else◌,
}
use azoth_balancer.Float.{Float}
use azoth_balancer.Limiter.{RateLimiter, create_rate_limiter}
use azoth_balancer.Metrics.{
  Registry, set, init, remove, total_endpoints, healthy_endpoints, cooldown_seconds_gauge,
  cooldowns_triggered, endpoint_rate_limit_deferred, rpc_requests_succeeded, rpc_requests_failed,
  healthcheck_failed, request_latency_per_endpoint,
}
use azoth_balancer.Endpoint.{
  RpcEndpoint, LoadBalancerError, config_error, default_metrics, is_available,
}
use azoth_balancer.Config.{Config, BalancerConfig, EndpointConfig, ConfigError}
use azoth_balancer.Config
use azoth_balancer.Config.Finalize.{FileRead, finalize, default_config, try_load_config}
use azoth_balancer.Balancer.{Client, LoadBalancer, has_url}
use Rebuild.{Rebuilt, difference, modified_urls, rebuild, cleanup_all}

pub record ConfigChanges : Type 0 where
  pub endpoints_added : List Text
  pub endpoints_removed : List Text
  pub endpoints_modified : List Text
  pub config_updated : Bool
  pub client_rebuilt : Bool

pub record ReloadResponse : Type 0 where
  pub success : Bool
  pub message : Text
  pub error : Option Text
  pub changes : ConfigChanges

-- `LoadBalancerError::from`, with the message of `ConfigError`
pub from_config_error : ConfigError → LoadBalancerError
from_config_error (Config.config_error message) =
    config_error (codes "Configuration error: " ++ message)

-- How a reload ends without a response: with an error, or with the panic of the `expect` on the new
-- HTTP client, which comes before the first write and ends the task of the handler alone.
pub data ReloadError : Type 0 where
  failed : LoadBalancerError → ReloadError
  panicked : ReloadError

-- The settings that the `let … else` takes out of the finalized configuration.
pub record NewSettings (F : Type 0) : Type 0 where
  pub max_batch_size : ℕ
  pub base_cooldown_secs : ℕ
  pub max_cooldown_secs : ℕ
  pub health_check_interval_secs : ℕ
  pub health_check_timeout_secs : ℕ
  pub latency_smoothing_factor : F
  pub connect_timeout_ms : ℕ
  pub timeout_secs : ℕ
  pub pool_idle_timeout_secs : ℕ
  pub pool_max_idle_per_host : ℕ
  pub endpoints_list : List EndpointConfig

unfoldable pub new_settings : {F : Type 0} → BalancerConfig F → Option (NewSettings F)
new_settings cfg = do
  max_batch_size ← cfg.max_batch_size
  base_cooldown_secs ← cfg.base_cooldown_secs
  max_cooldown_secs ← cfg.max_cooldown_secs
  health_check_interval_secs ← cfg.health_check_interval_secs
  health_check_timeout_secs ← cfg.health_check_timeout_secs
  latency_smoothing_factor ← cfg.latency_smoothing_factor
  connect_timeout_ms ← cfg.connect_timeout_ms
  timeout_secs ← cfg.timeout_secs
  pool_idle_timeout_secs ← cfg.pool_idle_timeout_secs
  pool_max_idle_per_host ← cfg.pool_max_idle_per_host
  endpoints_list ← cfg.endpoints
  some (record {
    max_batch_size = max_batch_size;
    base_cooldown_secs = base_cooldown_secs;
    max_cooldown_secs = max_cooldown_secs;
    health_check_interval_secs = health_check_interval_secs;
    health_check_timeout_secs = health_check_timeout_secs;
    latency_smoothing_factor = latency_smoothing_factor;
    connect_timeout_ms = connect_timeout_ms;
    timeout_secs = timeout_secs;
    pool_idle_timeout_secs = pool_idle_timeout_secs;
    pool_max_idle_per_host = pool_max_idle_per_host;
    endpoints_list = endpoints_list;
  })

-- What the new HTTP client is built with.
abbrev pub new_client : {F : Type 0} → NewSettings F → Client
new_client new = record {
  connect_timeout_ms = new.connect_timeout_ms;
  timeout_secs = new.timeout_secs;
  pool_idle_timeout_secs = new.pool_idle_timeout_secs;
  pool_max_idle_per_host = new.pool_max_idle_per_host;
}

module _ {F L : Type 0} where
  unfoldable pub client_settings_changed : LoadBalancer F L → NewSettings F → Bool
  client_settings_changed b new =
      not (b.connect_timeout_ms == new.connect_timeout_ms)
      || not (b.timeout_secs == new.timeout_secs)
      || not (b.pool_idle_timeout_secs == new.pool_idle_timeout_secs)
      || not (b.pool_max_idle_per_host == new.pool_max_idle_per_host)

  -- Whether the `expect` of the new client goes through; without a change no client is built.
  unfoldable pub client_builds : (Client → Bool) → LoadBalancer F L → NewSettings F → Bool
  client_builds can_build b new = not (client_settings_changed b new) || can_build (new_client new)

  -- The client and its settings, once the client is built.
  unfoldable pub rebuild_client : LoadBalancer F L → NewSettings F → LoadBalancer F L
  rebuild_client b new =
      if client_settings_changed b new
      then record b {
        client = new_client new;
        connect_timeout_ms = new.connect_timeout_ms;
        timeout_secs = new.timeout_secs;
        pool_idle_timeout_secs = new.pool_idle_timeout_secs;
        pool_max_idle_per_host = new.pool_max_idle_per_host;
      }
      else b

  -- The last writes, and the two gauges.
  unfoldable pub install : LoadBalancer F L → NewSettings F → Rebuilt L → ℕ → LoadBalancer F L
  install b new r now = record b {
    endpoints = r.endpoints;
    rate_limiters = r.rate_limiters;
    max_batch_size = new.max_batch_size;
    base_cooldown_secs = new.base_cooldown_secs;
    max_cooldown_secs = new.max_cooldown_secs;
    health_check_interval_secs = new.health_check_interval_secs;
    health_check_timeout_secs = new.health_check_timeout_secs;
    latency_smoothing_factor = new.latency_smoothing_factor;
    registry =
        set healthy_endpoints [] (length (filter (λ e. is_available e now) r.endpoints))
        ∷ set total_endpoints [] (length new.endpoints_list)
        ∷ r.registry;
  }

abbrev pub urls : List RpcEndpoint → List Text
urls = map λ e. e.url

abbrev pub cfg_urls : List EndpointConfig → List Text
cfg_urls = map λ e. e.url

-- The response to a reload that went through.
unfoldable pub reloaded :
    {F L : Type 0} → LoadBalancer F L → NewSettings F → List Text → ReloadResponse
reloaded b new modified = record {
  success = true;
  message = codes "Configuration reloaded successfully";
  error = none;
  changes = record {
    endpoints_added = difference (cfg_urls new.endpoints_list) (urls b.endpoints);
    endpoints_removed = difference (urls b.endpoints) (cfg_urls new.endpoints_list);
    endpoints_modified = modified;
    config_updated = true;
    client_rebuilt = client_settings_changed b new;
  };
}

module _ {F L : Type 0} (rl : RateLimiter L) where
  -- `reload` from the point where the settings are known.
  unfoldable pub apply_settings :
      LoadBalancer F L → NewSettings F → ℕ → Option (ReloadResponse × LoadBalancer F L)
  apply_settings b new now = do
    let b1 = rebuild_client b new
    let removed = difference (urls b.endpoints) (cfg_urls new.endpoints_list)
    modified ← modified_urls b.endpoints new.endpoints_list
    rebuilt ←
        rebuild rl b1.timeout_secs now b.endpoints b.rate_limiters new.endpoints_list
          (record { endpoints = []; rate_limiters = []; registry = cleanup_all removed b.registry })
    some (reloaded b new modified, install b1 new rebuilt now)

module _ {F : Type 0} (fl : Float F) where
  unfoldable pub finalize_loaded :
      Result ConfigError (Option (Config F)) → Result ConfigError (Config F)
  finalize_loaded (Result.err e) = Result.err e
  finalize_loaded (Result.ok raw) = finalize fl (get_or raw default_config)

module _ {F L : Type 0} (fl : Float F) (rl : RateLimiter L) (can_build : Client → Bool) where
  -- The `let … else`, and what follows it.
  unfoldable pub reload_settings :
      LoadBalancer F L
      → ℕ
      → Option (NewSettings F)
      → Option (Result ReloadError ReloadResponse × LoadBalancer F L)
  reload_settings b now none =
      some (
        Result.err (failed (config_error (codes "Finalized config is missing required values."))),
        b,
      )
  reload_settings b now (some new) =
      let applied = apply_settings rl b new now in
      if client_builds can_build b new
      then (applied >>= λ done. some (Result.ok done.0, done.1))
      else some (Result.err panicked, b)

  -- The part of `reload` behind the loading of the file.
  unfoldable pub reload_with :
      LoadBalancer F L
      → ℕ
      → Result ConfigError (Config F)
      → Option (Result ReloadError ReloadResponse × LoadBalancer F L)
  unfolding from_config_error
  reload_with b now (Result.err e) = some (Result.err (failed (from_config_error e)), b)
  reload_with b now (Result.ok config) = do
    balancer_cfg ← config.balancer
    reload_settings b now (new_settings balancer_cfg)

  unfoldable pub reload :
      (read_to_string : Text → FileRead) (from_toml : Text → Result Text (Config F))
      → LoadBalancer F L
      → ℕ
      → Option (Result ReloadError ReloadResponse × LoadBalancer F L)
  unfolding reload_with finalize_loaded
  reload read_to_string from_toml b now =
      reload_with b now
        (finalize_loaded fl (try_load_config read_to_string from_toml b.config_path))

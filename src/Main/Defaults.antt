-- ===== src/Main/Defaults.antt =====
-- The start without a configuration file.
use azoth_balancer.Prelude.{
  ◌≤◌, arith, leb, ℕ, ◌≡◌, refl, true, Bool, List, map, none, some, Text, text_eq, Sat, Sat-value,
  Result, Option,
}
use azoth_balancer.Float.{Float}
use azoth_balancer.Limiter.{RateLimiter, create_rate_limiter}
use azoth_balancer.Metrics.{Registry}
use azoth_balancer.Config.{
  default_connect_timeout_ms, default_timeout_secs, default_pool_idle_timeout_secs,
  default_pool_max_idle_per_host, default_max_concurrency, Config, EndpointConfig,
  default_endpoints, default_bind_addr, get_default_endpoints, validate_and_dedupe_endpoints,
  keep_valid, sanitize, is_rejected,
}
use azoth_balancer.Config.Urls.{
  is_whitespace, is_control, to_lower, starts_with, has_scheme, trim_start, trim_end, trim,
  byte_len, canonicalize,
}
use azoth_balancer.Config.Finalize.{
  FileRead, not_found, try_load_config, finalize, finalize_server, finalize_balancer, constrain,
  default_config, default_server, default_balancer,
}
use azoth_balancer.Balancer.{Client, LoadBalancer, new, new_endpoint, init_limiters}
use azoth_balancer.Reload.{urls}
use azoth_balancer.Main.Program.{serves, config_arg, bind, create, start_with, start_main}

canonical : EndpointConfig → EndpointConfig
canonical e = record e { url = canonicalize e.url }

-- The HTTP client of the default settings.
abbrev pub default_client : Client
default_client = record {
  connect_timeout_ms = default_connect_timeout_ms;
  timeout_secs = default_timeout_secs;
  pool_idle_timeout_secs = default_pool_idle_timeout_secs;
  pool_max_idle_per_host = default_pool_max_idle_per_host;
}

valid_defaults : List EndpointConfig
unfolding canonical
valid_defaults = map canonical get_default_endpoints

defaults_valid : validate_and_dedupe_endpoints get_default_endpoints ≡ Result.ok valid_defaults
unfolding valid_defaults canonical get_default_endpoints validate_and_dedupe_endpoints keep_valid
    sanitize is_rejected canonicalize trim trim_start trim_end has_scheme starts_with to_lower
    byte_len is_control is_whitespace text_eq
defaults_valid = refl

module _ {F L : Type 0} (fl : Float F) (rl : RateLimiter L) (now : ℕ) (registry : Registry) where
  finalized_defaults : Config F
  finalized_defaults = record {
    server = some (finalize_server default_server);
    balancer = some (finalize_balancer fl default_balancer valid_defaults);
  }

  finalizes_defaults : finalize fl default_config ≡ Result.ok finalized_defaults
  unfolding finalize finalized_defaults
  finalizes_defaults = rw (defaults_valid, finalize) refl

  new-default :
      (can_build : Client → Bool) (max_permits : ℕ) (config_path : Text)
      → can_build default_client ≡ true
      → default_max_concurrency ≤ max_permits
      → Sat (new fl rl can_build max_permits none config_path now registry) (λ b.
        (b.bind_addr ≡ default_bind_addr)
        × (b.config_path ≡ config_path)
        × (urls b.endpoints ≡ map canonicalize default_endpoints))
  unfolding new finalized_defaults finalize_server finalize_balancer constrain new_endpoint
      init_limiters create_rate_limiter valid_defaults canonical get_default_endpoints
  new-default can_build max_permits config_path built fits =
      let permitted : leb default_max_concurrency max_permits ≡ true = ground (arith, fits) in
      rw (finalizes_defaults, built, permitted, Sat) (refl, refl, refl)

  -- With no file at the path, the program serves the default endpoints under their canonical URLs
  -- on the default address, given that this can be parsed and
  -- bound, the default HTTP client built, and a semaphore made for the default concurrency.
  pub start_main-default :
      {A : Type 0} (parse_addr : Text → Result Text A) (can_bind : A → Bool)
      (can_build : Client → Bool) (max_permits : ℕ) (read_to_string : Text → FileRead)
      (from_toml : Text → Result Text (Config F)) (path : Option Text) (addr : A)
      → read_to_string (config_arg path) ≡ not_found
      → parse_addr default_bind_addr ≡ Result.ok addr
      → can_bind addr ≡ true
      → can_build default_client ≡ true
      → default_max_concurrency ≤ max_permits
      → (b : LoadBalancer F L) × (start_main fl rl parse_addr can_bind can_build max_permits
            read_to_string from_toml path now registry
          ≡ serves b addr)
        × (b.bind_addr ≡ default_bind_addr)
        × (b.config_path ≡ config_arg path)
        × (urls b.endpoints ≡ map canonicalize default_endpoints)
  unfolding start_main start_with try_load_config create bind
  start_main-default parse_addr can_bind can_build max_permits read_to_string from_toml path addr
        missing parsed free built fits =
      let (b, made, (on, from, served)) =
        Sat-value (new fl rl can_build max_permits none (config_arg path) now registry)
          (new-default can_build max_permits (config_arg path) built fits) in
      (b, rw (missing, made, on, parsed, free) refl, on, from, served)

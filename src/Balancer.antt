-- ===== src/Balancer.antt =====
-- src/balancer.rs: the shared state of the balancer and its operations. Every operation takes the
-- state and returns the new one; the locks serialize the operations. The registry of metrics is
-- part of the state. The HTTP client is known by the arguments of its builder, and the semaphore
-- by its number of permits.
pub mod Invariant
pub mod Configured
pub mod Start
pub mod Marks
pub mod Recovery
pub mod Kept
pub mod Counters
use azoth_balancer.Prelude.{
  ℕ, ◌+◌, ◌*◌, Bool, true, false, List, [], ◌∷◌, map, Option, none, some, Text, text_eq, insert,
  filter, find, length, update_first, get_or, wrap_u64, Result, ◌>>=◌, collect, if◌then◌else◌, leb,
  ensure,
}
use azoth_balancer.Float.{Float}
use azoth_balancer.Limiter.{RateLimiter, create_rate_limiter}
use azoth_balancer.Metrics.{
  Registry, set, init, total_endpoints, healthy_endpoints, cooldown_seconds_gauge,
  cooldowns_triggered, endpoint_rate_limit_deferred, rpc_requests_succeeded, rpc_requests_failed,
  healthcheck_failed,
}
use azoth_balancer.Endpoint.{RpcEndpoint, default_metrics, is_available}
use azoth_balancer.Cooldown.{trigger_cooldown, update_gauges}
use azoth_balancer.Strategy.{select_best_endpoint}
use azoth_balancer.Config.{Config, EndpointConfig}
use azoth_balancer.Config.Finalize.{finalize, default_config}

-- The arguments of `Client::builder()` that depend on the configuration.
pub record Client : Type 0 where
  pub connect_timeout_ms : ℕ
  pub timeout_secs : ℕ
  pub pool_idle_timeout_secs : ℕ
  pub pool_max_idle_per_host : ℕ

pub record LoadBalancer (F L : Type 0) : Type 0 where
  pub endpoints : List RpcEndpoint
  pub rate_limiters : List (Text × L)
  pub client : Client
  pub bind_addr : Text
  pub health_check_interval_secs : ℕ
  pub health_check_timeout_secs : ℕ
  pub base_cooldown_secs : ℕ
  pub max_cooldown_secs : ℕ
  pub max_batch_size : ℕ
  pub latency_smoothing_factor : F
  pub concurrency_limiter : ℕ
  pub config_path : Text
  pub connect_timeout_ms : ℕ
  pub timeout_secs : ℕ
  pub pool_idle_timeout_secs : ℕ
  pub pool_max_idle_per_host : ℕ
  pub registry : Registry

-- An endpoint at the start: healthy, in no cooldown, with the timeout for its latency.
abbrev pub fresh_endpoint : (timeout_secs now weight : ℕ) → EndpointConfig → RpcEndpoint
fresh_endpoint timeout_secs now weight e = record {
  url = e.url;
  healthy = true;
  last_check = now;
  cooldown_until = none;
  cooldown_attempts = 0;
  rate_limit_per_sec = e.rate_limit_per_sec;
  burst_size = e.burst_size;
  weight = weight;
  metrics = record default_metrics { ema_latency_ms = wrap_u64 (timeout_secs * 1000) };
}

-- One endpoint that `new` collects.
unfoldable pub new_endpoint : ℕ → ℕ → EndpointConfig → Option RpcEndpoint
new_endpoint timeout_secs now e = do
  weight ← e.weight
  some (fresh_endpoint timeout_secs now weight e)

-- The `for` that creates the metrics of the endpoints.
init_metrics : List RpcEndpoint → Registry → Registry
init_metrics [] registry = registry
init_metrics (ep ∷ rest) registry = init_metrics rest (
    init healthcheck_failed ep.url
    ∷ init rpc_requests_failed ep.url
    ∷ init rpc_requests_succeeded ep.url
    ∷ init endpoint_rate_limit_deferred ep.url
    ∷ init cooldowns_triggered ep.url
    ∷ set cooldown_seconds_gauge ep.url 0
    ∷ registry)

abbrev pub has_url : Text → RpcEndpoint → Bool
has_url url ep = text_eq ep.url url

module _ {L : Type 0} (rl : RateLimiter L) where
  -- The `for` that creates the limiters.
  unfoldable pub init_limiters : List RpcEndpoint → List (Text × L) → Option (List (Text × L))
  init_limiters [] limiters = some limiters
  init_limiters (ep ∷ rest) limiters = do
    limiter ← create_rate_limiter rl ep.burst_size ep.rate_limit_per_sec
    init_limiters rest (insert ep.url limiter limiters)

-- `expect` on a result
abbrev pub expect {ℓ κ} : {E : Type κ} {A : Type ℓ} → Result E A → Option A
expect (Result.ok a) = some a
expect (Result.err e) = none

module _ {F L : Type 0} (fl : Float F) (rl : RateLimiter L) where
  -- `LoadBalancer::new`; `none` is a panic.
  -- `can_build` tells whether the `build()` of the HTTP client succeeds, and `max_permits` is the
  -- `MAX_PERMITS` of tokio, above which `Semaphore::new` panics.
  unfoldable pub new :
      (can_build : Client → Bool) (max_permits : ℕ)
      → Option (Config F)
      → Text
      → ℕ
      → Registry
      → Option (LoadBalancer F L)
  unfolding init_metrics
  new can_build max_permits config config_path now registry = do
    config' ← expect (finalize fl (get_or config default_config))
    server_cfg ← config'.server
    balancer_cfg ← config'.balancer
    bind_addr ← server_cfg.bind_addr
    health_check_interval ← balancer_cfg.health_check_interval_secs
    health_check_timeout ← balancer_cfg.health_check_timeout_secs
    base_cooldown ← balancer_cfg.base_cooldown_secs
    max_cooldown ← balancer_cfg.max_cooldown_secs
    max_batch_size ← balancer_cfg.max_batch_size
    latency_smoothing_factor ← balancer_cfg.latency_smoothing_factor
    max_concurrency ← balancer_cfg.max_concurrency
    connect_timeout_ms ← balancer_cfg.connect_timeout_ms
    timeout_secs ← balancer_cfg.timeout_secs
    pool_idle_timeout_secs ← balancer_cfg.pool_idle_timeout_secs
    pool_max_idle_per_host ← balancer_cfg.pool_max_idle_per_host
    endpoints_list ← balancer_cfg.endpoints
    endpoints ← collect (new_endpoint timeout_secs now) endpoints_list
    rate_limiters ← init_limiters rl endpoints []
    let client : Client = record {
      connect_timeout_ms = connect_timeout_ms;
      timeout_secs = timeout_secs;
      pool_idle_timeout_secs = pool_idle_timeout_secs;
      pool_max_idle_per_host = pool_max_idle_per_host;
    }
    _ ← ensure (can_build client)
    _ ← ensure (leb max_concurrency max_permits)
    some (record {
      endpoints = endpoints;
      rate_limiters = rate_limiters;
      client = client;
      bind_addr = bind_addr;
      health_check_interval_secs = health_check_interval;
      health_check_timeout_secs = health_check_timeout;
      base_cooldown_secs = base_cooldown;
      max_cooldown_secs = max_cooldown;
      max_batch_size = max_batch_size;
      latency_smoothing_factor = latency_smoothing_factor;
      concurrency_limiter = max_concurrency;
      config_path = config_path;
      connect_timeout_ms = connect_timeout_ms;
      timeout_secs = timeout_secs;
      pool_idle_timeout_secs = pool_idle_timeout_secs;
      pool_max_idle_per_host = pool_max_idle_per_host;
      registry = init_metrics endpoints (
          set healthy_endpoints [] (length endpoints)
          ∷ set total_endpoints [] (length endpoints)
          ∷ registry);
    })

  -- Stores the time of the selection, in seconds since the epoch, with the selected endpoint.
  unfoldable pub get_next_endpoint :
      LoadBalancer F L → (batch_size now unix_secs : ℕ) → Option Text × LoadBalancer F L
  get_next_endpoint b batch_size now unix_secs =
      let selection =
        select_best_endpoint rl b.endpoints batch_size now b.rate_limiters b.registry in
      let after = record b { rate_limiters = selection.limiters; registry = selection.registry } in
      elim selection.chosen [
        | none ↦ (none, after)
        | some ep ↦ (
          some ep.url,
          record after {
            endpoints =
                update_first (has_url ep.url)
                  (λ e. record e { metrics = record e.metrics { last_selected = unix_secs } })
                  b.endpoints;
          },
        )
      ]

module _ {F L : Type 0} where
  -- `trigger_cooldown` on the endpoint that was found, written back in its place.
  unfoldable pub put_into_cooldown : LoadBalancer F L → Text → ℕ → RpcEndpoint → LoadBalancer F L
  put_into_cooldown b url now ep =
      let (ep', registry) =
        trigger_cooldown ep b.base_cooldown_secs b.max_cooldown_secs now b.registry in
      record b {
        endpoints = update_first (has_url url) (λ _. ep') b.endpoints;
        registry = registry;
      }

  unfoldable pub mark_rate_limited : LoadBalancer F L → Text → ℕ → LoadBalancer F L
  unfolding put_into_cooldown
  mark_rate_limited b url now = elim (find (has_url url) b.endpoints) [
    | none ↦ b
    | some ep ↦ put_into_cooldown b url now ep
  ]

  unfoldable pub mark_unhealthy : LoadBalancer F L → Text → ℕ → LoadBalancer F L
  unfolding put_into_cooldown
  mark_unhealthy b url now = elim (find (has_url url) b.endpoints) [
    | none ↦ b
    | some ep ↦
        if ep.healthy then put_into_cooldown b url now (record ep { healthy = false }) else b
  ]

  unfoldable pub update_healthy_count : LoadBalancer F L → ℕ → LoadBalancer F L
  update_healthy_count b now = record b {
    registry =
        set healthy_endpoints [] (length (filter (λ e. is_available e now) b.endpoints))
        ∷ b.registry;
  }

  -- one tick of `cooldown_gauge_updater` in src/utils/cooldown.rs
  unfoldable pub cooldown_tick : LoadBalancer F L → ℕ → LoadBalancer F L
  cooldown_tick b now =
      update_healthy_count (record b { registry = update_gauges b.endpoints now b.registry }) now

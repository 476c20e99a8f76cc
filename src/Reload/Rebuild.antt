-- ===== src/Reload/Rebuild.antt =====
-- The parts of `reload` in src/config_reloader.rs that compare the new endpoints with the present
-- ones and build the new state of each.
use azoth_balancer.Prelude.{
  ℕ, not, ◌||◌, List, [], ◌∷◌, ◌++◌, Option, none, some, Text, text_eq, lookup, insert, ◌==◌, any,
  filter, find, ◌>>=◌, if◌then◌else◌,
}
use azoth_balancer.Limiter.{RateLimiter, create_rate_limiter}
use azoth_balancer.Metrics.{
  Registry, set, init, remove, cooldown_seconds_gauge, cooldowns_triggered,
  endpoint_rate_limit_deferred, rpc_requests_succeeded, rpc_requests_failed, healthcheck_failed,
  request_latency_per_endpoint,
}
use azoth_balancer.Endpoint.{RpcEndpoint}
use azoth_balancer.Config.{EndpointConfig}
use azoth_balancer.Balancer.{has_url, fresh_endpoint}

-- newest first
unfoldable pub cleanup_endpoint_metrics : Text → Registry → Registry
cleanup_endpoint_metrics url registry =
    remove request_latency_per_endpoint url
    ∷ remove healthcheck_failed url
    ∷ remove rpc_requests_failed url
    ∷ remove rpc_requests_succeeded url
    ∷ remove endpoint_rate_limit_deferred url
    ∷ remove cooldowns_triggered url
    ∷ remove cooldown_seconds_gauge url
    ∷ registry

unfoldable pub initialize_endpoint_metrics : Text → Registry → Registry
initialize_endpoint_metrics url registry =
    init healthcheck_failed url
    ∷ init rpc_requests_failed url
    ∷ init rpc_requests_succeeded url
    ∷ init endpoint_rate_limit_deferred url
    ∷ init cooldowns_triggered url
    ∷ set cooldown_seconds_gauge url 0
    ∷ registry

-- `difference` of the URLs of two lists
unfoldable pub difference : List Text → List Text → List Text
difference urls others = filter (λ url. not (any (text_eq url) others)) urls

-- The `for` that collects `endpoints_modified`; the weight is only read of an endpoint that is
-- there, and is the third operand of `||`.
unfoldable pub modified_urls : List RpcEndpoint → List EndpointConfig → Option (List Text)
modified_urls current [] = some []
modified_urls current (cfg ∷ rest) = do
  later ← modified_urls current rest
  elim (find (has_url cfg.url) current) [
    | none ↦ some later
    | some ep ↦
        if not (ep.rate_limit_per_sec == cfg.rate_limit_per_sec)
          || not (ep.burst_size == cfg.burst_size)
        then some (cfg.url ∷ later)
        else (cfg.weight >>= λ weight.
            some (if ep.weight == weight then later else cfg.url ∷ later))
  ]

-- What the loop over the new endpoints builds.
pub record Rebuilt (L : Type 0) : Type 0 where
  pub endpoints : List RpcEndpoint
  pub rate_limiters : List (Text × L)
  pub registry : Registry

-- The clone of an existing endpoint, with its metrics, under the new limits and weight.
abbrev pub updated_endpoint : RpcEndpoint → ℕ → EndpointConfig → RpcEndpoint
updated_endpoint existing weight cfg = record existing {
  rate_limit_per_sec = cfg.rate_limit_per_sec;
  burst_size = cfg.burst_size;
  weight = weight;
}

module _ {L : Type 0} (rl : RateLimiter L) where
  -- The limiter of an endpoint that is kept: a new one if its limits changed, or else the old one,
  -- if there is one.
  unfoldable pub kept_limiter :
      RpcEndpoint → EndpointConfig → Option L → List (Text × L) → Option (List (Text × L))
  kept_limiter existing cfg existing_limiter limiters =
      if not (existing.rate_limit_per_sec == cfg.rate_limit_per_sec)
        || not (existing.burst_size == cfg.burst_size)
      then (create_rate_limiter rl cfg.burst_size cfg.rate_limit_per_sec >>= λ limiter.
          some (insert cfg.url limiter limiters))
      else elim existing_limiter [
        | none ↦ some limiters
        | some limiter ↦ some (insert cfg.url limiter limiters)
      ]

  -- One round of the loop, for an endpoint that exists and for a new one.
  unfoldable pub rebuild_one :
      (timeout_secs now weight : ℕ)
      → List (Text × L)
      → EndpointConfig
      → Option RpcEndpoint
      → Rebuilt L
      → Option (Rebuilt L)
  unfolding kept_limiter
  rebuild_one timeout_secs now weight current_limiters cfg (some existing) r = do
    limiters ← kept_limiter existing cfg (lookup cfg.url current_limiters) r.rate_limiters
    some (record r {
      endpoints = r.endpoints ++ updated_endpoint existing weight cfg ∷ [];
      rate_limiters = limiters;
    })
  rebuild_one timeout_secs now weight current_limiters cfg none r = do
    limiter ← create_rate_limiter rl cfg.burst_size cfg.rate_limit_per_sec
    some (record {
      endpoints = r.endpoints ++ fresh_endpoint timeout_secs now weight cfg ∷ [];
      rate_limiters = insert cfg.url limiter r.rate_limiters;
      registry = initialize_endpoint_metrics cfg.url r.registry;
    })

  unfoldable pub rebuild :
      (timeout_secs now : ℕ)
      → List RpcEndpoint
      → List (Text × L)
      → List EndpointConfig
      → Rebuilt L
      → Option (Rebuilt L)
  rebuild timeout_secs now current current_limiters [] r = some r
  rebuild timeout_secs now current current_limiters (cfg ∷ rest) r = do
    weight ← cfg.weight
    r' ← rebuild_one timeout_secs now weight current_limiters cfg (find (has_url cfg.url) current) r
    rebuild timeout_secs now current current_limiters rest r'

unfoldable pub cleanup_all : List Text → Registry → Registry
unfolding cleanup_endpoint_metrics
cleanup_all [] registry = registry
cleanup_all (url ∷ rest) registry = cleanup_all rest (cleanup_endpoint_metrics url registry)

-- ===== src/Health.antt =====
-- src/utils/health.rs: a round of health checks. The requests run at once; their results arrive in
-- any order and are then applied one after the other. The results are an argument.
pub mod Round
pub mod Outcome
use azoth_balancer.Prelude.{
  ℕ, ◌*◌, Bool, true, false, not, List, [], ◌∷◌, map, Option, none, some, Text, find, update_first,
  wrap_u64, if◌then◌else◌,
}
use azoth_balancer.Float.{Float}
use azoth_balancer.Metrics.{Registry, inc, healthcheck_failed}
use azoth_balancer.Endpoint.{RpcEndpoint, EndpointMetrics, failure, ErrorKind, update, update_ema}
use azoth_balancer.Cooldown.{trigger_cooldown}
use azoth_balancer.Balancer.{LoadBalancer, has_url, update_healthy_count}

-- The URLs that a round sends requests to.
abbrev pub checked_urls : {F L : Type 0} → LoadBalancer F L → List Text
checked_urls b = map (λ ep. ep.url) b.endpoints

module _ {F : Type 0} (fl : Float F) where
  -- `consecutive_failures.store(0)` and the decay of the penalty on recovery
  unfoldable pub recover_metrics : EndpointMetrics → EndpointMetrics
  recover_metrics m = record m {
    consecutive_failures = 0;
    ema_error_penalty_ms = update_ema fl m.ema_error_penalty_ms 0 fl.half;
  }

  -- A result that is good, for an endpoint that was healthy and for one that was not.
  unfoldable pub passed_check : RpcEndpoint → ℕ → RpcEndpoint
  unfolding recover_metrics
  passed_check ep now =
      if ep.healthy then record ep { healthy = true; last_check = now } else record ep {
        healthy = true;
        last_check = now;
        metrics = recover_metrics ep.metrics;
        cooldown_attempts = 0;
        cooldown_until = none;
      }

module _ {F L : Type 0} (fl : Float F) where
  -- A result that is bad.
  unfoldable pub failed_check :
      LoadBalancer F L → (timeout_secs now : ℕ) → RpcEndpoint → RpcEndpoint × Registry
  failed_check b timeout_secs now ep =
      let ep' : RpcEndpoint = record ep {
        healthy = false;
        last_check = now;
        metrics =
            update fl ep.metrics (failure ErrorKind.timeout (wrap_u64 (timeout_secs * 1000)))
              b.latency_smoothing_factor;
      } in
      let registry = inc healthcheck_failed ep.url ∷ b.registry in
      if ep.healthy
      then trigger_cooldown ep' b.base_cooldown_secs b.max_cooldown_secs now registry
      else (ep', registry)

  -- One round of the `for` over the updates.
  unfoldable pub apply_update :
      LoadBalancer F L → (timeout_secs now : ℕ) → Text → Bool → LoadBalancer F L
  apply_update b timeout_secs now url is_healthy = elim (find (has_url url) b.endpoints) [
    | none ↦ b
    | some ep ↦
        let checked =
          if is_healthy
          then (passed_check fl ep now, b.registry)
          else failed_check b timeout_secs now ep in
        record b {
          endpoints = update_first (has_url url) (λ _. checked.0) b.endpoints;
          registry = checked.1;
        }
  ]

  unfoldable pub apply_updates :
      LoadBalancer F L → (timeout_secs now : ℕ) → List (Text × Bool) → LoadBalancer F L
  apply_updates b timeout_secs now [] = b
  apply_updates b timeout_secs now ((url, is_healthy) ∷ updates) =
      apply_updates (apply_update b timeout_secs now url is_healthy) timeout_secs now updates

  -- The end of `perform_health_checks`; `timeout_secs` was read at its start.
  unfoldable pub finish_health_checks :
      LoadBalancer F L → (timeout_secs now : ℕ) → List (Text × Bool) → LoadBalancer F L
  finish_health_checks b timeout_secs now updates =
      update_healthy_count (apply_updates b timeout_secs now updates) now

-- ===== src/Examples/Registering.antt =====
-- A registry of names, and a history of the metrics.
use azoth_balancer.Prelude.{
  ◌≡◌, refl, true, false, not, ◌&&◌, List, [], ◌∷◌, ◌++◌, map, none, some, Text, Sat, All,
  if◌then◌else◌, arith, text_eq, codes,
}
use azoth_balancer.Metrics.{Metric, Registry, inc, set, rpc_requests_total, healthy_endpoints}
use azoth_balancer.Metrics.Descriptors.{descriptor}
use azoth_balancer.Metrics.Registration.{
  is_valid, Prometheus, Registers, has_name, unforced, is_forced, metric_of, use_all,
}
use azoth_balancer.Metrics.Registered.{name_of, use_all-Registered}
use azoth_balancer.Metrics.{
  rpc_requests_method, rpc_requests_succeeded, rpc_requests_failed, request_timeouts,
  batch_size_exceeded, upstream_rate_limited_total, healthcheck_failed, cooldowns_triggered,
  cooldown_seconds_gauge, total_endpoints, concurrency_active_permits, endpoint_rate_limit_deferred,
  all_endpoints_rate_limited, priority_endpoint_selected, request_latency_per_endpoint,
  health_check_latency,
}

abbrev name_list : Prometheus (List Text)
name_list = record {
  register = λ r d. if is_valid d && not (has_name d.name r) then some (d.name ∷ r) else none;
}

name_list-Registers : Registers name_list
name_list-Registers = record {
  names = λ r. r;
  accepts = λ r d valid unused. ground (arith, valid, unused);
}

-- Another library has a metric of its own.
abbrev others : List Text
others = codes "process_cpu_seconds_total" ∷ []

others-Unused : (m : Metric) → has_name (descriptor m).name others ≡ false
unfolding descriptor text_eq
others-Unused rpc_requests_total = refl
others-Unused rpc_requests_method = refl
others-Unused rpc_requests_succeeded = refl
others-Unused rpc_requests_failed = refl
others-Unused request_timeouts = refl
others-Unused batch_size_exceeded = refl
others-Unused upstream_rate_limited_total = refl
others-Unused healthcheck_failed = refl
others-Unused cooldowns_triggered = refl
others-Unused cooldown_seconds_gauge = refl
others-Unused healthy_endpoints = refl
others-Unused total_endpoints = refl
others-Unused concurrency_active_permits = refl
others-Unused endpoint_rate_limit_deferred = refl
others-Unused all_endpoints_rate_limited = refl
others-Unused priority_endpoint_selected = refl
others-Unused request_latency_per_endpoint = refl
others-Unused health_check_latency = refl

abbrev history : Registry
history = inc rpc_requests_total [] ∷ set healthy_endpoints [] 2 ∷ inc rpc_requests_total [] ∷ []

use_all-Registered_example : Sat (use_all name_list (unforced others) history) (λ s'.
    (s'.registry ≡ map name_of s'.forced ++ others)
    × All (λ e. is_forced s'.forced (metric_of e) ≡ true) history)
unfolding name_list-Registers
use_all-Registered_example =
    use_all-Registered name_list name_list-Registers others others history others-Unused refl

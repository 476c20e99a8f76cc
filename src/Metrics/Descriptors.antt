-- ===== src/Metrics/Descriptors.antt =====
-- src/utils/metrics.rs: what each metric is registered with.
use azoth_balancer.Prelude.{ℕ, List, [], ◌∷◌, Text, codes}
use azoth_balancer.Metrics.{
  Metric, rpc_requests_total, rpc_requests_method, rpc_requests_succeeded, rpc_requests_failed,
  request_timeouts, batch_size_exceeded, upstream_rate_limited_total, healthcheck_failed,
  cooldowns_triggered, cooldown_seconds_gauge, healthy_endpoints, total_endpoints,
  concurrency_active_permits, endpoint_rate_limit_deferred, all_endpoints_rate_limited,
  priority_endpoint_selected, request_latency_per_endpoint, health_check_latency,
}

-- The macro that registers a metric; a histogram has its buckets, in thousandths.
pub data Kind : Type 0 where
  int_counter int_counter_vec int_gauge int_gauge_vec : Kind
  histogram_vec : (buckets : List ℕ) → Kind

pub record Descriptor : Type 0 where
  pub kind : Kind
  pub name : Text
  pub help : Text
  pub labels : List Text

abbrev rpc_requests_total_desc : Descriptor
rpc_requests_total_desc = record {
  kind = int_counter;
  name = codes "rpc_requests_total";
  help = codes "Total number of forwarded RPC requests";
  labels = [];
}

abbrev rpc_requests_method_desc : Descriptor
rpc_requests_method_desc = record {
  kind = int_counter_vec;
  name = codes "rpc_requests_method_total";
  help = codes "Total number of forwarded RPC requests per method";
  labels = codes "method" ∷ [];
}

abbrev rpc_requests_succeeded_desc : Descriptor
rpc_requests_succeeded_desc = record {
  kind = int_counter_vec;
  name = codes "rpc_requests_succeeded_total";
  help = codes "Total number of successful requests per endpoint";
  labels = codes "endpoint" ∷ [];
}

abbrev rpc_requests_failed_desc : Descriptor
rpc_requests_failed_desc = record {
  kind = int_counter_vec;
  name = codes "rpc_requests_failed_total";
  help = codes "Total number of failed requests per endpoint";
  labels = codes "endpoint" ∷ [];
}

abbrev request_timeouts_desc : Descriptor
request_timeouts_desc = record {
  kind = int_counter_vec;
  name = codes "rpc_request_timeouts_total";
  help = codes "Total number of request timeouts per endpoint";
  labels = codes "endpoint" ∷ [];
}

abbrev batch_size_exceeded_desc : Descriptor
batch_size_exceeded_desc = record {
  kind = int_counter;
  name = codes "batch_size_exceeded_total";
  help = codes "Total number of batch requests rejected due to exceeding size limit";
  labels = [];
}

abbrev upstream_rate_limited_total_desc : Descriptor
upstream_rate_limited_total_desc = record {
  kind = int_counter_vec;
  name = codes "upstream_rate_limited_total";
  help = codes "Total number of times an upstream provider returned HTTP 429";
  labels = codes "endpoint" ∷ [];
}

abbrev healthcheck_failed_desc : Descriptor
healthcheck_failed_desc = record {
  kind = int_counter_vec;
  name = codes "rpc_healthcheck_failed_total";
  help = codes "Total number of failed health checks per endpoint";
  labels = codes "endpoint" ∷ [];
}

abbrev cooldowns_triggered_desc : Descriptor
cooldowns_triggered_desc = record {
  kind = int_counter_vec;
  name = codes "rpc_endpoint_cooldowns_total";
  help = codes "Total number of times an endpoint was put into cooldown";
  labels = codes "endpoint" ∷ [];
}

abbrev cooldown_seconds_gauge_desc : Descriptor
cooldown_seconds_gauge_desc = record {
  kind = int_gauge_vec;
  name = codes "rpc_endpoint_cooldown_seconds";
  help = codes "Seconds remaining for endpoint cooldown (0 when not cooling)";
  labels = codes "endpoint" ∷ [];
}

abbrev healthy_endpoints_desc : Descriptor
healthy_endpoints_desc = record {
  kind = int_gauge;
  name = codes "healthy_endpoints";
  help = codes "Number of currently healthy RPC endpoints";
  labels = [];
}

abbrev total_endpoints_desc : Descriptor
total_endpoints_desc = record {
  kind = int_gauge;
  name = codes "total_endpoints";
  help = codes "Total number of RPC endpoints configured";
  labels = [];
}

abbrev concurrency_active_permits_desc : Descriptor
concurrency_active_permits_desc = record {
  kind = int_gauge;
  name = codes "concurrency_limiter_active_permits";
  help = codes "Number of currently active in-flight requests";
  labels = [];
}

abbrev endpoint_rate_limit_deferred_desc : Descriptor
endpoint_rate_limit_deferred_desc = record {
  kind = int_counter_vec;
  name = codes "endpoint_rate_limit_deferred_total";
  help = codes "Total requests deferred due to per-endpoint rate limiting";
  labels = codes "endpoint" ∷ [];
}

abbrev all_endpoints_rate_limited_desc : Descriptor
all_endpoints_rate_limited_desc = record {
  kind = int_counter;
  name = codes "all_endpoints_rate_limited_total";
  help = codes "Total times no endpoint was available due to rate limiting";
  labels = [];
}

abbrev priority_endpoint_selected_desc : Descriptor
priority_endpoint_selected_desc = record {
  kind = int_counter_vec;
  name = codes "priority_endpoint_selected_total";
  help = codes "Total number of times each priority level was selected";
  labels = codes "endpoint" ∷ codes "priority_rank" ∷ [];
}

abbrev request_latency_per_endpoint_desc : Descriptor
request_latency_per_endpoint_desc = record {
  kind =
      histogram_vec (1 ∷ 2 ∷ 5 ∷ 10 ∷ 20 ∷ 50 ∷ 100 ∷ 200 ∷ 500 ∷ 1000 ∷ 2000 ∷ 5000 ∷ 10000 ∷ []);
  name = codes "rpc_request_duration_seconds";
  help = codes "Histogram of RPC request duration in seconds per endpoint";
  labels = codes "endpoint" ∷ [];
}

abbrev health_check_latency_desc : Descriptor
health_check_latency_desc = record {
  kind = histogram_vec (100 ∷ 500 ∷ 1000 ∷ 2000 ∷ 5000 ∷ []);
  name = codes "rpc_health_check_duration_seconds";
  help = codes "Health check latency per endpoint";
  labels = codes "endpoint" ∷ [];
}

unfoldable pub descriptor : Metric → Descriptor
descriptor rpc_requests_total = rpc_requests_total_desc
descriptor rpc_requests_method = rpc_requests_method_desc
descriptor rpc_requests_succeeded = rpc_requests_succeeded_desc
descriptor rpc_requests_failed = rpc_requests_failed_desc
descriptor request_timeouts = request_timeouts_desc
descriptor batch_size_exceeded = batch_size_exceeded_desc
descriptor upstream_rate_limited_total = upstream_rate_limited_total_desc
descriptor healthcheck_failed = healthcheck_failed_desc
descriptor cooldowns_triggered = cooldowns_triggered_desc
descriptor cooldown_seconds_gauge = cooldown_seconds_gauge_desc
descriptor healthy_endpoints = healthy_endpoints_desc
descriptor total_endpoints = total_endpoints_desc
descriptor concurrency_active_permits = concurrency_active_permits_desc
descriptor endpoint_rate_limit_deferred = endpoint_rate_limit_deferred_desc
descriptor all_endpoints_rate_limited = all_endpoints_rate_limited_desc
descriptor priority_endpoint_selected = priority_endpoint_selected_desc
descriptor request_latency_per_endpoint = request_latency_per_endpoint_desc
descriptor health_check_latency = health_check_latency_desc

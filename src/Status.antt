-- ===== src/Status.antt =====
-- The status report of src/balancer.rs. Its JSON objects are records. The numbers that the ranking
-- reads back out of the JSON are the ones that were put in, so the defaults of `unwrap_or` are not
-- reached.
pub mod Ranking
pub mod Ties
use azoth_balancer.Prelude.{
  ℕ, ◌+◌, ◌-◌, ◌/◌, Bool, List, [], ◌∷◌, map, Option, Text, codes, compare, Ordering, then_with,
  sort_by, filter, length,
}
use azoth_balancer.Endpoint.{
  RpcEndpoint, is_available, is_in_cooldown, cooldown_remaining_secs, get_total_cost, nanos_per_sec,
}
use azoth_balancer.Balancer.{LoadBalancer}

pub record PriorityStat : Type 0 where
  pub url : Text
  pub weight : ℕ
  pub healthy : Bool
  pub available : Bool
  pub in_cooldown : Bool
  pub cooldown_remaining_secs : ℕ
  pub total_cost_ms : ℕ
  pub last_selected_secs_ago : ℕ

-- The entry of one endpoint; the subtraction saturates.
unfoldable pub priority_stat : (now unix_secs : ℕ) → RpcEndpoint → PriorityStat
priority_stat now unix_secs ep = record {
  url = ep.url;
  weight = ep.weight;
  healthy = ep.healthy;
  available = is_available ep now;
  in_cooldown = is_in_cooldown ep now;
  cooldown_remaining_secs = cooldown_remaining_secs ep now;
  total_cost_ms = get_total_cost ep.metrics;
  last_selected_secs_ago = unix_secs - ep.metrics.last_selected;
}

-- The comparator of the ranking: weight descending, cost ascending, time since the last selection
-- descending.
unfoldable pub stat_cmp : PriorityStat → PriorityStat → Ordering
stat_cmp a b =
    then_with (then_with (compare b.weight a.weight) (compare a.total_cost_ms b.total_cost_ms))
      (compare b.last_selected_secs_ago a.last_selected_secs_ago)

pub record RankedStat : Type 0 where
  pub stat : PriorityStat
  pub priority_rank : ℕ

-- `enumerate`, from a rank on
unfoldable pub rank_from : ℕ → List PriorityStat → List RankedStat
rank_from rank [] = []
rank_from rank (stat ∷ stats) =
    record { stat = stat; priority_rank = rank } ∷ rank_from (rank + 1) stats

pub record PriorityInfo : Type 0 where
  pub strategy : Text
  pub endpoints : List RankedStat

module _ {F L : Type 0} where
  unfoldable pub get_endpoint_priority_stats : LoadBalancer F L → (now unix_secs : ℕ) → PriorityInfo
  get_endpoint_priority_stats b now unix_secs = record {
    strategy = codes "priority_based_with_lru_tie_breaking";
    endpoints = rank_from 1 (sort_by stat_cmp (map (priority_stat now unix_secs) b.endpoints));
  }

pub record BalancerSettings (F : Type 0) : Type 0 where
  pub health_check_interval_secs : ℕ
  pub health_check_timeout_secs : ℕ
  pub base_cooldown_secs : ℕ
  pub max_cooldown_secs : ℕ
  pub max_batch_size : ℕ
  pub latency_smoothing_factor : F

pub record ClientSettings : Type 0 where
  pub connect_timeout_ms : ℕ
  pub timeout_secs : ℕ
  pub pool_idle_timeout_secs : ℕ
  pub pool_max_idle_per_host : ℕ

pub record EndpointDetails : Type 0 where
  pub url : Text
  pub healthy : Bool
  pub available : Bool
  pub in_cooldown : Bool
  pub cooldown_remaining_secs : ℕ
  pub cooldown_attempts : ℕ
  pub consecutive_failures : ℕ
  pub ema_latency_ms : ℕ
  pub ema_error_penalty_ms : ℕ
  pub total_cost_ms : ℕ
  pub last_selected_timestamp : ℕ
  pub last_check_secs_ago : ℕ
  pub rate_limit_per_sec : ℕ
  pub burst_size : ℕ
  pub weight : ℕ

unfoldable pub endpoint_details : ℕ → RpcEndpoint → EndpointDetails
endpoint_details now ep = record {
  url = ep.url;
  healthy = ep.healthy;
  available = is_available ep now;
  in_cooldown = is_in_cooldown ep now;
  cooldown_remaining_secs = cooldown_remaining_secs ep now;
  cooldown_attempts = ep.cooldown_attempts;
  consecutive_failures = ep.metrics.consecutive_failures;
  ema_latency_ms = ep.metrics.ema_latency_ms;
  ema_error_penalty_ms = ep.metrics.ema_error_penalty_ms;
  total_cost_ms = get_total_cost ep.metrics;
  last_selected_timestamp = ep.metrics.last_selected;
  last_check_secs_ago = (now - ep.last_check) / nanos_per_sec;
  rate_limit_per_sec = ep.rate_limit_per_sec;
  burst_size = ep.burst_size;
  weight = ep.weight;
}

pub record Status (F : Type 0) : Type 0 where
  pub bind_addr : Text
  pub config_path : Text
  pub total_endpoints : ℕ
  pub healthy_endpoints : ℕ
  pub balancer_settings : BalancerSettings F
  pub client_settings : ClientSettings
  pub priority_info : PriorityInfo
  pub endpoints_details : List EndpointDetails

module _ {F L : Type 0} where
  unfoldable pub get_status : LoadBalancer F L → (now unix_secs : ℕ) → Status F
  get_status b now unix_secs = record {
    bind_addr = b.bind_addr;
    config_path = b.config_path;
    total_endpoints = length b.endpoints;
    healthy_endpoints = length (filter (λ ep. is_available ep now) b.endpoints);
    balancer_settings = record {
      health_check_interval_secs = b.health_check_interval_secs;
      health_check_timeout_secs = b.health_check_timeout_secs;
      base_cooldown_secs = b.base_cooldown_secs;
      max_cooldown_secs = b.max_cooldown_secs;
      max_batch_size = b.max_batch_size;
      latency_smoothing_factor = b.latency_smoothing_factor;
    };
    client_settings = record {
      connect_timeout_ms = b.connect_timeout_ms;
      timeout_secs = b.timeout_secs;
      pool_idle_timeout_secs = b.pool_idle_timeout_secs;
      pool_max_idle_per_host = b.pool_max_idle_per_host;
    };
    priority_info = get_endpoint_priority_stats b now unix_secs;
    endpoints_details = map (endpoint_details now) b.endpoints;
  }

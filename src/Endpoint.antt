-- ===== src/Endpoint.antt =====
-- src/endpoint.rs: an upstream node with its performance metrics. Instants are nanoseconds of the
-- monotonic clock, handed to each operation that reads the clock.
pub mod Bounds
pub mod Decay
use azoth_balancer.Prelude.{
  ℕ, ◌+◌, ◌-◌, ◌*◌, ◌/◌, ◌^◌, ◌≤◌, Bool, true, false, not, ◌&&◌, Option, none, some, max, ltb, Text,
  saturating_add, u64_max, wrap_u32, if◌then◌else◌,
}
use azoth_balancer.Float.{Float}

pub data LoadBalancerError : Type 0 where
  rate_limited : Text → LoadBalancerError
  upstream_error : Text → LoadBalancerError
  config_error : Text → LoadBalancerError
  bad_request : Text → LoadBalancerError

pub data ErrorKind : Type 0 where
  timeout connection_error http_5xx http_4xx rate_limit : ErrorKind

pub data RequestOutcome : Type 0 where
  success : (latency_ms : ℕ) → RequestOutcome
  failure : (error_kind : ErrorKind) (latency_ms : ℕ) → RequestOutcome

pub record EndpointMetrics : Type 0 where
  pub ema_latency_ms : ℕ
  pub ema_error_penalty_ms : ℕ
  pub consecutive_failures : ℕ
  pub last_selected : ℕ

-- `EndpointMetrics::default()`
abbrev pub default_metrics : EndpointMetrics
default_metrics = record {
  ema_latency_ms = 0;
  ema_error_penalty_ms = 0;
  consecutive_failures = 0;
  last_selected = 0;
}

base_penalty : ErrorKind → ℕ
base_penalty timeout = 30_000
base_penalty connection_error = 20_000
base_penalty http_5xx = 15_000
base_penalty http_4xx = 5_000
base_penalty rate_limit = 10_000

unfoldable pub calculate_penalty : ErrorKind → ℕ → ℕ
unfolding base_penalty
calculate_penalty error_kind latency_ms = max (base_penalty error_kind) latency_ms

unfoldable pub get_total_cost : EndpointMetrics → ℕ
get_total_cost m = max (saturating_add u64_max m.ema_latency_ms m.ema_error_penalty_ms) 1000

module _ {F : Type 0} (fl : Float F) where
  -- the value that `fetch_update` stores
  unfoldable pub update_ema : ℕ → ℕ → F → ℕ
  update_ema current_ema new_value alpha = fl.round_u64 (
      fl.add (fl.mul alpha (fl.from_u64 new_value))
        (fl.mul (fl.sub fl.one alpha) (fl.from_u64 current_ema)))

  unfoldable pub update : EndpointMetrics → RequestOutcome → F → EndpointMetrics
  update m (success latency_ms) latency_smoothing_factor = record m {
    ema_latency_ms = update_ema m.ema_latency_ms latency_ms latency_smoothing_factor;
    consecutive_failures = 0;
    ema_error_penalty_ms = update_ema m.ema_error_penalty_ms 0 fl.half;
  }
  update m (failure error_kind latency_ms) latency_smoothing_factor = record m {
    ema_error_penalty_ms =
        update_ema m.ema_error_penalty_ms (calculate_penalty error_kind latency_ms) fl.four_fifths;
    consecutive_failures = wrap_u32 (m.consecutive_failures + 1);
  }

pub record RpcEndpoint : Type 0 where
  pub url : Text
  pub healthy : Bool
  pub last_check : ℕ
  pub cooldown_until : Option ℕ
  pub cooldown_attempts : ℕ
  pub rate_limit_per_sec : ℕ
  pub burst_size : ℕ
  pub weight : ℕ
  pub metrics : EndpointMetrics

abbrev pub nanos_per_sec : ℕ
nanos_per_sec = 1_000_000_000

before_deadline : Option ℕ → ℕ → Bool
before_deadline none now = false
before_deadline (some until) now = ltb now until

unfoldable pub is_in_cooldown : RpcEndpoint → ℕ → Bool
unfolding before_deadline
is_in_cooldown ep now = before_deadline ep.cooldown_until now

remaining_secs : Option ℕ → ℕ → ℕ
remaining_secs none now = 0
remaining_secs (some until) now = if ltb now until then (until - now) / nanos_per_sec else 0

unfoldable pub cooldown_remaining_secs : RpcEndpoint → ℕ → ℕ
unfolding remaining_secs
cooldown_remaining_secs ep now = remaining_secs ep.cooldown_until now

unfoldable pub is_available : RpcEndpoint → ℕ → Bool
is_available ep now = ep.healthy && not (is_in_cooldown ep now)

-- ===== src/Endpoint/Bounds.antt =====
-- Bounds on the cost by which endpoints are compared.
use azoth_balancer.Prelude.{ℕ, ◌+◌, ◌≤◌, ◌≡◌, arith, u64_max, max}
use azoth_balancer.Endpoint.{EndpointMetrics, get_total_cost, ErrorKind, calculate_penalty}

-- The cost of an endpoint stays between the floor of 1000 ms and the largest `u64`, and is the sum
-- of latency and penalty wherever that sum lies in this range.
pub get_total_cost_bounds :
    (m : EndpointMetrics)
    → (1000 ≤ get_total_cost m)
      × (get_total_cost m ≤ u64_max)
      × (1000 ≤ m.ema_latency_ms + m.ema_error_penalty_ms
          → m.ema_latency_ms + m.ema_error_penalty_ms ≤ u64_max
          → get_total_cost m ≡ m.ema_latency_ms + m.ema_error_penalty_ms)
unfolding get_total_cost
get_total_cost_bounds m = omega arith

-- The penalty of a failure is at least its latency, at least 5 s, and at most the larger of 30 s
-- and the latency.
pub calculate_penalty_bounds :
    (k : ErrorKind) (latency_ms : ℕ)
    → (latency_ms ≤ calculate_penalty k latency_ms)
      × (5_000 ≤ calculate_penalty k latency_ms)
      × (calculate_penalty k latency_ms ≤ max 30_000 latency_ms)
unfolding calculate_penalty
calculate_penalty_bounds k latency_ms = ground arith

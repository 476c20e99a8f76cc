-- ===== src/Status/Ties.antt =====
-- The ranking of the status report against the order of the selection.
use azoth_balancer.Prelude.{ℕ, ◌≤◌, ◌<◌, ◌≡◌, Bool, true, arith, is_gt}
use azoth_balancer.Endpoint.{RpcEndpoint, get_total_cost}
use azoth_balancer.Strategy.{priority_cmp}
use azoth_balancer.Status.{priority_stat, stat_cmp}

module _ (now unix_secs : ℕ) (a b : RpcEndpoint) where
  -- Between two endpoints of one weight and one cost of which the second was selected later, and
  -- not in the future, the ranking puts the first before the second, while the selection, with or
  -- without the cost, tries the second before the first.
  pub ranking-reverses-selection :
      a.weight ≡ b.weight
      → get_total_cost a.metrics ≡ get_total_cost b.metrics
      → a.metrics.last_selected < b.metrics.last_selected
      → b.metrics.last_selected ≤ unix_secs
      → (is_gt (stat_cmp (priority_stat now unix_secs b) (priority_stat now unix_secs a)) ≡ true)
        × ((use_cost : Bool) → is_gt (priority_cmp use_cost a b) ≡ true)
  unfolding stat_cmp priority_stat priority_cmp
  ranking-reverses-selection weight cost later past =
      (ground (arith, weight, cost, later, past), λ use_cost. ground (arith, weight, cost, later))

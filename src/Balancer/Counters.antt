-- ===== src/Balancer/Counters.antt =====
-- The counters of the metrics in `mark_unhealthy` and `mark_rate_limited`.
use azoth_balancer.Prelude.{ℕ, ◌≡◌, refl, false, Text, find, Option-cases, Bool-cases, inl, inr}
use azoth_balancer.Metrics.{Metric, counter}
use azoth_balancer.Endpoint.{RpcEndpoint}
use azoth_balancer.Cooldown.{trigger_cooldown}
use azoth_balancer.Balancer.{
  LoadBalancer, has_url, mark_rate_limited, mark_unhealthy, put_into_cooldown,
}

module _ {F L : Type 0} (b : LoadBalancer F L) (url : Text) (now : ℕ) (m : Metric)
    (label : Text) where
  put_into_cooldown-counter :
      (ep : RpcEndpoint)
      → counter m label (put_into_cooldown b url now ep).registry ≡ counter m label b.registry
  unfolding put_into_cooldown trigger_cooldown counter
  put_into_cooldown-counter ep = refl

  pub mark_unhealthy-counter :
      counter m label (mark_unhealthy b url now).registry ≡ counter m label b.registry
  unfolding mark_unhealthy
  mark_unhealthy-counter = elim (Option-cases (find (has_url url) b.endpoints)) [
    | inl missing ↦ rw (missing, mark_unhealthy) refl
    | inr (ep, h) ↦ elim (Bool-cases ep.healthy) [
      | inl up ↦
          rw (h, mark_unhealthy) (rw up (put_into_cooldown-counter (record ep { healthy = false })))
      | inr down ↦ rw (h, mark_unhealthy) (rw down refl)
    ]
  ]

  pub mark_rate_limited-counter :
      counter m label (mark_rate_limited b url now).registry ≡ counter m label b.registry
  unfolding mark_rate_limited
  mark_rate_limited-counter = elim (Option-cases (find (has_url url) b.endpoints)) [
    | inl missing ↦ rw (missing, mark_rate_limited) refl
    | inr (ep, h) ↦ rw (h, mark_rate_limited) (put_into_cooldown-counter ep)
  ]

-- ===== src/Balancer/Kept.antt =====
-- The operations of src/balancer.rs and the invariant.
use azoth_balancer.Prelude.{
  ℕ, ◌≡◌, refl, false, List, Option, none, some, arith, Text, lookup, find, map-update_first,
  map-update_first_found, All, All-mono, Given, Option-cases, Bool-cases, inl, inr,
}
use azoth_balancer.Float.{Float}
use azoth_balancer.Limiter.{RateLimiter, RefusalKeeps}
use azoth_balancer.Endpoint.{RpcEndpoint}
use azoth_balancer.Cooldown.{trigger_cooldown}
use azoth_balancer.Strategy.{select_best_endpoint, reserve_tokens, check_limiter}
use azoth_balancer.Strategy.Search.{accepts, priority_order, taken, select-first}
use azoth_balancer.Balancer.{
  LoadBalancer, has_url, get_next_endpoint, mark_rate_limited, mark_unhealthy, put_into_cooldown,
  update_healthy_count, cooldown_tick,
}
use azoth_balancer.Balancer.Invariant.{static, statics, Inv, Inv-endpoints, Inv-limiters}
use azoth_balancer.Balancer.Configured.{insert-Given}

module _ {F L : Type 0} (b : LoadBalancer F L) (inv : Inv b) where
  put_into_cooldown-Inv :
      (url : Text) (now : ℕ) (ep e : RpcEndpoint)
      → find (has_url url) b.endpoints ≡ some ep
      → static e ≡ static ep
      → Inv (put_into_cooldown b url now e)
  unfolding put_into_cooldown trigger_cooldown
  put_into_cooldown-Inv url now ep e h same =
      Inv-endpoints b _ _ (map-update_first_found static _ _ ep b.endpoints h same) inv

  pub mark_rate_limited-Inv : (url : Text) (now : ℕ) → Inv (mark_rate_limited b url now)
  unfolding mark_rate_limited
  mark_rate_limited-Inv url now = elim (Option-cases (find (has_url url) b.endpoints)) [
    | inl missing ↦ rw (missing, mark_rate_limited) inv
    | inr (ep, h) ↦ rw (h, mark_rate_limited) (put_into_cooldown-Inv url now ep ep h refl)
  ]

  pub mark_unhealthy-Inv : (url : Text) (now : ℕ) → Inv (mark_unhealthy b url now)
  unfolding mark_unhealthy
  mark_unhealthy-Inv url now = elim (Option-cases (find (has_url url) b.endpoints)) [
    | inl missing ↦ rw (missing, mark_unhealthy) inv
    | inr (ep, h) ↦ elim (Bool-cases ep.healthy) [
      | inl up ↦
          rw (h, mark_unhealthy)
            (rw up (put_into_cooldown-Inv url now ep (record ep { healthy = false }) h refl))
      | inr down ↦ rw (h, mark_unhealthy) (rw down inv)
    ]
  ]

  pub cooldown_tick-Inv : (now : ℕ) → Inv (cooldown_tick b now)
  unfolding cooldown_tick update_healthy_count
  cooldown_tick-Inv now = Inv-endpoints b _ _ refl inv

module _ {L : Type 0} (rl : RateLimiter L) where
  reserve_tokens-Given :
      (limiters : List (Text × L)) (url : Text) (batch_size now : ℕ) (other : Text)
      → Given (lookup other limiters)
      → Given (lookup other (reserve_tokens rl limiters url batch_size now).1)
  unfolding reserve_tokens check_limiter
  reserve_tokens-Given limiters url batch_size now other h =
      elim (Option-cases (lookup url limiters)) [
        | inl missing ↦ rw (missing, check_limiter) (ground (arith, h))
        | inr (l, e) ↦
            rw (e, check_limiter)
              (ground (arith, h, insert-Given other url (rl.check_n batch_size now l).1 limiters h))
      ]

  taken-Given :
      (limiters : List (Text × L)) (batch_size now : ℕ) (chosen : Option RpcEndpoint) (other : Text)
      → Given (lookup other limiters)
      → Given (lookup other (taken rl batch_size now limiters chosen))
  taken-Given limiters batch_size now none other h = h
  taken-Given limiters batch_size now (some ep) other h =
      reserve_tokens-Given limiters ep.url batch_size now other h

module _ {F L : Type 0} (fl : Float F) (rl : RateLimiter L) (keeps : RefusalKeeps rl)
    (b : LoadBalancer F L) (inv : Inv b) where
  pub get_next_endpoint-Inv :
      (batch_size now unix_secs : ℕ) → Inv (get_next_endpoint fl rl b batch_size now unix_secs).1
  unfolding get_next_endpoint
  get_next_endpoint-Inv batch_size now unix_secs =
      let after = (select-first rl keeps batch_size now b.endpoints b.rate_limiters b.registry).1 in
      let first =
        find (accepts rl b.rate_limiters batch_size now) (priority_order b.endpoints now) in
      let limited : All
          (λ s. Given (
            lookup s.url
              (select_best_endpoint rl b.endpoints batch_size now b.rate_limiters
                b.registry).limiters))
          (statics b.endpoints) =
        rw after (
          All-mono (λ s h. taken-Given rl b.rate_limiters batch_size now first s.url h)
            (statics b.endpoints) inv.limited) in
      let selection =
        select_best_endpoint rl b.endpoints batch_size now b.rate_limiters b.registry in
      let reserved = Inv-limiters b selection.limiters selection.registry limited inv in
      elim (Option-cases selection.chosen) [
        | inl nothing ↦ rw (nothing, get_next_endpoint) reserved
        | inr (ep, chosen) ↦
            rw (chosen, get_next_endpoint)
              (Inv-endpoints _ _ _ (map-update_first static _ _ b.endpoints (λ x. refl)) reserved)
      ]

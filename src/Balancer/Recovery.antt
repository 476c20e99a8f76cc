-- ===== src/Balancer/Recovery.antt =====
-- The end of a cooldown: when an endpoint can be selected again.
use azoth_balancer.Prelude.{
  ℕ, ◌+◌, ◌*◌, ◌≤◌, ◌<◌, ◌≡◌, refl, ◌∙◌, ap, true, some, arith, Text, find, find-holds,
  find-update_first, All-find, saturating_add, u32_max, Option-cases, inl, inr,
}
use azoth_balancer.Float.{Float}
use azoth_balancer.Limiter.{RateLimiter, RefusalKeeps}
use azoth_balancer.Endpoint.{RpcEndpoint, is_available, is_in_cooldown, nanos_per_sec}
use azoth_balancer.Cooldown.{trigger_cooldown, cooldown_duration}
use azoth_balancer.Strategy.{select_best_endpoint}
use azoth_balancer.Strategy.Search.{accepts}
use azoth_balancer.Strategy.Choice.{select-none}
use azoth_balancer.Balancer.{
  LoadBalancer, has_url, get_next_endpoint, mark_rate_limited, put_into_cooldown,
}

cooldown_duration_le :
    (base_cooldown_secs max_cooldown_secs attempts : ℕ)
    → cooldown_duration base_cooldown_secs max_cooldown_secs attempts ≤ max_cooldown_secs
unfolding cooldown_duration
cooldown_duration_le base_cooldown_secs max_cooldown_secs attempts = omega arith

module _ {F L : Type 0} (fl : Float F) (rl : RateLimiter L) (keeps : RefusalKeeps rl)
    (b : LoadBalancer F L) (batch_size t unix_secs : ℕ) where
  selected-url :
      (e : RpcEndpoint)
      → (select_best_endpoint rl b.endpoints batch_size t b.rate_limiters b.registry).chosen
        ≡ some e
      → (get_next_endpoint fl rl b batch_size t unix_secs).0 ≡ some e.url
  unfolding get_next_endpoint
  selected-url e chosen = rw (chosen, get_next_endpoint) refl

  -- If an available endpoint of positive weight has a limiter that lets the batch through, then
  -- some endpoint is selected.
  available-selected :
      (url : Text) (e : RpcEndpoint)
      → find (has_url url) b.endpoints ≡ some e
      → is_available e t ≡ true
      → 0 < e.weight
      → accepts rl b.rate_limiters batch_size t e ≡ true
      → (chosen : Text) × ((get_next_endpoint fl rl b batch_size t unix_secs).0 ≡ some chosen)
  available-selected url e found up weight fits =
      elim (Option-cases
        (select_best_endpoint rl b.endpoints batch_size t b.rate_limiters b.registry).chosen) [
          | inr (x, chosen) ↦ (x.url, selected-url x chosen)
          | inl nothing ↦
              let refused =
                (select-none rl keeps b.endpoints batch_size t b.rate_limiters b.registry).0
                  nothing in
              absurd (cc (fits, All-find _ (has_url url) b.endpoints e found refused up weight))
        ]

module _ {F L : Type 0} (b : LoadBalancer F L) (url : Text) (now : ℕ) (ep : RpcEndpoint)
    (found : find (has_url url) b.endpoints ≡ some ep) where
  abbrev cooled : RpcEndpoint
  cooled = (trigger_cooldown ep b.base_cooldown_secs b.max_cooldown_secs now b.registry).0

  cooled_found : find (has_url url) (mark_rate_limited b url now).endpoints ≡ some cooled
  unfolding mark_rate_limited put_into_cooldown trigger_cooldown
  cooled_found =
      rw (found, mark_rate_limited)
        (find-update_first (has_url url) (λ _. cooled) b.endpoints ep found
          (find-holds (has_url url) b.endpoints ep found))

  same_limiters : (mark_rate_limited b url now).rate_limiters ≡ b.rate_limiters
  unfolding mark_rate_limited put_into_cooldown
  same_limiters = rw (found, mark_rate_limited) refl

  -- No cooldown outlasts the configured maximum.
  cooled-available :
      (t : ℕ)
      → ep.healthy ≡ true
      → now + b.max_cooldown_secs * nanos_per_sec ≤ t
      → is_available cooled t ≡ true
  unfolding is_available is_in_cooldown trigger_cooldown
  cooled-available t up over = ground (
    arith,
    up,
    over,
    cooldown_duration_le b.base_cooldown_secs b.max_cooldown_secs
        (saturating_add u32_max ep.cooldown_attempts 1),
  )

module _ {F L : Type 0} (fl : Float F) (rl : RateLimiter L) (keeps : RefusalKeeps rl)
    (b : LoadBalancer F L) where
  -- After a rate limit of a healthy endpoint of positive weight, however often it was limited
  -- before, a batch that its limiter lets through is served again by some endpoint from the
  -- configured maximum of the cooldown on, given a limiter that takes nothing on a refusal.
  pub mark_rate_limited-recovers :
      (url : Text) (now : ℕ) (ep : RpcEndpoint) (batch_size t unix_secs : ℕ)
      → find (has_url url) b.endpoints ≡ some ep
      → ep.healthy ≡ true
      → 0 < ep.weight
      → accepts rl b.rate_limiters batch_size t ep ≡ true
      → now + b.max_cooldown_secs * nanos_per_sec ≤ t
      → (chosen : Text) × ((get_next_endpoint fl rl
            (mark_rate_limited b url now)
            batch_size
            t
            unix_secs).0
          ≡ some chosen)
  unfolding accepts trigger_cooldown
  mark_rate_limited-recovers url now ep batch_size t unix_secs found up weight fits over =
      available-selected fl rl keeps (mark_rate_limited b url now) batch_size t unix_secs url
        (cooled b url now ep found) (cooled_found b url now ep found)
        (cooled-available b url now ep found t up over) weight
        (ap (λ limiters. accepts rl limiters batch_size t ep) (same_limiters b url now ep found)
          ∙ fits)

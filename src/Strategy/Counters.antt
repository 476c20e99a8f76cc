-- ===== src/Strategy/Counters.antt =====
-- When the counter ALL_ENDPOINTS_RATE_LIMITED moves.
use azoth_balancer.Prelude.{
  ℕ, ◌+◌, ◌≡◌, refl, inl, inr, Bool, true, false, List, [], ◌∷◌, Option, none, some, arith, Text,
  text_eq, filter, is_empty, sort_by, Bool-cases,
}
use azoth_balancer.Limiter.{RateLimiter}
use azoth_balancer.Metrics.{
  Registry, inc, endpoint_rate_limit_deferred, all_endpoints_rate_limited, counter,
}
use azoth_balancer.Endpoint.{RpcEndpoint}
use azoth_balancer.Strategy.{
  is_candidate, priority_cmp, reserve_tokens, try_candidates, try_tiers, select_best_endpoint,
}

abbrev pub limited : Registry → ℕ
limited registry = counter all_endpoints_rate_limited [] registry

-- What a selection adds to the counter.
abbrev pub if_none : Option RpcEndpoint → ℕ
if_none none = 1
if_none (some e) = 0

module _ {L : Type 0} (rl : RateLimiter L) (batch_size now : ℕ) where
  limited-try_candidates :
      (xs : List RpcEndpoint) (rank : ℕ) (limiters : List (Text × L)) (registry : Registry)
      → limited (try_candidates rl xs rank batch_size now limiters registry).registry
        ≡ limited registry
  unfolding try_candidates counter
  limited-try_candidates [] rank limiters registry = refl
  limited-try_candidates (ep ∷ rest) rank limiters registry = ground (
    arith,
    limited-try_candidates rest (rank + 1) (reserve_tokens rl limiters ep.url batch_size now).1
        (inc endpoint_rate_limit_deferred ep.url ∷ registry),
  )

  limited-try_tiers :
      (tiers : List (List RpcEndpoint × Bool)) (limiters : List (Text × L)) (registry : Registry)
      → limited (try_tiers rl tiers batch_size now limiters registry).registry
        ≡ limited registry + if_none (try_tiers rl tiers batch_size now limiters registry).chosen
  unfolding try_tiers
  limited-try_tiers [] limiters registry = unfold counter text_eq in refl
  limited-try_tiers (([], use_cost) ∷ tiers) limiters registry =
      limited-try_tiers tiers limiters registry
  limited-try_tiers ((c ∷ cs, use_cost) ∷ tiers) limiters registry =
      let sorted = sort_by (priority_cmp use_cost) (c ∷ cs) in
      let tried = try_candidates rl sorted 0 batch_size now limiters registry in
      ground (
        arith,
        limited-try_candidates sorted 0 limiters registry,
        limited-try_tiers tiers tried.limiters tried.registry,
      )

  -- The counter goes up by one exactly when no endpoint is selected although some endpoint is
  -- available with a positive weight. Where none is, it stays, and so do all other metrics.
  pub select-limited :
      (endpoints : List RpcEndpoint) (limiters : List (Text × L)) (registry : Registry)
      → let result = select_best_endpoint rl endpoints batch_size now limiters registry in
        (is_empty (filter (is_candidate now) endpoints) ≡ true → result.registry ≡ registry)
        × (is_empty (filter (is_candidate now) endpoints) ≡ false
            → limited result.registry ≡ limited registry + if_none result.chosen)
  unfolding select_best_endpoint
  select-limited endpoints limiters registry =
      elim (Bool-cases (is_empty (filter (is_candidate now) endpoints))) [
        | inl e ↦ rw e (λ _. refl, λ q. cc)
        | inr e ↦ rw e (λ q. cc, λ _. limited-try_tiers _ limiters registry)
      ]

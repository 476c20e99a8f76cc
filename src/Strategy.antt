-- ===== src/Strategy.antt =====
-- src/strategy.rs: the choice of an endpoint by tiers. The clock is read once for a whole
-- selection; the log lines of `tracing` are not modelled, the Prometheus counters are.
pub mod Order
pub mod Partition
pub mod Search
pub mod Choice
pub mod Counters
use azoth_balancer.Prelude.{
  ℕ, ◌+◌, ◌<◌, Bool, true, false, ◌&&◌, List, [], ◌∷◌, Option, none, some, compare, Ordering, Text,
  codes, lookup, insert, ltb, leb, ◌==◌, filter, is_empty, then_with, sort_by, u32_max,
  if◌then◌else◌,
}
use azoth_balancer.Limiter.{RateLimiter}
use azoth_balancer.Metrics.{
  Registry, inc, inc_rank, all_endpoints_rate_limited, endpoint_rate_limit_deferred,
  priority_endpoint_selected,
}
use azoth_balancer.Endpoint.{
  RpcEndpoint, LoadBalancerError, rate_limited, upstream_error, is_available, get_total_cost,
}

abbrev pub tier1_min_weight : ℕ
tier1_min_weight = 100

abbrev pub tier2_min_weight : ℕ
tier2_min_weight = 50

abbrev pub tier3_min_weight : ℕ
tier3_min_weight = 1

-- Whether an endpoint is considered at all.
unfoldable pub is_candidate : ℕ → RpcEndpoint → Bool
is_candidate now ep = is_available ep now && ltb 0 ep.weight

pub record Tiers : Type 0 where
  pub tier1 : List RpcEndpoint
  pub tier2 : List RpcEndpoint
  pub tier3 : List RpcEndpoint

abbrev push_tier : RpcEndpoint → Tiers → Tiers
push_tier ep t =
    if leb tier1_min_weight ep.weight
    then record t { tier1 = ep ∷ t.tier1 }
    else if leb tier2_min_weight ep.weight
    then record t { tier2 = ep ∷ t.tier2 }
    else if leb tier3_min_weight ep.weight
    then record t { tier3 = ep ∷ t.tier3 }
    else t

-- The `for` that distributes the candidates, each tier in their order.
unfoldable pub collect_tiers : List RpcEndpoint → Tiers
collect_tiers [] = record { tier1 = []; tier2 = []; tier3 = [] }
collect_tiers (ep ∷ rest) = push_tier ep (collect_tiers rest)

-- The comparator of `sort_by`: weight descending, cost ascending where the tier uses it, and the
-- time of the last selection descending.
unfoldable pub priority_cmp : Bool → RpcEndpoint → RpcEndpoint → Ordering
priority_cmp use_cost a b =
    then_with
      (then_with (compare b.weight a.weight) (
        if use_cost
        then compare (get_total_cost a.metrics) (get_total_cost b.metrics)
        else Ordering.eq))
      (compare b.metrics.last_selected a.metrics.last_selected)

pub data Reserved : Type 0 where
  ok : Reserved
  err : LoadBalancerError → Reserved

pub record Selection (L : Type 0) : Type 0 where
  pub chosen : Option RpcEndpoint
  pub limiters : List (Text × L)
  pub registry : Registry

module _ {L : Type 0} (rl : RateLimiter L) where
  -- `limiter.lock().check_n(n)` on the limiter that the map holds for the endpoint
  unfoldable pub check_limiter :
      Text → ℕ → ℕ → List (Text × L) → Option L → Reserved × List (Text × L)
  check_limiter url batch_size now limiters none = (ok, limiters)
  check_limiter url batch_size now limiters (some limiter) =
      if batch_size == 0
      then (ok, limiters)
      else let (fits, limiter') = rl.check_n batch_size now limiter in
        (if fits then ok else err (rate_limited url), insert url limiter' limiters)

  unfoldable pub reserve_tokens : List (Text × L) → Text → ℕ → ℕ → Reserved × List (Text × L)
  unfolding check_limiter
  reserve_tokens limiters url batch_size now =
      if ltb u32_max batch_size
      then (err (upstream_error (codes "Batch size too large")), limiters)
      else check_limiter url batch_size now limiters (lookup url limiters)

  -- The inner `for`, over one tier in its order.
  unfoldable pub try_candidates :
      List RpcEndpoint → ℕ → ℕ → ℕ → List (Text × L) → Registry → Selection L
  try_candidates [] rank batch_size now limiters registry = record {
    chosen = none;
    limiters = limiters;
    registry = registry;
  }
  try_candidates (ep ∷ rest) rank batch_size now limiters registry =
      let (reserved, limiters') = reserve_tokens limiters ep.url batch_size now in
      elim reserved [
        | ok ↦ record {
          chosen = some ep;
          limiters = limiters';
          registry = inc_rank priority_endpoint_selected ep.url (rank + 1) ∷ registry;
        }
        | err e ↦
            try_candidates rest (rank + 1) batch_size now limiters'
              (inc endpoint_rate_limit_deferred ep.url ∷ registry)
      ]

  -- The outer `for`: the tiers with their flags `use_cost`.
  unfoldable pub try_tiers :
      List (List RpcEndpoint × Bool) → ℕ → ℕ → List (Text × L) → Registry → Selection L
  try_tiers [] batch_size now limiters registry = record {
    chosen = none;
    limiters = limiters;
    registry = inc all_endpoints_rate_limited [] ∷ registry;
  }
  try_tiers ((candidates, use_cost) ∷ tiers) batch_size now limiters registry =
      let tried =
        try_candidates (sort_by (priority_cmp use_cost) candidates) 0 batch_size now limiters
          registry in
      let next = try_tiers tiers batch_size now tried.limiters tried.registry in
      if is_empty candidates
      then try_tiers tiers batch_size now limiters registry
      else elim tried.chosen [ some ep ↦ tried | none ↦ next ]

  unfoldable pub select_best_endpoint :
      List RpcEndpoint → ℕ → ℕ → List (Text × L) → Registry → Selection L
  select_best_endpoint endpoints batch_size now limiters registry =
      let available_endpoints = filter (is_candidate now) endpoints in
      if is_empty available_endpoints
      then record { chosen = none; limiters = limiters; registry = registry }
      else let tiers = collect_tiers available_endpoints in
        try_tiers ((tiers.tier1, false) ∷ (tiers.tier2, true) ∷ (tiers.tier3, false) ∷ [])
          batch_size now limiters registry

-- ===== src/Strategy/Search.antt =====
-- The loops over tiers and candidates search one list, the endpoints in the order of priority.
use mathlib.Core.List.{append-nil}
use azoth_balancer.Prelude.{
  ℕ, ◌+◌, ◌≡◌, refl, inl, inr, Bool, true, false, List, [], ◌∷◌, ◌++◌, Option, none, some, arith,
  Text, lookup, insert-lookup, filter, find, find-append, is_empty, sort_by, Option-cases,
  if◌then◌else◌,
}
use azoth_balancer.Limiter.{RateLimiter, RefusalKeeps}
use azoth_balancer.Metrics.{Registry, inc, endpoint_rate_limit_deferred}
use azoth_balancer.Endpoint.{RpcEndpoint}
use azoth_balancer.Strategy.{
  Reserved, ok, err, Tiers, Selection, is_candidate, collect_tiers, priority_cmp, reserve_tokens,
  check_limiter, try_candidates, try_tiers, select_best_endpoint,
}

abbrev pub is_ok : Reserved → Bool
is_ok ok = true
is_ok (err e) = false

-- The candidates in the order in which they are tried.
unfoldable pub order_of : List RpcEndpoint → List RpcEndpoint
order_of candidates =
    let tiers = collect_tiers candidates in
    sort_by (priority_cmp false) tiers.tier1
    ++ (sort_by (priority_cmp true) tiers.tier2 ++ sort_by (priority_cmp false) tiers.tier3)

-- The specification of the order in which endpoints are tried.
unfoldable pub priority_order : List RpcEndpoint → ℕ → List RpcEndpoint
unfolding order_of
priority_order endpoints now = order_of (filter (is_candidate now) endpoints)

-- The tiers, each sorted, one after the other.
abbrev in_order : List (List RpcEndpoint × Bool) → List RpcEndpoint
in_order [] = []
in_order ((candidates, use_cost) ∷ tiers) =
    sort_by (priority_cmp use_cost) candidates ++ in_order tiers

abbrev flagged : Tiers → List (List RpcEndpoint × Bool)
flagged t = (t.tier1, false) ∷ (t.tier2, true) ∷ (t.tier3, false) ∷ []

module _ {L : Type 0} (rl : RateLimiter L) where
  -- Whether the limiter of an endpoint, as the map holds it, lets the batch through.
  unfoldable pub accepts : List (Text × L) → ℕ → ℕ → RpcEndpoint → Bool
  accepts limiters batch_size now ep = is_ok (reserve_tokens rl limiters ep.url batch_size now).0

  -- The limiters after a selection that ended with `chosen`.
  abbrev pub taken : ℕ → ℕ → List (Text × L) → Option RpcEndpoint → List (Text × L)
  taken batch_size now limiters none = limiters
  taken batch_size now limiters (some ep) = (reserve_tokens rl limiters ep.url batch_size now).1

module _ {L : Type 0} (rl : RateLimiter L) (keeps : RefusalKeeps rl) where
  -- A refusal leaves every limiter as it was.
  pub reserve_tokens_refused :
      (limiters : List (Text × L)) (ep : RpcEndpoint) (batch_size now : ℕ)
      → accepts rl limiters batch_size now ep ≡ false
      → (reserve_tokens rl limiters ep.url batch_size now).1 ≡ limiters
  unfolding reserve_tokens accepts
  reserve_tokens_refused limiters ep batch_size now h =
      elim (Option-cases (lookup ep.url limiters)) [
        | inl e ↦ rw (e, check_limiter) (ground arith)
        | inr (l, e) ↦
            rw (e, check_limiter)
              (ground (arith, keeps batch_size now l, insert-lookup ep.url l limiters, e))
      ]

  module _ (batch_size now : ℕ) where
    try_candidates_lem :
        (xs : List RpcEndpoint) (rank : ℕ) (limiters : List (Text × L)) (registry : Registry)
        → ((try_candidates rl xs rank batch_size now limiters registry).chosen
            ≡ find (accepts rl limiters batch_size now) xs)
          × ((try_candidates rl xs rank batch_size now limiters registry).limiters
              ≡ taken rl batch_size now limiters (find (accepts rl limiters batch_size now) xs))
    unfolding try_candidates accepts
    try_candidates_lem [] rank limiters registry = (refl, refl)
    try_candidates_lem (ep ∷ rest) rank limiters registry = ground (
      arith,
      reserve_tokens_refused limiters ep batch_size now,
      try_candidates_lem rest (rank + 1) limiters
          (inc endpoint_rate_limit_deferred ep.url ∷ registry),
    )

    try_tiers_lem :
        (tiers : List (List RpcEndpoint × Bool)) (limiters : List (Text × L)) (registry : Registry)
        → ((try_tiers rl tiers batch_size now limiters registry).chosen
            ≡ find (accepts rl limiters batch_size now) (in_order tiers))
          × ((try_tiers rl tiers batch_size now limiters registry).limiters
              ≡ taken rl batch_size now limiters
                  (find (accepts rl limiters batch_size now) (in_order tiers)))
    unfolding try_tiers sort_by
    try_tiers_lem [] limiters registry = (refl, refl)
    try_tiers_lem (([], use_cost) ∷ tiers) limiters registry = try_tiers_lem tiers limiters registry
    try_tiers_lem ((c ∷ cs, use_cost) ∷ tiers) limiters registry =
        let sorted = sort_by (priority_cmp use_cost) (c ∷ cs) in
        let tried = try_candidates rl sorted 0 batch_size now limiters registry in
        ground (
          arith,
          try_candidates_lem sorted 0 limiters registry,
          find-append (accepts rl limiters batch_size now) sorted (in_order tiers),
          try_tiers_lem tiers tried.limiters tried.registry,
        )

    abbrev search_from : List RpcEndpoint → List (Text × L) → Registry → Selection L
    search_from xs limiters registry =
        if is_empty xs
        then record { chosen = none; limiters = limiters; registry = registry }
        else try_tiers rl (flagged (collect_tiers xs)) batch_size now limiters registry

    search_from_lem :
        (xs : List RpcEndpoint) (limiters : List (Text × L)) (registry : Registry)
        → ((search_from xs limiters registry).chosen
            ≡ find (accepts rl limiters batch_size now) (order_of xs))
          × ((search_from xs limiters registry).limiters
              ≡ taken rl batch_size now limiters
                  (find (accepts rl limiters batch_size now) (order_of xs)))
    unfolding order_of collect_tiers sort_by
    search_from_lem [] limiters registry = (refl, refl)
    search_from_lem (x ∷ xs) limiters registry =
        rw append-nil at (try_tiers_lem (flagged (collect_tiers (x ∷ xs))) limiters registry)

    -- The selection returns the first endpoint, in the order of priority, whose limiter lets the
    -- batch through as the limiters stand before the call, and none if all refuse. The
    -- limiters afterwards are those after reserving the tokens at that endpoint alone.
    pub select-first :
        (endpoints : List RpcEndpoint) (limiters : List (Text × L)) (registry : Registry)
        → let first = find (accepts rl limiters batch_size now) (priority_order endpoints now) in
          ((select_best_endpoint rl endpoints batch_size now limiters registry).chosen ≡ first)
          × ((select_best_endpoint rl endpoints batch_size now limiters registry).limiters
              ≡ taken rl batch_size now limiters first)
    unfolding select_best_endpoint priority_order
    select-first endpoints limiters registry =
        search_from_lem (filter (is_candidate now) endpoints) limiters registry

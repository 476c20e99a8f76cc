-- ===== src/Strategy/Choice.antt =====
-- What the selected endpoint is, in terms of the endpoints and limiters before the call.
use azoth_balancer.Prelude.{
  ℕ, ◌≤◌, ◌<◌, ◌≡◌, ◌≢◌, ◌↔◌, ◌∙◌, sym, ap, inl, inr, Bool, true, false, List, none, some, arith,
  Text, text_eq_iff, lookup, lookup-insert, filter, find, find-none, find-none_inv, find-holds, All,
  All-mono, All-find, All-filter, All-filter_inv, All-Mem, find-IsSortedBy, is_gt, Option-cases,
}
use mathlib.Core.List.{Mem}
use azoth_balancer.Limiter.{RateLimiter, RefusalKeeps}
use azoth_balancer.Metrics.{Registry}
use azoth_balancer.Endpoint.{RpcEndpoint, is_available, get_total_cost}
use azoth_balancer.Strategy.{is_candidate, reserve_tokens, check_limiter, select_best_endpoint}
use azoth_balancer.Strategy.Search.{accepts, taken, order_of, priority_order, select-first}
use azoth_balancer.Strategy.Partition.{
  rank_cmp, rank_cmp_refl, order_of-IsSortedBy, All-order_of, All-order_of_inv,
}

abbrev pub InTier2 : RpcEndpoint → Type 0
InTier2 e = (50 ≤ e.weight) × (e.weight < 100)

-- `e` is at least as good a choice as `x`: the heavier one wins; between endpoints of one weight
-- the cheaper one in Tier 2; and then the one that was selected last.
pub record Preferred (e x : RpcEndpoint) : Type 0 where
  pub heavier : x.weight ≤ e.weight
  pub cheaper :
      x.weight ≡ e.weight → InTier2 e → get_total_cost e.metrics ≤ get_total_cost x.metrics
  pub more_recent :
      x.weight ≡ e.weight
      → (InTier2 e → get_total_cost e.metrics ≡ get_total_cost x.metrics)
      → x.metrics.last_selected ≤ e.metrics.last_selected

rank_cmp-Preferred : (e x : RpcEndpoint) → is_gt (rank_cmp e x) ≡ false → Preferred e x
unfolding rank_cmp
rank_cmp-Preferred e x h = record {
  heavier = ground arith;
  cheaper = λ p q. ground arith;
  more_recent = λ p q. ground (arith, q);
}

candidate_positive :
    (now : ℕ) (x : RpcEndpoint)
    → is_candidate now x ≡ true
    → (is_available x now ≡ true) × (0 < x.weight)
unfolding is_candidate
candidate_positive now x h = ground arith

positive_candidate :
    (now : ℕ) (x : RpcEndpoint)
    → is_available x now ≡ true
    → 0 < x.weight
    → is_candidate now x ≡ true
unfolding is_candidate
positive_candidate now x a w = ground arith

refuses :
    (now : ℕ) (p : RpcEndpoint → Bool) (x : RpcEndpoint)
    → (is_available x now ≡ true → 0 < x.weight → p x ≡ false) × (is_candidate now x ≡ true)
    → p x ≡ false
refuses now p x (h, c) = let (a, w) = candidate_positive now x c in h a w

-- Reserving tokens at one endpoint leaves the limiters of the others.
reserve_tokens_other :
    {L : Type 0} (rl : RateLimiter L) (limiters : List (Text × L)) (url other : Text)
    (batch_size now : ℕ)
    → other ≢ url
    → lookup other (reserve_tokens rl limiters url batch_size now).1 ≡ lookup other limiters
unfolding reserve_tokens
reserve_tokens_other rl limiters url other batch_size now ne =
    elim (Option-cases (lookup url limiters)) [
      | inl e ↦ rw (e, check_limiter) (ground arith)
      | inr (l, e) ↦
          rw (e, check_limiter)
            (ground (
              arith,
              lookup-insert url other (rl.check_n batch_size now l).1 limiters,
              text_eq_iff url other,
              ne,
            ))
    ]

module _ {L : Type 0} (rl : RateLimiter L) (keeps : RefusalKeeps rl) (endpoints : List RpcEndpoint)
    (batch_size now : ℕ) (limiters : List (Text × L)) (registry : Registry) where
  -- The selected endpoint is one of the endpoints, available and of positive weight, its limiter
  -- lets the batch through, and it is preferred to every other available endpoint of positive
  -- weight whose limiter would let the batch through.
  pub select-best :
      (e : RpcEndpoint)
      → (select_best_endpoint rl endpoints batch_size now limiters registry).chosen ≡ some e
      → Mem e endpoints
        × (is_available e now ≡ true)
        × (0 < e.weight)
        × (accepts rl limiters batch_size now e ≡ true)
        × All
            (λ x.
              is_available x now ≡ true
              → 0 < x.weight
              → accepts rl limiters batch_size now x ≡ true
              → Preferred e x)
            endpoints
  unfolding priority_order
  select-best e h =
      let p = accepts rl limiters batch_size now in
      let found : find p (priority_order endpoints now) ≡ some e =
        sym (select-first rl keeps batch_size now endpoints limiters registry).0 ∙ h in
      let candidates = filter (is_candidate now) endpoints in
      let kept =
        All-filter (λ x. Mem x endpoints) (is_candidate now) endpoints (All-Mem endpoints) in
      let (member, passes) =
        All-find (λ x. Mem x endpoints × (is_candidate now x ≡ true)) p (order_of candidates) e
          found (All-order_of _ candidates kept) in
      let best =
        find-IsSortedBy rank_cmp rank_cmp_refl p (order_of candidates) e
          (order_of-IsSortedBy candidates) found in
      (
        member,
        (candidate_positive now e passes).0,
        (candidate_positive now e passes).1,
        find-holds p (order_of candidates) e found,
        All-mono (λ x q a w t. rank_cmp-Preferred e x (q (positive_candidate now x a w) w t))
            endpoints
            (All-filter_inv _ (is_candidate now) endpoints (All-order_of_inv _ candidates best)),
      )

  -- No endpoint is selected exactly when every available endpoint of positive weight has a limiter
  -- that refuses the batch.
  pub select-none :
      ((select_best_endpoint rl endpoints batch_size now limiters registry).chosen ≡ none)
      ↔ All
          (λ x.
            is_available x now ≡ true → 0 < x.weight → accepts rl limiters batch_size now x ≡ false)
          endpoints
  unfolding priority_order
  select-none =
      let p = accepts rl limiters batch_size now in
      let candidates = filter (is_candidate now) endpoints in
      let chosen = (select-first rl keeps batch_size now endpoints limiters registry).0 in
      (
        λ h.
            let refused = find-none p (order_of candidates) (sym chosen ∙ h) in
            All-mono (λ x q a w. q (positive_candidate now x a w) w) endpoints
              (All-filter_inv _ (is_candidate now) endpoints
                (All-order_of_inv _ candidates refused)),
        λ all.
            let refused =
              All-mono (refuses now p) candidates (All-filter _ (is_candidate now) endpoints all) in
            chosen ∙ find-none_inv p (order_of candidates) (All-order_of _ candidates refused),
      )

  -- Selecting an endpoint leaves the limiter of every other URL as it was; selecting none leaves
  -- all of them.
  pub select-other_limiters :
      ((select_best_endpoint rl endpoints batch_size now limiters registry).chosen ≡ none
        → (select_best_endpoint rl endpoints batch_size now limiters registry).limiters ≡ limiters)
      × ((e : RpcEndpoint) (url : Text)
          → (select_best_endpoint rl endpoints batch_size now limiters registry).chosen ≡ some e
          → url ≢ e.url
          → lookup url (select_best_endpoint rl endpoints batch_size now limiters registry).limiters
            ≡ lookup url limiters)
  select-other_limiters =
      let (chosen, after) = select-first rl keeps batch_size now endpoints limiters registry in
      (
        λ h. after ∙ ap (taken rl batch_size now limiters) (sym chosen ∙ h),
        λ e url h ne.
            ap (lookup url) (after ∙ ap (taken rl batch_size now limiters) (sym chosen ∙ h))
            ∙ reserve_tokens_other rl limiters e.url url batch_size now ne,
      )

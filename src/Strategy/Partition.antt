-- ===== src/Strategy/Partition.antt =====
-- The tiers taken together: which endpoints they hold, and the one order that they are sorted by.
use azoth_balancer.Prelude.{
  ℕ, ◌≤◌, ◌<◌, ◌≡◌, Bool, true, false, ◌&&◌, List, [], ◌∷◌, ◌++◌, Ordering, arith, ltb, leb, All,
  All-append, All-intro, All-append_left, All-append_right, All-mono, sort_by, All-sort_by,
  All-sort_by_inv, sort_by-IsSortedBy, IsSortedBy, IsSortedBy-append, is_gt,
}
use azoth_balancer.Endpoint.{RpcEndpoint}
use azoth_balancer.Strategy.{collect_tiers, priority_cmp, tier1_min_weight, tier2_min_weight}
use azoth_balancer.Strategy.Order.{priority_cmp_trans, priority_cmp_flip}
use azoth_balancer.Strategy.Search.{order_of}

-- The one comparison that the tiers amount to: the cost counts between endpoints of Tier 2.
unfoldable pub rank_cmp : RpcEndpoint → RpcEndpoint → Ordering
unfolding priority_cmp
rank_cmp a b = priority_cmp (leb tier2_min_weight a.weight && ltb a.weight tier1_min_weight) a b

module _ (P : RpcEndpoint → Type 0) where
  All-collect_tiers :
      (xs : List RpcEndpoint)
      → All P xs
      → All (λ x. P x × (100 ≤ x.weight)) (collect_tiers xs).tier1
        × All (λ x. P x × (50 ≤ x.weight) × (x.weight < 100)) (collect_tiers xs).tier2
        × All (λ x. P x × (x.weight < 50)) (collect_tiers xs).tier3
  unfolding collect_tiers
  All-collect_tiers [] h = (tt, tt, tt)
  All-collect_tiers (x ∷ xs) h = ground (arith, h.0, All-collect_tiers xs h.1)

  All-collect_tiers_inv :
      (xs : List RpcEndpoint)
      → All P (collect_tiers xs).tier1
      → All P (collect_tiers xs).tier2
      → All P (collect_tiers xs).tier3
      → All (λ x. 0 < x.weight → P x) xs
  unfolding collect_tiers
  All-collect_tiers_inv [] h1 h2 h3 = tt
  All-collect_tiers_inv (x ∷ xs) h1 h2 h3 =
      (λ positive. ground (arith, h1, h2, h3), ground (arith, All-collect_tiers_inv xs, h1, h2, h3))

  pub All-order_of : (xs : List RpcEndpoint) → All P xs → All P (order_of xs)
  unfolding order_of
  All-order_of xs h =
      let (h1, h2, h3) = All-collect_tiers xs h in
      All-append P _ _ (All-sort_by _ P _ (All-mono (λ x q. q.0) _ h1)) (
        All-append P _ _ (All-sort_by _ P _ (All-mono (λ x q. q.0) _ h2))
          (All-sort_by _ P _ (All-mono (λ x q. q.0) _ h3)))

  pub All-order_of_inv :
      (xs : List RpcEndpoint) → All P (order_of xs) → All (λ x. 0 < x.weight → P x) xs
  unfolding order_of
  All-order_of_inv xs h =
      let rest = All-append_right P (sort_by (priority_cmp false) (collect_tiers xs).tier1) _ h in
      All-collect_tiers_inv xs (All-sort_by_inv _ P _ (All-append_left P _ _ h))
        (All-sort_by_inv _ P _ (All-append_left P _ _ rest))
        (All-sort_by_inv _ P _
          (All-append_right P (sort_by (priority_cmp true) (collect_tiers xs).tier2) _ rest))

-- A tier sorted by its own comparator is sorted by the common one.
ranked :
    (use_cost : Bool) (xs : List RpcEndpoint)
    → All (λ x. (leb tier2_min_weight x.weight && ltb x.weight tier1_min_weight) ≡ use_cost) xs
    → IsSortedBy (priority_cmp use_cost) xs
    → IsSortedBy rank_cmp xs
unfolding rank_cmp
ranked use_cost [] h s = tt
ranked use_cost (x ∷ xs) h s = (rw h.0 s.0, ranked use_cost xs h.1 s.1)

tier_ranked :
    (use_cost : Bool) (xs : List RpcEndpoint)
    → All (λ x. (leb tier2_min_weight x.weight && ltb x.weight tier1_min_weight) ≡ use_cost) xs
    → IsSortedBy rank_cmp (sort_by (priority_cmp use_cost) xs)
tier_ranked use_cost xs h = ranked use_cost _ (All-sort_by (priority_cmp use_cost) _ xs h) (
    sort_by-IsSortedBy (priority_cmp use_cost) (priority_cmp_trans use_cost)
      (priority_cmp_flip use_cost) xs)

rank_cmp_weight : (a b : RpcEndpoint) → b.weight < a.weight → is_gt (rank_cmp a b) ≡ false
unfolding rank_cmp
rank_cmp_weight a b h = ground arith

pub rank_cmp_refl : (a : RpcEndpoint) → is_gt (rank_cmp a a) ≡ false
unfolding rank_cmp
rank_cmp_refl a = ground arith

-- All of one list is heavier than all of the other.
across :
    (w : ℕ) (xs ys : List RpcEndpoint)
    → All (λ x. w ≤ x.weight) xs
    → All (λ y. y.weight < w) ys
    → All (λ x. All (λ y. is_gt (rank_cmp x y) ≡ false) ys) xs
across w xs ys hx hy =
    All-mono (λ x px. All-mono (λ y py. rank_cmp_weight x y (omega arith)) ys hy) xs hx

-- The order in which endpoints are tried is sorted by the common comparison.
pub order_of-IsSortedBy : (xs : List RpcEndpoint) → IsSortedBy rank_cmp (order_of xs)
unfolding order_of
order_of-IsSortedBy xs =
    let (h1, h2, h3) =
      All-collect_tiers (λ x. Unit {0}) xs (All-intro (λ x. Unit {0}) (λ x. tt) xs) in
    let t = collect_tiers xs in
    let s1 = sort_by (priority_cmp false) t.tier1 in
    let s2 = sort_by (priority_cmp true) t.tier2 in
    let s3 = sort_by (priority_cmp false) t.tier3 in
    let heavy = All-sort_by (priority_cmp false) _ t.tier1 (All-mono (λ x q. q.1) t.tier1 h1) in
    let middle = All-sort_by (priority_cmp true) _ t.tier2 h2 in
    let light = All-sort_by (priority_cmp false) _ t.tier3 (All-mono (λ x q. q.1) t.tier3 h3) in
    IsSortedBy-append rank_cmp s1 (s2 ++ s3)
      (tier_ranked false t.tier1 (All-mono (λ x q. ground (arith, q.1)) t.tier1 h1))
      (IsSortedBy-append rank_cmp s2 s3
        (tier_ranked true t.tier2 (All-mono (λ x q. ground (arith, q.1, q.2)) t.tier2 h2))
        (tier_ranked false t.tier3 (All-mono (λ x q. ground (arith, q.1)) t.tier3 h3))
        (across 50 s2 s3 (All-mono (λ x q. q.1) s2 middle) light))
      (across 100 s1 (s2 ++ s3) heavy (
        All-append (λ y. y.weight < 100) s2 s3 (All-mono (λ x q. q.2) s2 middle)
          (All-mono (λ x q. omega arith) s3 light)))

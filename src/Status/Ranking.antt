-- ===== src/Status/Ranking.antt =====
-- What the ranking of the status report lists, and in which order.
use azoth_balancer.Prelude.{
  ◌<◌, ◌≤◌, ◌⊎◌, All, All-mono, Bool-cases, inl, inr, ltb, ℕ, ◌+◌, ◌≡◌, refl, ap, true, false, List,
  [], ◌∷◌, map, arith, is_gt, sort_by, IsSortedBy, sort_by-IsSortedBy, sort_by-Perm,
}
use mathlib.Core.List.{Perm}
use azoth_balancer.Balancer.{LoadBalancer}
use azoth_balancer.Status.{
  PriorityStat, priority_stat, stat_cmp, RankedStat, rank_from, get_endpoint_priority_stats,
}

stat_cmp_trans :
    (a b c : PriorityStat)
    → is_gt (stat_cmp a b) ≡ false
    → is_gt (stat_cmp b c) ≡ false
    → is_gt (stat_cmp a c) ≡ false
unfolding stat_cmp
stat_cmp_trans a b c p q = ground arith

stat_cmp_flip : (a b : PriorityStat) → is_gt (stat_cmp a b) ≡ true → is_gt (stat_cmp b a) ≡ false
unfolding stat_cmp
stat_cmp_flip a b p = ground arith

-- An entry that may come before another one: it weighs more, or as much at a lower cost, or as much
-- at the same cost and was selected at least as long ago.
abbrev pub MayPrecede : PriorityStat → PriorityStat → Type 0
MayPrecede a b =
    (b.weight < a.weight)
    ⊎ ((a.weight ≡ b.weight) × (a.total_cost_ms < b.total_cost_ms))
    ⊎ ((a.weight ≡ b.weight)
        × (a.total_cost_ms ≡ b.total_cost_ms)
        × (b.last_selected_secs_ago ≤ a.last_selected_secs_ago))

stat_cmp-MayPrecede : (a b : PriorityStat) → is_gt (stat_cmp a b) ≡ false → MayPrecede a b
unfolding stat_cmp
stat_cmp-MayPrecede a b h = elim (Bool-cases (ltb b.weight a.weight)) [
  | inl heavier ↦ inl (ground (arith, heavier))
  | inr light ↦ elim (Bool-cases (ltb a.total_cost_ms b.total_cost_ms)) [
    | inl cheaper ↦ inr (inl (ground (arith, h, light), ground (arith, cheaper)))
    | inr dear ↦ inr (
        inr (
          ground (arith, h, light),
          ground (arith, h, light, dear),
          ground (arith, h, light, dear),
        ))
  ]
]

-- Every entry may come before those behind it.
abbrev pub InOrder : List PriorityStat → Type 0
InOrder [] = Unit
InOrder (a ∷ stats) = All (MayPrecede a) stats × InOrder stats

sorted-InOrder : (stats : List PriorityStat) → IsSortedBy stat_cmp stats → InOrder stats
sorted-InOrder [] sorted = tt
sorted-InOrder (a ∷ stats) sorted =
    (All-mono (stat_cmp-MayPrecede a) stats sorted.0, sorted-InOrder stats sorted.1)

-- The ranks count up from a number.
abbrev pub RanksFrom : ℕ → List RankedStat → Type 0
RanksFrom rank [] = Unit
RanksFrom rank (r ∷ rest) = (r.priority_rank ≡ rank) × RanksFrom (rank + 1) rest

rank_from-stats :
    (rank : ℕ) (stats : List PriorityStat) → map (λ r. r.stat) (rank_from rank stats) ≡ stats
unfolding rank_from
rank_from-stats rank [] = refl
rank_from-stats rank (stat ∷ stats) = ap (◌∷◌ stat) (rank_from-stats (rank + 1) stats)

rank_from-RanksFrom : (rank : ℕ) (stats : List PriorityStat) → RanksFrom rank (rank_from rank stats)
unfolding rank_from
rank_from-RanksFrom rank [] = tt
rank_from-RanksFrom rank (stat ∷ stats) = (refl, rank_from-RanksFrom (rank + 1) stats)

-- The entries of the ranking, without their ranks.
abbrev pub ranked : {F L : Type 0} → LoadBalancer F L → (now unix_secs : ℕ) → List PriorityStat
ranked b now unix_secs = map (λ r. r.stat) (get_endpoint_priority_stats b now unix_secs).endpoints

-- The ranking lists the entry of every endpoint once, with the ranks from one on, and no entry
-- before one that weighs more, costs less at the same weight, or was selected longer ago at the
-- same weight and cost.
pub priority_stats_ranked :
    {F L : Type 0} (b : LoadBalancer F L) (now unix_secs : ℕ)
    → Perm (ranked b now unix_secs) (map (priority_stat now unix_secs) b.endpoints)
      × InOrder (ranked b now unix_secs)
      × RanksFrom 1 (get_endpoint_priority_stats b now unix_secs).endpoints
unfolding get_endpoint_priority_stats
priority_stats_ranked b now unix_secs =
    let stats = map (priority_stat now unix_secs) b.endpoints in
    let listed = rank_from-stats 1 (sort_by stat_cmp stats) in
    (
      rw listed (sort_by-Perm stat_cmp stats),
      rw listed (
          sorted-InOrder (sort_by stat_cmp stats)
            (sort_by-IsSortedBy stat_cmp stat_cmp_trans stat_cmp_flip stats)),
      rank_from-RanksFrom 1 (sort_by stat_cmp stats),
    )

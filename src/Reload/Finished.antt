-- ===== src/Reload/Finished.antt =====
-- The second part of a reload, whatever came after the first one.
use azoth_balancer.Prelude.{
  ℕ, ◌≤◌, ◌≡◌, refl, List, [], ◌∷◌, map, Text, lookup, find, All, All-mono, Given, Option-cases,
  inl, inr,
}
use azoth_balancer.Metrics.{gauge_moves}
use azoth_balancer.Endpoint.{RpcEndpoint}
use azoth_balancer.Balancer.{LoadBalancer, has_url}
use azoth_balancer.Balancer.Invariant.{static, statics, DistinctUrls, Inv}
use azoth_balancer.Balancer.Configured.{insert-Given}
use azoth_balancer.Reload.{install}
use azoth_balancer.Reload.Phases.{Pending, share_metrics, share_limiters, finish_reload}

-- What is to be written makes a balancer with the invariant.
pub record IsSound {F L : Type 0} (p : Pending F L) : Type 0 where
  pub distinct : DistinctUrls (statics p.endpoints)
  pub positive : All (λ s. (1 ≤ s.rate_limit_per_sec) × (1 ≤ s.burst_size)) (statics p.endpoints)
  pub limited : All (λ s. Given (lookup s.url p.rate_limiters)) (statics p.endpoints)
  pub batch_pos : 1 ≤ p.new.max_batch_size

module _ (current : List RpcEndpoint) where
  share_metrics-static : (e : RpcEndpoint) → static (share_metrics current e) ≡ static e
  unfolding share_metrics
  share_metrics-static e = elim (Option-cases (find (has_url e.url) current)) [
    | inl new ↦ rw (new, share_metrics) refl
    | inr (old, found) ↦ rw (found, share_metrics) refl
  ]

  share_metrics-statics :
      (eps : List RpcEndpoint) → statics (map (share_metrics current) eps) ≡ statics eps
  share_metrics-statics [] = refl
  share_metrics-statics (e ∷ eps) = cc (share_metrics-static e, share_metrics-statics eps)

module _ {L : Type 0} (current : List (Text × L)) where
  share_limiters-Given :
      (shared : List Text) (limiters : List (Text × L)) (url : Text)
      → Given (lookup url limiters)
      → Given (lookup url (share_limiters current shared limiters))
  unfolding share_limiters
  share_limiters-Given [] limiters url h = h
  share_limiters-Given (u ∷ shared) limiters url h = elim (Option-cases (lookup u current)) [
    | inl without ↦ rw (without, share_limiters) (share_limiters-Given shared limiters url h)
    | inr (l, found) ↦
        rw (found, share_limiters)
          (insert-Given url u l (share_limiters current shared limiters)
            (share_limiters-Given shared limiters url h))
  ]

module _ {F L : Type 0} (b : LoadBalancer F L) where
  -- The second part of a reload keeps the invariant, whatever came in between.
  pub finish_reload-Inv :
      (p : Pending F L) (now : ℕ) → Inv b → IsSound p → Inv (finish_reload b p now)
  unfolding finish_reload install
  finish_reload-Inv p now inv sound =
      let same = share_metrics-statics b.endpoints p.endpoints in
      record {
        distinct = rw same sound.distinct;
        positive = rw same sound.positive;
        limited = rw same (
            All-mono (λ s h. share_limiters-Given b.rate_limiters p.shared p.rate_limiters s.url h)
              (statics p.endpoints) sound.limited);
        batch_pos = sound.batch_pos;
        connect_timeout_synced = inv.connect_timeout_synced;
        timeout_synced = inv.timeout_synced;
        pool_idle_timeout_synced = inv.pool_idle_timeout_synced;
        pool_max_idle_synced = inv.pool_max_idle_synced;
      }

  pub finish_reload-moves :
      (p : Pending F L) (now : ℕ)
      → gauge_moves (finish_reload b p now).registry ≡ gauge_moves b.registry
  unfolding finish_reload install gauge_moves
  finish_reload-moves p now = refl

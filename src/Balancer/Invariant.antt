-- ===== src/Balancer/Invariant.antt =====
-- What holds of the balancer between any two operations.
use azoth_balancer.Prelude.{ℕ, ◌≤◌, ◌≡◌, ◌≢◌, List, [], ◌∷◌, map, Text, lookup, All, Given}
use azoth_balancer.Metrics.{Registry}
use azoth_balancer.Endpoint.{RpcEndpoint}
use azoth_balancer.Balancer.{LoadBalancer}

-- What the configuration says of an endpoint.
pub record Static : Type 0 where
  pub url : Text
  pub rate_limit_per_sec : ℕ
  pub burst_size : ℕ
  pub weight : ℕ

abbrev pub static : RpcEndpoint → Static
static ep = record {
  url = ep.url;
  rate_limit_per_sec = ep.rate_limit_per_sec;
  burst_size = ep.burst_size;
  weight = ep.weight;
}

abbrev pub statics : List RpcEndpoint → List Static
statics = map static

abbrev pub DistinctUrls : List Static → Type 0
DistinctUrls [] = Unit
DistinctUrls (s ∷ rest) = All (λ x. x.url ≢ s.url) rest × DistinctUrls rest

-- The invariant of the balancer: the URLs are distinct, every endpoint has a positive rate and
-- burst and a limiter, batches of one are allowed, and the client was built from the settings that
-- are recorded for it.
pub record Inv {F L : Type 0} (b : LoadBalancer F L) : Type 0 where
  pub distinct : DistinctUrls (statics b.endpoints)
  pub positive : All (λ s. (1 ≤ s.rate_limit_per_sec) × (1 ≤ s.burst_size)) (statics b.endpoints)
  pub limited : All (λ s. Given (lookup s.url b.rate_limiters)) (statics b.endpoints)
  pub batch_pos : 1 ≤ b.max_batch_size
  pub connect_timeout_synced : b.client.connect_timeout_ms ≡ b.connect_timeout_ms
  pub timeout_synced : b.client.timeout_secs ≡ b.timeout_secs
  pub pool_idle_timeout_synced : b.client.pool_idle_timeout_secs ≡ b.pool_idle_timeout_secs
  pub pool_max_idle_synced : b.client.pool_max_idle_per_host ≡ b.pool_max_idle_per_host

module _ {F L : Type 0} (b : LoadBalancer F L) where
  -- A change of the endpoints that keeps what is configured, and of the registry.
  pub Inv-endpoints :
      (eps : List RpcEndpoint) (registry : Registry)
      → statics eps ≡ statics b.endpoints
      → Inv b
      → Inv (record b { endpoints = eps; registry = registry })
  Inv-endpoints eps registry same inv = record {
    distinct = rw same inv.distinct;
    positive = rw same inv.positive;
    limited = rw same inv.limited;
    batch_pos = inv.batch_pos;
    connect_timeout_synced = inv.connect_timeout_synced;
    timeout_synced = inv.timeout_synced;
    pool_idle_timeout_synced = inv.pool_idle_timeout_synced;
    pool_max_idle_synced = inv.pool_max_idle_synced;
  }

  -- A change of the limiters that leaves every endpoint one.
  pub Inv-limiters :
      (limiters : List (Text × L)) (registry : Registry)
      → All (λ s. Given (lookup s.url limiters)) (statics b.endpoints)
      → Inv b
      → Inv (record b { rate_limiters = limiters; registry = registry })
  Inv-limiters limiters registry limited inv = record {
    distinct = inv.distinct;
    positive = inv.positive;
    limited = limited;
    batch_pos = inv.batch_pos;
    connect_timeout_synced = inv.connect_timeout_synced;
    timeout_synced = inv.timeout_synced;
    pool_idle_timeout_synced = inv.pool_idle_timeout_synced;
    pool_max_idle_synced = inv.pool_max_idle_synced;
  }

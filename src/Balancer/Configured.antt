-- ===== src/Balancer/Configured.antt =====
-- Endpoints and limiters as a configuration describes them: what the start of the balancer and a
-- reload have in common.
use azoth_balancer.Prelude.{
  ℕ, ◌≤◌, ◌≢◌, List, [], ◌∷◌, map, arith, Text, text_eq, text_eq_refl, get_or, lookup, insert,
  lookup-insert, All, All-mono, All-map, Given, Bool-cases, inl, inr,
}
use azoth_balancer.Limiter.{RateLimiter, create_rate_limiter}
use azoth_balancer.Config.{EndpointConfig}
use azoth_balancer.Config.Validation.{Distinct}
use azoth_balancer.Config.Finalize.Complete.{IsReady}
use azoth_balancer.Balancer.Invariant.{Static, DistinctUrls}

-- A positive burst and rate make a limiter.
pub create_rate_limiter-total :
    {L : Type 0} (rl : RateLimiter L) (burst rate : ℕ)
    → 1 ≤ burst
    → 1 ≤ rate
    → Given (create_rate_limiter rl burst rate)
unfolding create_rate_limiter
create_rate_limiter-total rl burst rate b r = ground arith

-- What a configuration says of an endpoint of a given weight.
abbrev pub configured : EndpointConfig → ℕ → Static
configured cfg weight = record {
  url = cfg.url;
  rate_limit_per_sec = cfg.rate_limit_per_sec;
  burst_size = cfg.burst_size;
  weight = weight;
}

pub insert-Given :
    {L : Type 0} (url k : Text) (l : L) (limiters : List (Text × L))
    → Given (lookup url limiters)
    → Given (lookup url (insert k l limiters))
insert-Given url k l limiters h = elim (Bool-cases (text_eq k url)) [
  | inl hit ↦ rw (lookup-insert, hit) tt
  | inr miss ↦ rw (lookup-insert, miss) h
]

pub insert-Given_self :
    {L : Type 0} (k : Text) (l : L) (limiters : List (Text × L))
    → Given (lookup k (insert k l limiters))
insert-Given_self k l limiters = rw (lookup-insert, text_eq_refl) tt

abbrev pub configured_all : List EndpointConfig → List Static
configured_all = map λ c. configured c (get_or c.weight 0)

configured_url :
    (c x : EndpointConfig)
    → x.url ≢ c.url
    → (configured x (get_or x.weight 0)).url ≢ (configured c (get_or c.weight 0)).url
configured_url c x ne = ne

pub configured_all-Distinct :
    (cs : List EndpointConfig) → Distinct cs → DistinctUrls (configured_all cs)
configured_all-Distinct [] d = tt
configured_all-Distinct (c ∷ cs) d =
    (All-map _ _ cs (All-mono (configured_url c) cs d.0), configured_all-Distinct cs d.1)

abbrev pub Positive : Static → Type 0
Positive s = (1 ≤ s.rate_limit_per_sec) × (1 ≤ s.burst_size)

pub configured_all-Positive :
    (cs : List EndpointConfig) → All IsReady cs → All Positive (configured_all cs)
configured_all-Positive [] ready = tt
configured_all-Positive (c ∷ cs) ready =
    ((ready.0.valid.rate_pos, ready.0.valid.burst_pos), configured_all-Positive cs ready.1)

-- ===== src/Balancer/Start.antt =====
-- `LoadBalancer::new`: when it goes through, and what it starts with.
use azoth_balancer.Prelude.{
  ℕ, ◌<◌, ◌≡◌, ◌↔◌, ◌⊎◌, Bool, false, ◌&&◌, leb, ensure, ◌>>=◌, arith, Bool-cases, refl, subst, sym,
  ap, true, List, [], ◌∷◌, Option, none, some, Text, get_or, lookup, insert, All, Given, Sat,
  Sat-value, Result, Result-cases, inl, inr, collect,
}
use azoth_balancer.Float.{Float}
use azoth_balancer.Limiter.{RateLimiter, create_rate_limiter}
use azoth_balancer.Metrics.{Registry}
use azoth_balancer.Endpoint.{RpcEndpoint, is_available, is_in_cooldown}
use azoth_balancer.Config.{
  Config, ConfigError, EndpointConfig, ServerConfig, BalancerConfig, sanitize,
  get_default_endpoints,
}
use azoth_balancer.Config.Finalize.{finalize, default_config, default_balancer}
use azoth_balancer.Config.Finalize.Complete.{
  IsReady, IsCompleteBalancer, finalize-IsComplete, finalize-fails, finalize-error,
}
use azoth_balancer.Balancer.{Client, LoadBalancer, fresh_endpoint, new_endpoint, init_limiters, new}
use azoth_balancer.Balancer.Invariant.{statics, Inv}
use azoth_balancer.Balancer.Configured.{
  create_rate_limiter-total, configured, configured_all, insert-Given, insert-Given_self,
  configured_all-Distinct, configured_all-Positive, Positive,
}

module _ (timeout_secs now : ℕ) where
  collect-configured :
      (es : List EndpointConfig)
      → All IsReady es
      → (eps : List RpcEndpoint) × (collect (new_endpoint timeout_secs now) es ≡ some eps)
        × (statics eps ≡ configured_all es)
        × All (λ e. (t : ℕ) → is_available e t ≡ true) eps
  unfolding new_endpoint is_available is_in_cooldown
  collect-configured [] ready = ([], refl, refl, tt)
  collect-configured (e ∷ es) ready =
      let (w, given, _) = Sat-value {P = λ x. Unit {0}} e.weight ready.0.weighted in
      let (eps, h, same, available) = collect-configured es ready.1 in
      let as_new : configured e w ≡ configured e (get_or e.weight 0) =
        ap (λ o. configured e (get_or o 0)) (sym given) in
      (
        fresh_endpoint timeout_secs now w e ∷ eps,
        simp (given, h),
        rw (same, as_new) refl,
        (λ t. refl, available),
      )

module _ {L : Type 0} (rl : RateLimiter L) where
  init_limiters-Given :
      (eps : List RpcEndpoint) (limiters : List (Text × L))
      → All Positive (statics eps)
      → (after : List (Text × L)) × (init_limiters rl eps limiters ≡ some after)
        × ((url : Text) → Given (lookup url limiters) → Given (lookup url after))
        × All (λ s. Given (lookup s.url after)) (statics eps)
  unfolding init_limiters
  init_limiters-Given [] limiters positive = (limiters, refl, λ url h. h, tt)
  init_limiters-Given (e ∷ es) limiters positive =
      let (l, made, _) =
        Sat-value {P = λ x. Unit {0}} (create_rate_limiter rl e.burst_size e.rate_limit_per_sec) (
          create_rate_limiter-total rl e.burst_size e.rate_limit_per_sec positive.0.1
            positive.0.0) in
      let (after, returns, kept, limited) =
        init_limiters-Given es (insert e.url l limiters) positive.1 in
      (
        after,
        simp (made, returns),
        λ url h. kept url (insert-Given url e.url l limiters h),
        (kept e.url (insert-Given_self e.url l limiters), limited),
      )

-- What the balancer starts with, for the endpoints of the finalized configuration.
pub record Started {F L : Type 0} (endpoints : List EndpointConfig) (b : LoadBalancer F L)
    : Type 0 where
  pub inv : Inv b
  pub as_configured : statics b.endpoints ≡ configured_all endpoints
  pub available : All (λ e. (t : ℕ) → is_available e t ≡ true) b.endpoints

-- What the HTTP client is built with.
abbrev pub client_settings : {F : Type 0} → BalancerConfig F → Client
client_settings cfg = record {
  connect_timeout_ms = get_or cfg.connect_timeout_ms 0;
  timeout_secs = get_or cfg.timeout_secs 0;
  pool_idle_timeout_secs = get_or cfg.pool_idle_timeout_secs 0;
  pool_max_idle_per_host = get_or cfg.pool_max_idle_per_host 0;
}

-- Whether the client is built and the semaphore holds the permits.
abbrev pub can_start :
    {F : Type 0} → (can_build : Client → Bool) (max_permits : ℕ) → BalancerConfig F → Bool
can_start can_build max_permits cfg =
    can_build (client_settings cfg) && leb (get_or cfg.max_concurrency 0) max_permits

-- The start where all but the client and the semaphore go through.
abbrev StartedIf : {F L : Type 0} → List EndpointConfig → Bool → Option (LoadBalancer F L) → Type 0
StartedIf endpoints true o = Sat o (Started endpoints)
StartedIf endpoints false o = o ≡ none

started_if :
    {F L : Type 0} (endpoints : List EndpointConfig) (built permitted : Bool) (b : LoadBalancer F L)
    → Started endpoints b
    → StartedIf endpoints
        (built && permitted)
        (ensure built >>= λ _. ensure permitted >>= λ _. some b)
started_if endpoints true true b started = started
started_if endpoints true false b started = refl
started_if endpoints false permitted b started = refl

module _ {F L : Type 0} (fl : Float F) (rl : RateLimiter L) (can_build : Client → Bool)
    (max_permits : ℕ) (config : Option (Config F)) (config_path : Text) (now : ℕ)
    (registry : Registry) where
  new-given :
      (c : Config F) (server : ServerConfig) (cfg : BalancerConfig F)
      → finalize fl (get_or config default_config) ≡ Result.ok c
      → c.server ≡ some server
      → Given server.bind_addr
      → c.balancer ≡ some cfg
      → IsCompleteBalancer cfg
      → StartedIf
          (get_or cfg.endpoints [])
          (can_start can_build max_permits cfg)
          (new fl rl can_build max_permits config config_path now registry)
  unfolding new
  new-given c server cfg finalized hs bound hb done =
      let (bind_addr, h0, _) = Sat-value server.bind_addr bound in
      let (interval, h1, _) = Sat-value cfg.health_check_interval_secs done.health_check_interval in
      let (check, h2, _) = Sat-value cfg.health_check_timeout_secs done.health_check_timeout in
      let (base, h3, _) = Sat-value cfg.base_cooldown_secs done.base_cooldown in
      let (most, h4, _) = Sat-value cfg.max_cooldown_secs done.max_cooldown in
      let (batch, h5, pos) = Sat-value cfg.max_batch_size done.batch_pos in
      let (smoothing, h6, _) = Sat-value cfg.latency_smoothing_factor done.latency_smoothing in
      let (permits, h7, _) = Sat-value cfg.max_concurrency done.concurrency_pos in
      let (connect, h8, _) = Sat-value cfg.connect_timeout_ms done.connect_timeout in
      let (timeout, h9, _) = Sat-value cfg.timeout_secs done.timeout in
      let (idle, h10, _) = Sat-value cfg.pool_idle_timeout_secs done.pool_idle_timeout in
      let (hosts, h11, _) = Sat-value cfg.pool_max_idle_per_host done.pool_max_idle in
      let (es, h12, (_, ready, distinct)) = Sat-value cfg.endpoints done.endpoints_ready in
      let (eps, h13, same, available) = collect-configured timeout now es ready in
      let (limiters, h14, _, limited) =
        init_limiters-Given rl eps [] (rw same (configured_all-Positive es ready)) in
      simp (finalized, hs, hb, h0, h1, h2, h3, h4, h5, h6, h7, h8, h9, h10, h11, h12, h13, h14)
        (started_if {F = F} {L = L} es
          (can_build (record {
            connect_timeout_ms = connect;
            timeout_secs = timeout;
            pool_idle_timeout_secs = idle;
            pool_max_idle_per_host = hosts;
          }))
          (leb permits max_permits) _
          (record {
            inv = record {
              distinct = rw same (configured_all-Distinct es distinct);
              positive = rw same (configured_all-Positive es ready);
              limited = limited;
              batch_pos = pos;
              connect_timeout_synced = refl;
              timeout_synced = refl;
              pool_idle_timeout_synced = refl;
              pool_max_idle_synced = refl;
            };
            as_configured = same;
            available = available;
          }))

  new-StartedIf :
      (c : Config F)
      → finalize fl (get_or config default_config) ≡ Result.ok c
      → Sat c.balancer (λ cfg.
        StartedIf
          (get_or cfg.endpoints [])
          (can_start can_build max_permits cfg)
          (new fl rl can_build max_permits config config_path now registry))
  new-StartedIf c finalized =
      let complete = finalize-IsComplete fl (get_or config default_config) c finalized in
      let (server, hs, bound) = Sat-value c.server complete.0 in
      let (cfg, hb, done) = Sat-value c.balancer complete.1 in
      rw hb (new-given c server cfg finalized hs bound hb done)

  -- When the configuration can be finalized, the client built and the semaphore made, the balancer
  -- starts: with the invariant, with the endpoints of the finalized configuration, and with all of
  -- them available.
  pub new-Started :
      (c : Config F) (cfg : BalancerConfig F)
      → finalize fl (get_or config default_config) ≡ Result.ok c
      → c.balancer ≡ some cfg
      → can_start can_build max_permits cfg ≡ true
      → Sat
          (new fl rl can_build max_permits config config_path now registry)
          (Started (get_or cfg.endpoints []))
  new-Started c cfg finalized hb ready = rw ready at (rw hb at (new-StartedIf c finalized))

  -- And else it panics.
  pub new-refused :
      (c : Config F) (cfg : BalancerConfig F)
      → finalize fl (get_or config default_config) ≡ Result.ok c
      → c.balancer ≡ some cfg
      → can_start can_build max_permits cfg ≡ false
      → new fl rl can_build max_permits config config_path now registry ≡ none
  new-refused c cfg finalized hb unready = rw unready at (rw hb at (new-StartedIf c finalized))

  refused-none :
      (e : ConfigError)
      → finalize fl (get_or config default_config) ≡ Result.err e
      → new fl rl can_build max_permits config config_path now registry ≡ none
  unfolding new
  refused-none e failed = simp failed

  -- The start panics exactly when no configured endpoint (or, with none configured, no default one)
  -- passes the checks by itself, or the configuration can be finalized and the HTTP client cannot
  -- be built with its settings, or its concurrency is more than a semaphore can hold.
  pub new-panics : (new fl rl can_build max_permits config config_path now registry ≡ none) ↔ (
      All
        (λ e. sanitize e ≡ none)
        (get_or
          (get_or (get_or config default_config).balancer default_balancer).endpoints
          get_default_endpoints)
      ⊎ ((c : Config F) × (cfg : BalancerConfig F) × (finalize fl (get_or config default_config)
            ≡ Result.ok c)
          × (c.balancer ≡ some cfg)
          × ((can_build (client_settings cfg) ≡ false)
              ⊎ (max_permits < get_or cfg.max_concurrency 0))))
  new-panics =
      let raw = get_or config default_config in
      (
        λ panics. elim (Result-cases (finalize fl raw)) [
          | inr (e, failed) ↦ inl ((finalize-fails fl raw).0 (finalize-error fl raw e failed))
          | inl (c, ok) ↦
              let complete = finalize-IsComplete fl raw c ok in
              let (cfg, hb, done) = Sat-value c.balancer complete.1 in
              elim (Bool-cases (can_start can_build max_permits cfg)) [
                | inl ready ↦ absurd (
                    subst (λ o. Sat o (Started (get_or cfg.endpoints []))) panics
                      (new-Started c cfg ok hb ready))
                | inr unready ↦ inr (c, cfg, ok, hb, ground (arith, unready))
              ]
        ],
        λ reason. elim reason [
          | inl all ↦ refused-none _ ((finalize-fails fl raw).1 all)
          | inr (c, cfg, ok, hb, inl unbuilt) ↦ new-refused c cfg ok hb (ground (arith, unbuilt))
          | inr (c, cfg, ok, hb, inr many) ↦ new-refused c cfg ok hb (ground (arith, many))
        ],
      )

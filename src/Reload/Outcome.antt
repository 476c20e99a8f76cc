-- ===== src/Reload/Outcome.antt =====
-- What the loop of `reload` builds: the endpoints, their state and their limiters.
use azoth_balancer.Prelude.{
  ℕ, ◌≤◌, ◌≡◌, refl, sym, ap, subst, ◌∙◌, true, not, ◌||◌, List, [], ◌∷◌, ◌++◌, Option, none, some,
  Text, text_eq, text_eq_iff, get_or, lookup, insert, find, All, All-append, Given, Option-cases,
  Bool-cases, inl, inr, ◌==◌,
}
use mathlib.Core.List.{append-nil, append_assoc, map-append}
use azoth_balancer.Limiter.{RateLimiter, create_rate_limiter}
use azoth_balancer.Metrics.{Metric, Registry, counter, gauge_moves}
use azoth_balancer.Endpoint.{RpcEndpoint}
use azoth_balancer.Config.{EndpointConfig}
use azoth_balancer.Config.Finalize.Complete.{IsReady}
use azoth_balancer.Balancer.{has_url, fresh_endpoint}
use azoth_balancer.Balancer.Invariant.{static, statics}
use azoth_balancer.Balancer.Configured.{
  create_rate_limiter-total, configured, configured_all, insert-Given, insert-Given_self,
}
use azoth_balancer.Reload.Quiet.{initialize-moves, initialize-counter}
use azoth_balancer.Reload.Rebuild.{
  Rebuilt, kept_limiter, updated_endpoint, initialize_endpoint_metrics, rebuild_one, rebuild,
}

-- An endpoint after the reload has the state of the one before it, or that of a new endpoint.
abbrev pub KeepsState : Option RpcEndpoint → RpcEndpoint → Type 0
KeepsState (some old) e =
    (e.healthy ≡ old.healthy)
    × (e.cooldown_until ≡ old.cooldown_until)
    × (e.cooldown_attempts ≡ old.cooldown_attempts)
    × (e.last_check ≡ old.last_check)
    × (e.metrics ≡ old.metrics)
KeepsState none e = (e.healthy ≡ true) × (e.cooldown_until ≡ none) × (e.cooldown_attempts ≡ 0)

-- The endpoint that was found has the URL that was sought, and a limiter.
abbrev Present : {L : Type 0} → Text → List (Text × L) → Option RpcEndpoint → Type 0
Present url limiters none = Unit {0}
Present url limiters (some old) = (old.url ≡ url) × Given (lookup url limiters)

module _ {L : Type 0} (rl : RateLimiter L) (timeout_secs now : ℕ)
    (current_limiters : List (Text × L)) where
  -- One round appends one endpoint and writes its limiter.
  record Round (weight : ℕ) (cfg : EndpointConfig) (old : Option RpcEndpoint) (r : Rebuilt L)
      : Type 0 where
    endpoint : RpcEndpoint
    limiter : L
    registry : Registry
    returns :
        rebuild_one rl timeout_secs now weight current_limiters cfg old r
        ≡ some (record {
          endpoints = r.endpoints ++ endpoint ∷ [];
          rate_limiters = insert cfg.url limiter r.rate_limiters;
          registry = registry;
        })
    as_configured : static endpoint ≡ configured cfg weight
    keeps_state : KeepsState old endpoint
    quiet : gauge_moves registry ≡ gauge_moves r.registry
    counts : (m : Metric) (url : Text) → counter m url registry ≡ counter m url r.registry

  kept :
      (old : RpcEndpoint) (cfg : EndpointConfig) (limiters : List (Text × L)) (o : Option L)
      → 1 ≤ cfg.burst_size
      → 1 ≤ cfg.rate_limit_per_sec
      → Given o
      → (l : L) × (kept_limiter rl old cfg o limiters ≡ some (insert cfg.url l limiters))
  unfolding kept_limiter
  kept old cfg limiters none burst rate given = elim given [ ]
  kept old cfg limiters (some l0) burst rate given =
      elim (Option-cases (create_rate_limiter rl cfg.burst_size cfg.rate_limit_per_sec)) [
        | inl panics ↦ absurd (rw panics at (create_rate_limiter-total rl _ _ burst rate))
        | inr (l, made) ↦
            elim (Bool-cases (
              not (old.rate_limit_per_sec == cfg.rate_limit_per_sec)
              || not (old.burst_size == cfg.burst_size))) [
                | inl changed ↦ (l, rw (changed, made))
                | inr same ↦ (l0, rw same)
              ]
      ]

  round :
      (weight : ℕ) (cfg : EndpointConfig) (old : Option RpcEndpoint) (r : Rebuilt L)
      → 1 ≤ cfg.burst_size
      → 1 ≤ cfg.rate_limit_per_sec
      → Present cfg.url current_limiters old
      → Round weight cfg old r
  unfolding rebuild_one
  round weight cfg none r burst rate present =
      elim (Option-cases (create_rate_limiter rl cfg.burst_size cfg.rate_limit_per_sec)) [
        | inl panics ↦ absurd (rw panics at (create_rate_limiter-total rl _ _ burst rate))
        | inr (l, made) ↦ record {
          endpoint = fresh_endpoint timeout_secs now weight cfg;
          limiter = l;
          registry = initialize_endpoint_metrics cfg.url r.registry;
          returns = rw made;
          as_configured = refl;
          keeps_state = (refl, refl, refl);
          quiet = initialize-moves cfg.url r.registry;
          counts = initialize-counter cfg.url r.registry;
        }
      ]
  round weight cfg (some old) r burst rate (same_url, given) =
      let (l, made) =
        kept old cfg r.rate_limiters (lookup cfg.url current_limiters) burst rate given in
      record {
        endpoint = updated_endpoint old weight cfg;
        limiter = l;
        registry = r.registry;
        returns = rw made;
        as_configured =
            ap
              (λ (url : Text). record {
                url = url;
                rate_limit_per_sec = cfg.rate_limit_per_sec;
                burst_size = cfg.burst_size;
                weight = weight;
              })
              same_url;
        keeps_state = (refl, refl, refl, refl, refl);
        quiet = refl;
        counts = λ m url. refl;
      }

-- What is found among endpoints that all have limiters.
present :
    {L : Type 0} (url : Text) (limiters : List (Text × L)) (current : List RpcEndpoint)
    → All (λ s. Given (lookup s.url limiters)) (statics current)
    → Present url limiters (find (has_url url) current)
present url limiters [] h = tt
present url limiters (x ∷ xs) h = elim (Bool-cases (text_eq x.url url)) [
  | inl hit ↦ let same = (text_eq_iff x.url url).0 hit in rw hit (same, rw same at h.0)
  | inr miss ↦ rw miss (present url limiters xs h.1)
]

module _ {L : Type 0} (rl : RateLimiter L) (timeout_secs now : ℕ) (current : List RpcEndpoint)
    (current_limiters : List (Text × L)) where
  -- What the loop has added when it is through with `cfgs`.
  pub record Built (cfgs : List EndpointConfig) (r r' : Rebuilt L) : Type 0 where
    pub as_configured : statics r'.endpoints ≡ statics r.endpoints ++ configured_all cfgs
    pub limiters_kept :
        (url : Text) → Given (lookup url r.rate_limiters) → Given (lookup url r'.rate_limiters)
    pub limited : All (λ s. Given (lookup s.url r'.rate_limiters)) (configured_all cfgs)
    pub quiet : gauge_moves r'.registry ≡ gauge_moves r.registry
    pub counts : (m : Metric) (url : Text) → counter m url r'.registry ≡ counter m url r.registry
    pub keeps_state :
        All (λ e. KeepsState (find (has_url e.url) current) e) r.endpoints
        → All (λ e. KeepsState (find (has_url e.url) current) e) r'.endpoints

  rebuild_step :
      (w : ℕ) (c : EndpointConfig) (cs : List EndpointConfig) (r next : Rebuilt L)
      → c.weight ≡ some w
      → rebuild_one rl timeout_secs now w current_limiters c (find (has_url c.url) current) r
        ≡ some next
      → rebuild rl timeout_secs now current current_limiters (c ∷ cs) r
        ≡ rebuild rl timeout_secs now current current_limiters cs next
  unfolding rebuild
  rebuild_step w c cs r next given returns = simp (given, returns)

  -- The effect of one round and that of the rest.
  after-Round :
      (w : ℕ) (c : EndpointConfig) (cs : List EndpointConfig) (r r' : Rebuilt L)
      → c.weight ≡ some w
      → (one : Round rl timeout_secs now current_limiters w c (find (has_url c.url) current) r)
      → Built cs
          (record {
            endpoints = r.endpoints ++ one.endpoint ∷ [];
            rate_limiters = insert c.url one.limiter r.rate_limiters;
            registry = one.registry;
          })
          r'
      → Built (c ∷ cs) r r'
  after-Round w c cs r r' given one built =
      let same_weight : get_or c.weight 0 ≡ w = ap (λ o. get_or o 0) given in
      let as_new : static one.endpoint ≡ configured c (get_or c.weight 0) =
        one.as_configured ∙ ap (configured c) (sym same_weight) in
      let here : Given (lookup c.url r'.rate_limiters) =
        built.limiters_kept c.url (insert-Given_self c.url one.limiter r.rate_limiters) in
      record {
        as_configured =
            built.as_configured
            ∙ ap (λ l. l ++ configured_all cs) (map-append static r.endpoints (one.endpoint ∷ []))
            ∙ append_assoc (statics r.endpoints) (static one.endpoint ∷ []) (configured_all cs)
            ∙ ap (λ s. statics r.endpoints ++ s ∷ configured_all cs) as_new;
        limiters_kept =
            λ url h. built.limiters_kept url (insert-Given url c.url one.limiter r.rate_limiters h);
        limited = (here, built.limited);
        quiet = built.quiet ∙ one.quiet;
        counts = λ m url. built.counts m url ∙ one.counts m url;
        keeps_state = λ h. built.keeps_state (
            All-append _ _ _ h (
              subst (λ url. KeepsState (find (has_url url) current) one.endpoint)
                  (sym (ap (λ s. s.url) as_new)) one.keeps_state,
              tt,
            ));
      }

  pub rebuild-Built :
      (cfgs : List EndpointConfig) (r : Rebuilt L)
      → All IsReady cfgs
      → All (λ s. Given (lookup s.url current_limiters)) (statics current)
      → (r' : Rebuilt L) × (rebuild rl timeout_secs now current current_limiters cfgs r ≡ some r')
        × Built cfgs r r'
  unfolding rebuild
  rebuild-Built [] r ready limited = (
    r,
    refl,
    record {
      as_configured = sym (append-nil _);
      limiters_kept = λ url h. h;
      limited = tt;
      quiet = refl;
      counts = λ m url. refl;
      keeps_state = λ h. h;
    },
  )
  rebuild-Built (c ∷ cs) r ready limited = elim (Option-cases c.weight) [
    | inl missing ↦ absurd (rw missing at ready.0.weighted)
    | inr (w, given) ↦
        let one =
          round rl timeout_secs now current_limiters w c (find (has_url c.url) current) r
            ready.0.valid.burst_pos ready.0.valid.rate_pos
            (present c.url current_limiters current limited) in
        let (r', returns, built) = rebuild-Built cs _ ready.1 limited in
        (
          r',
          rebuild_step w c cs r _ given one.returns ∙ returns,
          after-Round w c cs r r' given one built,
        )
  ]

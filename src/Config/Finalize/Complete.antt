-- ===== src/Config/Finalize/Complete.antt =====
-- What a finalized configuration guarantees to the code that takes it apart.
use azoth_balancer.Prelude.{
  ◌≤◌, ◌≡◌, ◌≢◌, ◌↔◌, refl, ap, subst, List, [], ◌∷◌, map, none, arith, Result, Result-cases, Sat,
  Given, All, All-mono, All-map, or_some-Given, codes, ◌∙◌, inl, inr, get_or, Bool-cases, is_empty,
}
use azoth_balancer.Float.{Float}
use azoth_balancer.Config.{
  config_error, default_bind_addr, Config, BalancerConfig, EndpointConfig, ConfigError,
  validate_and_dedupe_endpoints, keep_valid, sanitize, get_default_endpoints,
  default_endpoint_weight,
}
use azoth_balancer.Config.Sanitized.{IsValid}
use azoth_balancer.Config.Validation.{Distinct, validate_sound, validate-fails}
use azoth_balancer.Config.Finalize.{
  finalize, finalize_balancer, constrain, default_balancer, default_server,
}

-- An endpoint that the balancer can be built from.
pub record IsReady (e : EndpointConfig) : Type 0 where
  pub valid : IsValid e
  pub weighted : Given e.weight

pub record IsCompleteBalancer {F : Type 0} (b : BalancerConfig F) : Type 0 where
  pub health_check_interval : Given b.health_check_interval_secs
  pub health_check_timeout : Given b.health_check_timeout_secs
  pub base_cooldown : Given b.base_cooldown_secs
  pub max_cooldown : Given b.max_cooldown_secs
  pub latency_smoothing : Given b.latency_smoothing_factor
  pub batch_pos : Sat b.max_batch_size (λ n. 1 ≤ n)
  pub concurrency_pos : Sat b.max_concurrency (λ n. 1 ≤ n)
  pub connect_timeout : Given b.connect_timeout_ms
  pub timeout : Given b.timeout_secs
  pub pool_idle_timeout : Given b.pool_idle_timeout_secs
  pub pool_max_idle : Given b.pool_max_idle_per_host
  pub endpoints_ready : Sat b.endpoints (λ es. (es ≢ []) × All IsReady es × Distinct es)

abbrev pub IsComplete : {F : Type 0} → Config F → Type 0
IsComplete c = Sat c.server (λ s. Given s.bind_addr) × Sat c.balancer IsCompleteBalancer

constrain-IsReady : (e : EndpointConfig) → IsValid e → IsReady (constrain e)
unfolding constrain
constrain-IsReady e v = record {
  valid = record {
    url_canonical = v.url_canonical;
    rate_pos = omega arith;
    rate_bound = omega (arith, v.rate_bound);
    burst_pos = omega arith;
    burst_bound = omega (arith, v.burst_bound);
  };
  weighted = or_some-Given e.weight default_endpoint_weight;
}

other_url : (e x : EndpointConfig) → x.url ≢ e.url → (constrain x).url ≢ (constrain e).url
unfolding constrain
other_url e x ne = ne

map-constrain :
    (es : List EndpointConfig)
    → All IsValid es
    → Distinct es
    → All IsReady (map constrain es) × Distinct (map constrain es)
map-constrain [] v d = (tt, tt)
map-constrain (e ∷ es) v d =
    let (ready, distinct) = map-constrain es v.1 d.1 in
    (
      (constrain-IsReady e v.0, ready),
      (All-map _ constrain es (All-mono (other_url e) es d.0), distinct),
    )

abbrev CompleteResult : {F : Type 0} → Result ConfigError (Config F) → Type 0
CompleteResult (Result.ok c) = IsComplete c
CompleteResult (Result.err e) = Unit {0}

map-ne-nil : (es : List EndpointConfig) → es ≢ [] → map constrain es ≢ []
map-ne-nil [] ne q = ne q
map-ne-nil (e ∷ es) ne q = cc

module _ {F : Type 0} (fl : Float F) where
  finalize_balancer-IsComplete :
      (b : BalancerConfig F) (es : List EndpointConfig)
      → es ≢ []
      → All IsValid es
      → Distinct es
      → IsCompleteBalancer (finalize_balancer fl b es)
  unfolding finalize_balancer
  finalize_balancer-IsComplete b es ne valid distinct = record {
    health_check_interval = or_some-Given b.health_check_interval_secs _;
    health_check_timeout = or_some-Given b.health_check_timeout_secs _;
    base_cooldown = or_some-Given b.base_cooldown_secs _;
    max_cooldown = or_some-Given b.max_cooldown_secs _;
    latency_smoothing = tt;
    batch_pos = omega arith;
    concurrency_pos = omega arith;
    connect_timeout = or_some-Given b.connect_timeout_ms _;
    timeout = or_some-Given b.timeout_secs _;
    pool_idle_timeout = or_some-Given b.pool_idle_timeout_secs _;
    pool_max_idle = or_some-Given b.pool_max_idle_per_host _;
    endpoints_ready =
        let (ready, apart) = map-constrain es valid distinct in (map-ne-nil es ne, ready, apart);
  }

  -- A configuration that is finalized has every setting, sizes of at least one, and a non-empty
  -- list of ready endpoints with distinct URLs.
  pub finalize-IsComplete : (c c' : Config F) → finalize fl c ≡ Result.ok c' → IsComplete c'
  unfolding finalize
  finalize-IsComplete c c' h =
      let configured =
        get_or (get_or c.balancer default_balancer).endpoints get_default_endpoints in
      elim (Result-cases (validate_and_dedupe_endpoints configured)) [
        | inr (e, failed) ↦ cc (rw (failed, finalize) at h)
        | inl (es, valid) ↦
            let (ne, ready, distinct, _) = validate_sound configured es valid in
            subst (λ r. CompleteResult r) (rw (valid, finalize) at h)
              (
                or_some-Given (get_or c.server default_server).bind_addr default_bind_addr,
                finalize_balancer-IsComplete (get_or c.balancer default_balancer) es ne ready
                    distinct,
              )
      ]

  -- Finalizing fails exactly when no configured endpoint (or, with none configured, no default one)
  -- passes the checks by itself.
  pub finalize-fails :
      (c : Config F)
      → (finalize fl c ≡ Result.err (config_error (codes "No valid endpoints configured")))
        ↔ All
            (λ e. sanitize e ≡ none)
            (get_or (get_or c.balancer default_balancer).endpoints get_default_endpoints)
  unfolding finalize
  finalize-fails c =
      let configured =
        get_or (get_or c.balancer default_balancer).endpoints get_default_endpoints in
      (
        λ h. elim (Result-cases (validate_and_dedupe_endpoints configured)) [
          | inl (es, valid) ↦ cc (rw (valid, finalize) at h)
          | inr (e, failed) ↦
              let same : e ≡ config_error (codes "No valid endpoints configured") =
                cc (rw (failed, finalize) at h) in
              (validate-fails configured).0 (failed ∙ ap Result.err same)
        ],
        λ all. rw ((validate-fails configured).1 all, finalize),
      )

  -- There is one error.
  pub finalize-error :
      (c : Config F) (e : ConfigError)
      → finalize fl c ≡ Result.err e
      → finalize fl c ≡ Result.err (config_error (codes "No valid endpoints configured"))
  unfolding finalize validate_and_dedupe_endpoints
  finalize-error c e h =
      elim (Bool-cases (
        is_empty (
          keep_valid []
            (get_or (get_or c.balancer default_balancer).endpoints get_default_endpoints)))) [
              | inl empty ↦ rw (empty, finalize, validate_and_dedupe_endpoints) refl
              | inr some_left ↦ cc (rw (some_left, finalize, validate_and_dedupe_endpoints) at h)
            ]

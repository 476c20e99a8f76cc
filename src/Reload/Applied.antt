-- ===== src/Reload/Applied.antt =====
-- `reload` of src/config_reloader.rs from the settings of a finalized configuration on.
use azoth_balancer.Prelude.{
  ℕ, Text, ◌≤◌, ◌≡◌, refl, ◌∙◌, true, false, not, ◌||◌, List, [], ◌∷◌, some, arith, find, All,
  Given, Sat-value, Option-cases, Bool-cases, inl, inr, ◌==◌,
}
use azoth_balancer.Limiter.{RateLimiter}
use azoth_balancer.Endpoint.{RpcEndpoint}
use azoth_balancer.Config.{EndpointConfig, BalancerConfig}
use azoth_balancer.Config.Validation.{Distinct}
use azoth_balancer.Config.Finalize.Complete.{IsReady, IsCompleteBalancer}
use azoth_balancer.Balancer.{LoadBalancer, has_url}
use azoth_balancer.Balancer.Invariant.{statics, Inv}
use azoth_balancer.Balancer.Configured.{
  configured_all, configured_all-Distinct, configured_all-Positive,
}
use azoth_balancer.Reload.{
  NewSettings, new_settings, ReloadResponse, rebuild_client, client_settings_changed, install,
  apply_settings, reloaded, urls, cfg_urls,
}
use azoth_balancer.Reload.Rebuild.{Rebuilt, modified_urls, difference, cleanup_all}
use azoth_balancer.Reload.Quiet.{cleanup-moves}
use azoth_balancer.Reload.Outcome.{KeepsState, rebuild-Built}
use azoth_balancer.Metrics.{Metric, counter, gauge_moves}

-- The settings of a finalized configuration.
pub new_settings_complete :
    {F : Type 0} (cfg : BalancerConfig F)
    → IsCompleteBalancer cfg
    → (new : NewSettings F) × (new_settings cfg ≡ some new)
      × (1 ≤ new.max_batch_size)
      × All IsReady new.endpoints_list
      × Distinct new.endpoints_list
unfolding new_settings
new_settings_complete cfg done =
    let (batch, h0, pos) = Sat-value cfg.max_batch_size done.batch_pos in
    let (base, h1, _) = Sat-value cfg.base_cooldown_secs done.base_cooldown in
    let (most, h2, _) = Sat-value cfg.max_cooldown_secs done.max_cooldown in
    let (interval, h3, _) = Sat-value cfg.health_check_interval_secs done.health_check_interval in
    let (check, h4, _) = Sat-value cfg.health_check_timeout_secs done.health_check_timeout in
    let (smoothing, h5, _) = Sat-value cfg.latency_smoothing_factor done.latency_smoothing in
    let (connect, h6, _) = Sat-value cfg.connect_timeout_ms done.connect_timeout in
    let (timeout, h7, _) = Sat-value cfg.timeout_secs done.timeout in
    let (idle, h8, _) = Sat-value cfg.pool_idle_timeout_secs done.pool_idle_timeout in
    let (hosts, h9, _) = Sat-value cfg.pool_max_idle_per_host done.pool_max_idle in
    let (es, h10, (_, ready, distinct)) = Sat-value cfg.endpoints done.endpoints_ready in
    let new : NewSettings _ = record {
      max_batch_size = batch;
      base_cooldown_secs = base;
      max_cooldown_secs = most;
      health_check_interval_secs = interval;
      health_check_timeout_secs = check;
      latency_smoothing_factor = smoothing;
      connect_timeout_ms = connect;
      timeout_secs = timeout;
      pool_idle_timeout_secs = idle;
      pool_max_idle_per_host = hosts;
      endpoints_list = es;
    } in
    (new, simp (h0, h1, h2, h3, h4, h5, h6, h7, h8, h9, h10), pos, ready, distinct)

pub modified_urls-total :
    (current : List RpcEndpoint) (cfgs : List EndpointConfig)
    → All IsReady cfgs
    → Given (modified_urls current cfgs)
unfolding modified_urls
modified_urls-total current [] ready = tt
modified_urls-total current (c ∷ cs) ready =
    let (later, h, _) =
      Sat-value (modified_urls current cs) (modified_urls-total current cs ready.1) in
    let (w, given, _) = Sat-value c.weight ready.0.weighted in
    elim (Option-cases (find (has_url c.url) current)) [
      | inl new ↦ simp (h, new) tt
      | inr (ep, old) ↦
          elim (Bool-cases (
            not (ep.rate_limit_per_sec == c.rate_limit_per_sec)
            || not (ep.burst_size == c.burst_size))) [
              | inl changed ↦ simp (h, old, changed) tt
              | inr same ↦ simp (h, old, same, given) tt
            ]
    ]

module _ {F L : Type 0} (rl : RateLimiter L) (b : LoadBalancer F L) (new : NewSettings F)
    (now : ℕ) where
  -- What a reload that goes through leaves.
  pub record Applied (response : ReloadResponse) (b' : LoadBalancer F L) : Type 0 where
    pub success : response.success ≡ true
    pub inv : Inv b'
    pub as_configured : statics b'.endpoints ≡ configured_all new.endpoints_list
    pub keeps_state : All (λ e. KeepsState (find (has_url e.url) b.endpoints) e) b'.endpoints
    pub client_timeout : b'.client.timeout_secs ≡ new.timeout_secs
    pub same_bind_addr : b'.bind_addr ≡ b.bind_addr
    pub quiet : gauge_moves b'.registry ≡ gauge_moves b.registry
    pub counts :
        (m : Metric) (url : Text)
        → counter m url b'.registry
          ≡ counter m url
              (cleanup_all (difference (urls b.endpoints) (cfg_urls new.endpoints_list)) b.registry)

  unchanged_timeout : client_settings_changed b new ≡ false → b.timeout_secs ≡ new.timeout_secs
  unfolding client_settings_changed
  unchanged_timeout same = ground arith

  pub rebuild_client-synced :
      Inv b
      → ((rebuild_client b new).client.connect_timeout_ms
          ≡ (rebuild_client b new).connect_timeout_ms)
        × ((rebuild_client b new).client.timeout_secs ≡ (rebuild_client b new).timeout_secs)
        × ((rebuild_client b new).client.pool_idle_timeout_secs
            ≡ (rebuild_client b new).pool_idle_timeout_secs)
        × ((rebuild_client b new).client.pool_max_idle_per_host
            ≡ (rebuild_client b new).pool_max_idle_per_host)
        × ((rebuild_client b new).client.timeout_secs ≡ new.timeout_secs)
        × ((rebuild_client b new).bind_addr ≡ b.bind_addr)
  unfolding rebuild_client
  rebuild_client-synced inv = elim (Bool-cases (client_settings_changed b new)) [
    | inl changed ↦ rw (changed, rebuild_client) (refl, refl, refl, refl, refl, refl)
    | inr same ↦
        rw (same, rebuild_client)
          (
            inv.connect_timeout_synced,
            inv.timeout_synced,
            inv.pool_idle_timeout_synced,
            inv.pool_max_idle_synced,
            inv.timeout_synced ∙ unchanged_timeout same,
            refl,
          )
  ]

  install-moves :
      (r : Rebuilt L)
      → gauge_moves (install (rebuild_client b new) new r now).registry ≡ gauge_moves r.registry
  unfolding install gauge_moves
  install-moves r = refl

  install-counter :
      (r : Rebuilt L) (m : Metric) (url : Text)
      → counter m url (install (rebuild_client b new) new r now).registry ≡ counter m url r.registry
  unfolding install counter
  install-counter r m url = refl

  -- A reload of ready endpoints with distinct URLs goes through. It leaves the invariant, the
  -- endpoints of the new configuration, and the state of those that were there before.
  pub apply_settings-Applied :
      Inv b
      → 1 ≤ new.max_batch_size
      → All IsReady new.endpoints_list
      → Distinct new.endpoints_list
      → (response : ReloadResponse) × (b' : LoadBalancer F L) × (apply_settings rl b new now
          ≡ some (response, b'))
        × Applied response b'
  unfolding apply_settings install reloaded
  apply_settings-Applied inv batch_pos ready distinct =
      let removed = difference (urls b.endpoints) (cfg_urls new.endpoints_list) in
      let (modified, h, _) =
        Sat-value {P = λ x. Unit {0}} (modified_urls b.endpoints new.endpoints_list)
          (modified_urls-total b.endpoints new.endpoints_list ready) in
      let (r', returns, built) =
        rebuild-Built rl (rebuild_client b new).timeout_secs now b.endpoints b.rate_limiters
          new.endpoints_list
          (record {
            endpoints = [];
            rate_limiters = [];
            registry =
                cleanup_all (difference (urls b.endpoints) (cfg_urls new.endpoints_list))
                  b.registry;
          })
          ready inv.limited in
      let (c0, c1, c2, c3, c4, c5) = rebuild_client-synced inv in
      (
        reloaded b new modified,
        install (rebuild_client b new) new r' now,
        simp (h, returns),
        record {
          success = refl;
          inv = record {
            distinct = rw built.as_configured (configured_all-Distinct new.endpoints_list distinct);
            positive = rw built.as_configured (configured_all-Positive new.endpoints_list ready);
            limited = rw built.as_configured built.limited;
            batch_pos = batch_pos;
            connect_timeout_synced = c0;
            timeout_synced = c1;
            pool_idle_timeout_synced = c2;
            pool_max_idle_synced = c3;
          };
          as_configured = built.as_configured;
          keeps_state = built.keeps_state tt;
          client_timeout = c4;
          same_bind_addr = c5;
          counts = λ m url. install-counter r' m url ∙ built.counts m url;
          quiet = install-moves r' ∙ built.quiet ∙ cleanup-moves removed b.registry;
        },
      )

-- ===== src/Reload/Begun.antt =====
-- The first part of a reload, on a balancer with the invariant.
use azoth_balancer.Prelude.{
  Bool, true, false, ℕ, ◌≤◌, ◌≡◌, ◌⊎◌, refl, ◌∙◌, [], Option, some, Text, find, All, Sat-value,
  Bool-cases, Result, Result-cases, inl, inr,
}
use azoth_balancer.Float.{Float}
use azoth_balancer.Limiter.{RateLimiter}
use azoth_balancer.Metrics.{Registry, gauge_moves}
use azoth_balancer.Config.{Config, BalancerConfig, ConfigError}
use azoth_balancer.Config.Validation.{Distinct}
use azoth_balancer.Config.Finalize.{FileRead, try_load_config}
use azoth_balancer.Config.Finalize.Complete.{IsReady, IsComplete}
use azoth_balancer.Balancer.{Client, LoadBalancer, has_url}
use azoth_balancer.Balancer.Invariant.{Inv}
use azoth_balancer.Balancer.Configured.{configured_all-Distinct, configured_all-Positive}
use azoth_balancer.Reload.{
  ReloadError, failed, panicked, client_builds, NewSettings, new_settings, reloaded,
  client_settings_changed, rebuild_client, urls, cfg_urls, finalize_loaded, from_config_error,
}
use azoth_balancer.Reload.Rebuild.{difference, modified_urls, cleanup_all}
use azoth_balancer.Reload.Quiet.{cleanup-moves}
use azoth_balancer.Reload.Outcome.{KeepsState, rebuild-Built}
use azoth_balancer.Reload.Applied.{
  modified_urls-total, rebuild_client-synced, new_settings_complete,
}
use azoth_balancer.Reload.Safe.{finalize_loaded-IsComplete}
use azoth_balancer.Reload.Phases.{
  Pending, shared_urls, begin_settings, begin_known, begin_with, begin_reload,
}
use azoth_balancer.Reload.Finished.{IsSound}

-- What the first part of a reload leaves.
pub record Begun {F L : Type 0} (b : LoadBalancer F L) (p : Pending F L) (b' : LoadBalancer F L)
    : Type 0 where
  pub sound : IsSound p
  pub inv : Inv b'
  pub same_endpoints : b'.endpoints ≡ b.endpoints
  pub keeps_state : All (λ e. KeepsState (find (has_url e.url) b.endpoints) e) p.endpoints
  pub quiet : gauge_moves b'.registry ≡ gauge_moves b.registry

module _ {F L : Type 0} (b : LoadBalancer F L) where
  pub rebuild_client-rest :
      (new : NewSettings F)
      → ((rebuild_client b new).endpoints ≡ b.endpoints)
        × ((rebuild_client b new).rate_limiters ≡ b.rate_limiters)
        × ((rebuild_client b new).max_batch_size ≡ b.max_batch_size)
  unfolding rebuild_client
  rebuild_client-rest new = elim (Bool-cases (client_settings_changed b new)) [
    | inl changed ↦ rw (changed, rebuild_client) (refl, refl, refl)
    | inr same ↦ rw (same, rebuild_client) (refl, refl, refl)
  ]

  begun-Inv :
      (rl : RateLimiter L) (new : NewSettings F) (now : ℕ) (registry : Registry)
      → Inv b
      → Inv (record (rebuild_client b new) { registry = registry })
  begun-Inv rl new now registry inv =
      let (c0, c1, c2, c3, _, _) = rebuild_client-synced rl b new now inv in
      let (eps, limiters, batch) = rebuild_client-rest new in
      record {
        distinct = rw eps inv.distinct;
        positive = rw eps inv.positive;
        limited = rw (eps, limiters) inv.limited;
        batch_pos = rw batch inv.batch_pos;
        connect_timeout_synced = c0;
        timeout_synced = c1;
        pool_idle_timeout_synced = c2;
        pool_max_idle_synced = c3;
      }

module _ {F L : Type 0} (rl : RateLimiter L) (b : LoadBalancer F L) (new : NewSettings F)
    (now : ℕ) where
  begin_settings-Begun :
      Inv b
      → 1 ≤ new.max_batch_size
      → All IsReady new.endpoints_list
      → Distinct new.endpoints_list
      → (p : Pending F L) × (b' : LoadBalancer F L) × (begin_settings rl b new now ≡ some (p, b'))
        × Begun b p b'
  unfolding begin_settings
  begin_settings-Begun inv batch_pos ready distinct =
      let removed = difference (urls b.endpoints) (cfg_urls new.endpoints_list) in
      let (modified, h, _) =
        Sat-value {P = λ x. Unit {0}} (modified_urls b.endpoints new.endpoints_list)
          (modified_urls-total b.endpoints new.endpoints_list ready) in
      let (r, returns, built) =
        rebuild-Built rl (rebuild_client b new).timeout_secs now b.endpoints b.rate_limiters
          new.endpoints_list
          (record {
            endpoints = [];
            rate_limiters = [];
            registry =
                cleanup_all (difference (urls b.endpoints) (cfg_urls new.endpoints_list))
                  b.registry;
          })
          ready inv.limited in
      (
        record {
          new = new;
          endpoints = r.endpoints;
          rate_limiters = r.rate_limiters;
          shared = shared_urls b.endpoints new.endpoints_list;
          response = reloaded b new modified;
        },
        record (rebuild_client b new) { registry = r.registry },
        simp (h, returns),
        record {
          sound = record {
            distinct = rw built.as_configured (configured_all-Distinct new.endpoints_list distinct);
            positive = rw built.as_configured (configured_all-Positive new.endpoints_list ready);
            limited = rw built.as_configured built.limited;
            batch_pos = batch_pos;
          };
          inv = begun-Inv b rl new now r.registry inv;
          same_endpoints = (rebuild_client-rest b new).0;
          keeps_state = built.keeps_state tt;
          quiet = built.quiet ∙ cleanup-moves removed b.registry;
        },
      )

abbrev pub BeginOutcome :
    {F L : Type 0}
    → LoadBalancer F L
    → Option (Result ReloadError (Pending F L) × LoadBalancer F L)
    → Type 0
BeginOutcome {F} {L} b o =
    ((e : ReloadError) × (o ≡ some (Result.err e, b)))
    ⊎ ((p : Pending F L) × (b' : LoadBalancer F L) × (o ≡ some (Result.ok p, b')) × Begun b p b')

module _ {F L : Type 0} (fl : Float F) (rl : RateLimiter L) (can_build : Client → Bool)
    (b : LoadBalancer F L) (now : ℕ) where
  begin_with-ok :
      (c : Config F) (cfg : BalancerConfig F) (new : NewSettings F) (p : Pending F L)
      (b' : LoadBalancer F L)
      → c.balancer ≡ some cfg
      → new_settings cfg ≡ some new
      → client_builds can_build b new ≡ true
      → begin_settings rl b new now ≡ some (p, b')
      → begin_with fl rl can_build b now (Result.ok c) ≡ some (Result.ok p, b')
  unfolding begin_with begin_known
  begin_with-ok c cfg new p b' h hn built ha = simp (h, hn, built, ha)

  begin_with-panicked :
      (c : Config F) (cfg : BalancerConfig F) (new : NewSettings F)
      → c.balancer ≡ some cfg
      → new_settings cfg ≡ some new
      → client_builds can_build b new ≡ false
      → begin_with fl rl can_build b now (Result.ok c) ≡ some (Result.err panicked, b)
  unfolding begin_with begin_known
  begin_with-panicked c cfg new h hn unbuilt = simp (h, hn, unbuilt)

  begin_complete :
      (c : Config F)
      → IsComplete c
      → Inv b
      → BeginOutcome b (begin_with fl rl can_build b now (Result.ok c))
  begin_complete c complete inv =
      let (cfg, h, done) = Sat-value c.balancer complete.1 in
      let (new, hn, pos, ready, distinct) = new_settings_complete cfg done in
      let (p, b', ha, begun) = begin_settings-Begun rl b new now inv pos ready distinct in
      elim (Bool-cases (client_builds can_build b new)) [
        | inl built ↦ inr (p, b', begin_with-ok c cfg new p b' h hn built ha, begun)
        | inr unbuilt ↦ inl (panicked, begin_with-panicked c cfg new h hn unbuilt)
      ]

  begin_loaded :
      (loaded : Result ConfigError (Option (Config F)))
      → Inv b
      → BeginOutcome b (begin_with fl rl can_build b now (finalize_loaded fl loaded))
  unfolding begin_with
  begin_loaded loaded inv = elim (Result-cases (finalize_loaded fl loaded)) [
    | inr (e, refused) ↦ inl (failed (from_config_error e), simp refused)
    | inl (c, finalized) ↦
        rw finalized (
          begin_complete c (finalize_loaded-IsComplete fl rl can_build b now loaded c finalized)
            inv)
  ]

  -- The first part of a reload fails or panics and leaves the balancer, or it leaves the invariant, the
  -- endpoints, and something sound to write.
  pub begin_reload-safe :
      (read_to_string : Text → FileRead) (from_toml : Text → Result Text (Config F))
      → Inv b
      → BeginOutcome b (begin_reload fl rl can_build read_to_string from_toml b now)
  unfolding begin_reload
  begin_reload-safe read_to_string from_toml inv =
      begin_loaded (try_load_config read_to_string from_toml b.config_path) inv

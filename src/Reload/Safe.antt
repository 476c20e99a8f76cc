-- ===== src/Reload/Safe.antt =====
-- `reload` of src/config_reloader.rs as a whole, errors included.
use azoth_balancer.Prelude.{
  Bool, true, false, Bool-cases, arith, ℕ, ◌≡◌, ◌⊎◌, Option, some, Text, get_or, Sat-value, Result,
  Result-cases, inl, inr,
}
use azoth_balancer.Float.{Float}
use azoth_balancer.Limiter.{RateLimiter}
use azoth_balancer.Endpoint.{LoadBalancerError}
use azoth_balancer.Config.{Config, BalancerConfig, ConfigError}
use azoth_balancer.Config.Finalize.{FileRead, default_config, try_load_config}
use azoth_balancer.Config.Finalize.Complete.{IsComplete, finalize-IsComplete}
use azoth_balancer.Balancer.{Client, LoadBalancer}
use azoth_balancer.Balancer.Invariant.{Inv}
use azoth_balancer.Reload.{
  ReloadError, failed, panicked, client_builds, new_client, client_settings_changed, NewSettings,
  new_settings, ReloadResponse, apply_settings, reload_settings, reload_with, finalize_loaded,
  from_config_error, reload,
}
use azoth_balancer.Reload.Applied.{Applied, apply_settings-Applied, new_settings_complete}

abbrev pub Outcome :
    {F L : Type 0}
    → RateLimiter L
    → (Client → Bool)
    → LoadBalancer F L
    → ℕ
    → Option (Result ReloadError ReloadResponse × LoadBalancer F L)
    → Type 0
Outcome {F} {L} rl can_build b now o =
    ((e : LoadBalancerError) × (o ≡ some (Result.err (failed e), b)))
    ⊎ ((new : NewSettings F) × (client_settings_changed b new ≡ true)
        × (can_build (new_client new) ≡ false)
        × (o ≡ some (Result.err panicked, b)))
    ⊎ ((new : NewSettings F) × (response : ReloadResponse) × (b' : LoadBalancer F L) × (o
          ≡ some (Result.ok response, b'))
        × Applied rl b new now response b')

module _ {F L : Type 0} (fl : Float F) (rl : RateLimiter L) (can_build : Client → Bool)
    (b : LoadBalancer F L) (now : ℕ) where
  pub finalize_loaded-IsComplete :
      (loaded : Result ConfigError (Option (Config F))) (c : Config F)
      → finalize_loaded fl loaded ≡ Result.ok c
      → IsComplete c
  unfolding finalize_loaded
  finalize_loaded-IsComplete (Result.err e) c h = cc
  finalize_loaded-IsComplete (Result.ok raw) c h =
      finalize-IsComplete fl (get_or raw default_config) c h

  reload_with-ok :
      (c : Config F) (cfg : BalancerConfig F) (new : NewSettings F) (response : ReloadResponse)
      (b' : LoadBalancer F L)
      → c.balancer ≡ some cfg
      → new_settings cfg ≡ some new
      → client_builds can_build b new ≡ true
      → apply_settings rl b new now ≡ some (response, b')
      → reload_with fl rl can_build b now (Result.ok c) ≡ some (Result.ok response, b')
  unfolding reload_with reload_settings
  reload_with-ok c cfg new response b' h hn built ha = simp (h, hn, built, ha)

  reload_with-panicked :
      (c : Config F) (cfg : BalancerConfig F) (new : NewSettings F)
      → c.balancer ≡ some cfg
      → new_settings cfg ≡ some new
      → client_builds can_build b new ≡ false
      → reload_with fl rl can_build b now (Result.ok c) ≡ some (Result.err panicked, b)
  unfolding reload_with reload_settings
  reload_with-panicked c cfg new h hn unbuilt = simp (h, hn, unbuilt)

  unbuilt_cases :
      (new : NewSettings F)
      → client_builds can_build b new ≡ false
      → (client_settings_changed b new ≡ true) × (can_build (new_client new) ≡ false)
  unfolding client_builds
  unbuilt_cases new unbuilt = ground (arith, unbuilt)

  complete-Outcome :
      (c : Config F)
      → IsComplete c
      → Inv b
      → Outcome rl can_build b now (reload_with fl rl can_build b now (Result.ok c))
  complete-Outcome c complete inv =
      let (cfg, h, done) = Sat-value c.balancer complete.1 in
      let (new, hn, pos, ready, distinct) = new_settings_complete cfg done in
      let (response, b', ha, applied) =
        apply_settings-Applied rl b new now inv pos ready distinct in
      elim (Bool-cases (client_builds can_build b new)) [
        | inl built ↦
            inr
              (inr (new, response, b', reload_with-ok c cfg new response b' h hn built ha, applied))
        | inr unbuilt ↦
            let (changed, refused) = unbuilt_cases new unbuilt in
            inr (inl (new, changed, refused, reload_with-panicked c cfg new h hn unbuilt))
      ]

  loaded-Outcome :
      (loaded : Result ConfigError (Option (Config F)))
      → Inv b
      → Outcome rl can_build b now (reload_with fl rl can_build b now (finalize_loaded fl loaded))
  unfolding reload_with
  loaded-Outcome loaded inv = elim (Result-cases (finalize_loaded fl loaded)) [
    | inr (e, refused) ↦ inl (from_config_error e, simp refused)
    | inl (c, ok) ↦ rw ok (complete-Outcome c (finalize_loaded-IsComplete loaded c ok) inv)
  ]

  pub reload-safe :
      (read_to_string : Text → FileRead) (from_toml : Text → Result Text (Config F))
      → Inv b
      → Outcome rl can_build b now (reload fl rl can_build read_to_string from_toml b now)
  unfolding reload
  reload-safe read_to_string from_toml inv =
      loaded-Outcome (try_load_config read_to_string from_toml b.config_path) inv

-- ===== src/Reload/Phases.antt =====
-- `reload` of src/config_reloader.rs in two parts, since other tasks run between them: the first one
-- ends when the new endpoints are built, the second one writes them. Clones of an endpoint share its
-- metrics, and clones of a limiter its tokens, so what other tasks do to these in between is there
-- when the second part writes.
use azoth_balancer.Prelude.{
  ℕ, Bool, ◌&&◌, List, [], ◌∷◌, map, Option, none, some, Text, codes, lookup, insert, ◌==◌, find,
  Result, ◌>>=◌, if◌then◌else◌, false,
}
use azoth_balancer.Float.{Float}
use azoth_balancer.Limiter.{RateLimiter}
use azoth_balancer.Endpoint.{RpcEndpoint, config_error}
use azoth_balancer.Config.{Config, EndpointConfig, ConfigError}
use azoth_balancer.Config.Finalize.{FileRead, try_load_config}
use azoth_balancer.Balancer.{Client, LoadBalancer, has_url}
use azoth_balancer.Reload.{
  NewSettings, client_builds, ReloadError, failed, panicked, new_settings, ReloadResponse, reloaded,
  rebuild_client, install, urls, cfg_urls, from_config_error, finalize_loaded,
}
use azoth_balancer.Reload.Rebuild.{difference, modified_urls, rebuild, cleanup_all}

-- What the second part has of the first one; `shared` has the URLs whose limiters are clones.
pub record Pending (F L : Type 0) : Type 0 where
  pub new : NewSettings F
  pub endpoints : List RpcEndpoint
  pub rate_limiters : List (Text × L)
  pub shared : List Text
  pub response : ReloadResponse

-- Whether the limits of an endpoint that was found stay as they are.
unfoldable pub same_limits : EndpointConfig → Option RpcEndpoint → Bool
same_limits cfg none = false
same_limits cfg (some existing) =
    existing.rate_limit_per_sec == cfg.rate_limit_per_sec && existing.burst_size == cfg.burst_size

-- The URLs whose limiters are cloned.
unfoldable pub shared_urls : List RpcEndpoint → List EndpointConfig → List Text
unfolding same_limits
shared_urls current [] = []
shared_urls current (cfg ∷ rest) =
    if same_limits cfg (find (has_url cfg.url) current)
    then cfg.url ∷ shared_urls current rest
    else shared_urls current rest

-- The metrics of a clone are those of the endpoint that it is a clone of.
unfoldable pub share_metrics : List RpcEndpoint → RpcEndpoint → RpcEndpoint
share_metrics current ep = elim (find (has_url ep.url) current) [
  | none ↦ ep
  | some existing ↦ record ep { metrics = existing.metrics }
]

-- The cloned limiters are those of the present map.
unfoldable pub share_limiters :
    {L : Type 0} → List (Text × L) → List Text → List (Text × L) → List (Text × L)
share_limiters current [] limiters = limiters
share_limiters current (url ∷ shared) limiters = elim (lookup url current) [
  | none ↦ share_limiters current shared limiters
  | some limiter ↦ insert url limiter (share_limiters current shared limiters)
]

module _ {F L : Type 0} where
  -- The writes, over the balancer as it is by then.
  unfoldable pub finish_reload : LoadBalancer F L → Pending F L → ℕ → LoadBalancer F L
  finish_reload b p now =
      install b p.new
        (record {
          endpoints = map (share_metrics b.endpoints) p.endpoints;
          rate_limiters = share_limiters b.rate_limiters p.shared p.rate_limiters;
          registry = b.registry;
        })
        now

module _ {F L : Type 0} (rl : RateLimiter L) where
  unfoldable pub begin_settings :
      LoadBalancer F L → NewSettings F → ℕ → Option (Pending F L × LoadBalancer F L)
  begin_settings b new now = do
    let b1 = rebuild_client b new
    let removed = difference (urls b.endpoints) (cfg_urls new.endpoints_list)
    modified ← modified_urls b.endpoints new.endpoints_list
    rebuilt ←
        rebuild rl b1.timeout_secs now b.endpoints b.rate_limiters new.endpoints_list
          (record { endpoints = []; rate_limiters = []; registry = cleanup_all removed b.registry })
    some (
      record {
        new = new;
        endpoints = rebuilt.endpoints;
        rate_limiters = rebuilt.rate_limiters;
        shared = shared_urls b.endpoints new.endpoints_list;
        response = reloaded b new modified;
      },
      record b1 { registry = rebuilt.registry },
    )

module _ {F L : Type 0} (fl : Float F) (rl : RateLimiter L) (can_build : Client → Bool) where
  -- The `let … else`, and what follows it.
  unfoldable pub begin_known :
      LoadBalancer F L
      → ℕ
      → Option (NewSettings F)
      → Option (Result ReloadError (Pending F L) × LoadBalancer F L)
  begin_known b now none =
      some (
        Result.err (failed (config_error (codes "Finalized config is missing required values."))),
        b,
      )
  begin_known b now (some new) =
      let begun = begin_settings rl b new now in
      if client_builds can_build b new
      then (begun >>= λ done. some (Result.ok done.0, done.1))
      else some (Result.err panicked, b)

  unfoldable pub begin_with :
      LoadBalancer F L
      → ℕ
      → Result ConfigError (Config F)
      → Option (Result ReloadError (Pending F L) × LoadBalancer F L)
  unfolding from_config_error
  begin_with b now (Result.err e) = some (Result.err (failed (from_config_error e)), b)
  begin_with b now (Result.ok config) = do
    balancer_cfg ← config.balancer
    begin_known b now (new_settings balancer_cfg)

  -- `reload` up to the writes
  unfoldable pub begin_reload :
      (read_to_string : Text → FileRead) (from_toml : Text → Result Text (Config F))
      → LoadBalancer F L
      → ℕ
      → Option (Result ReloadError (Pending F L) × LoadBalancer F L)
  unfolding begin_with finalize_loaded
  begin_reload read_to_string from_toml b now =
      begin_with b now (finalize_loaded fl (try_load_config read_to_string from_toml b.config_path))

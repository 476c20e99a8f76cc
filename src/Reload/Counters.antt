-- ===== src/Reload/Counters.antt =====
-- What a reload does to the counters of the endpoints.
use azoth_balancer.Prelude.{
  Bool, ℕ, ◌≡◌, refl, ◌∙◌, subst, ap, map, Result, Sat, true, false, List, [], ◌∷◌, Text, text_eq,
  text_eq_refl, text_eq_iff, any, arith, Bool-cases, inl, inr, sym,
}
use azoth_balancer.Limiter.{RateLimiter}
use azoth_balancer.Metrics.{
  Metric, Registry, counter, remove, rpc_requests_succeeded, rpc_requests_failed,
  healthcheck_failed, endpoint_rate_limit_deferred, request_timeouts, upstream_rate_limited_total,
}
use azoth_balancer.Balancer.{Client, LoadBalancer}
use azoth_balancer.Balancer.Invariant.{Inv, statics}
use azoth_balancer.Balancer.Configured.{configured_all}
use azoth_balancer.Config.{Config, EndpointConfig}
use azoth_balancer.Config.Finalize.{FileRead}
use azoth_balancer.Endpoint.{RpcEndpoint}
use azoth_balancer.Float.{Float}
use azoth_balancer.Reload.Safe.{reload-safe}
use azoth_balancer.Reload.{ReloadError, ReloadResponse, urls, cfg_urls, reload}
use azoth_balancer.Reload.Rebuild.{difference, cleanup_endpoint_metrics, cleanup_all}

module _ (m : Metric) (url : Text) where
  -- A removal of a counter of another URL.
  removed_other :
      (m' : Metric) (u : Text) (registry : Registry)
      → text_eq u url ≡ false
      → counter m url (remove m' u ∷ registry) ≡ counter m url registry
  unfolding counter
  removed_other m' u registry other = ground (arith, other)

  removed_zero :
      (m' : Metric) (u : Text) (registry : Registry)
      → counter m url registry ≡ 0
      → counter m url (remove m' u ∷ registry) ≡ 0
  unfolding counter
  removed_zero m' u registry h = ground (arith, h)

  cleanup_other :
      (u : Text) (registry : Registry)
      → text_eq u url ≡ false
      → counter m url (cleanup_endpoint_metrics u registry) ≡ counter m url registry
  unfolding cleanup_endpoint_metrics counter
  cleanup_other u registry other = ground (arith, other)

  cleanup_zero :
      (u : Text) (registry : Registry)
      → counter m url registry ≡ 0
      → counter m url (cleanup_endpoint_metrics u registry) ≡ 0
  unfolding cleanup_endpoint_metrics counter
  cleanup_zero u registry h = elim (Bool-cases (text_eq u url)) [
    | inl same ↦ ground (arith, same, h)
    | inr other ↦ ground (arith, other, h)
  ]

  cleanup_all-zero :
      (us : List Text) (registry : Registry)
      → counter m url registry ≡ 0
      → counter m url (cleanup_all us registry) ≡ 0
  unfolding cleanup_all
  cleanup_all-zero [] registry h = h
  cleanup_all-zero (u ∷ us) registry h = cleanup_all-zero us _ (cleanup_zero u registry h)

  -- The counters of a URL that stays are kept.
  cleanup_all-kept :
      (us : List Text) (registry : Registry)
      → any (text_eq url) us ≡ false
      → counter m url (cleanup_all us registry) ≡ counter m url registry
  unfolding cleanup_all
  cleanup_all-kept [] registry h = refl
  cleanup_all-kept (u ∷ us) registry h = elim (Bool-cases (text_eq u url)) [
    | inl same ↦
        let e : url ≡ u = sym ((text_eq_iff u url).0 same) in cc (rw (e, text_eq_refl) at h)
    | inr other ↦ cleanup_all-kept us _ (ground (arith, h)) ∙ cleanup_other u registry other
  ]

  -- One that is started again by the removal of its own URL is at zero afterwards.
  cleanup_all-removed :
      ((registry : Registry) → counter m url (cleanup_endpoint_metrics url registry) ≡ 0)
      → (us : List Text) (registry : Registry) → any (text_eq url) us ≡ true
      → counter m url (cleanup_all us registry) ≡ 0
  unfolding cleanup_all
  cleanup_all-removed zeroed [] registry h = cc h
  cleanup_all-removed zeroed (u ∷ us) registry h = elim (Bool-cases (text_eq url u)) [
    | inl same ↦
        let e : url ≡ u = (text_eq_iff url u).0 same in
        cleanup_all-zero us _
          (subst (λ v. counter m url (cleanup_endpoint_metrics v registry) ≡ 0) e (zeroed registry))
    | inr other ↦ cleanup_all-removed zeroed us _ (ground (arith, other, h))
  ]

  -- A counter that no removal touches.
  cleanup_all-stale :
      ((u : Text) (registry : Registry)
        → counter m url (cleanup_endpoint_metrics u registry) ≡ counter m url registry)
      → (us : List Text) (registry : Registry)
      → counter m url (cleanup_all us registry) ≡ counter m url registry
  unfolding cleanup_all
  cleanup_all-stale stays [] registry = refl
  cleanup_all-stale stays (u ∷ us) registry = cleanup_all-stale stays us _ ∙ stays u registry

-- What the cleanup of some URLs does to the counters of one URL.
pub record CountersMoved (us : List Text) (before after : Registry) (url : Text) : Type 0 where
  pub restarted :
      any (text_eq url) us ≡ true
      → (counter rpc_requests_succeeded url after ≡ 0)
        × (counter rpc_requests_failed url after ≡ 0)
        × (counter healthcheck_failed url after ≡ 0)
        × (counter endpoint_rate_limit_deferred url after ≡ 0)
  pub stale :
      (counter request_timeouts url after ≡ counter request_timeouts url before)
      × (counter upstream_rate_limited_total url after
          ≡ counter upstream_rate_limited_total url before)
  pub kept :
      any (text_eq url) us ≡ false → (m : Metric) → counter m url after ≡ counter m url before

cleanup_all-CountersMoved :
    (us : List Text) (before after : Registry) (url : Text)
    → ((m : Metric) → counter m url after ≡ counter m url (cleanup_all us before))
    → CountersMoved us before after url
unfolding cleanup_endpoint_metrics counter
cleanup_all-CountersMoved us before after url counts = record {
  restarted = λ here. (
    counts rpc_requests_succeeded
        ∙ cleanup_all-removed rpc_requests_succeeded url (λ r. rw text_eq_refl refl) us before here,
    counts rpc_requests_failed
        ∙ cleanup_all-removed rpc_requests_failed url (λ r. rw text_eq_refl refl) us before here,
    counts healthcheck_failed
        ∙ cleanup_all-removed healthcheck_failed url (λ r. rw text_eq_refl refl) us before here,
    counts endpoint_rate_limit_deferred
        ∙ cleanup_all-removed endpoint_rate_limit_deferred url (λ r. rw text_eq_refl refl) us before
            here,
  );
  stale = (
    counts request_timeouts ∙ cleanup_all-stale request_timeouts url (λ u r. refl) us before,
    counts upstream_rate_limited_total
        ∙ cleanup_all-stale upstream_rate_limited_total url (λ u r. refl) us before,
  );
  kept = λ other m. counts m ∙ cleanup_all-kept m url us before other;
}

urls-statics : (eps : List RpcEndpoint) → urls eps ≡ map (λ s. s.url) (statics eps)
urls-statics [] = refl
urls-statics (e ∷ eps) = ap (◌∷◌ e.url) (urls-statics eps)

configured_all-urls :
    (cfgs : List EndpointConfig) → map (λ s. s.url) (configured_all cfgs) ≡ cfg_urls cfgs
configured_all-urls [] = refl
configured_all-urls (c ∷ cfgs) = ap (◌∷◌ c.url) (configured_all-urls cfgs)

urls-configured :
    (eps : List RpcEndpoint) (cfgs : List EndpointConfig)
    → statics eps ≡ configured_all cfgs
    → urls eps ≡ cfg_urls cfgs
urls-configured eps cfgs h = urls-statics eps ∙ ap (map (λ s. s.url)) h ∙ configured_all-urls cfgs

-- What a reload leaves of the counters of a URL: all of them where it fails.
abbrev pub CountersAfter :
    {F L : Type 0}
    → LoadBalancer F L
    → Text
    → Result ReloadError ReloadResponse × LoadBalancer F L
    → Type 0
CountersAfter b url (Result.err e, b') =
    (m : Metric) → counter m url b'.registry ≡ counter m url b.registry
CountersAfter b url (Result.ok response, b') =
    CountersMoved (difference (urls b.endpoints) (urls b'.endpoints)) b.registry b'.registry url

module _ {F L : Type 0} (fl : Float F) (rl : RateLimiter L) (can_build : Client → Bool)
    (b : LoadBalancer F L) (now : ℕ) where
  -- On a balancer with the invariant a reload returns or panics on the new HTTP client. One that goes through starts the counters of
  -- successes, failures, failed checks and deferrals of a URL that it takes out again at zero,
  -- leaves its timeouts and its upstream rate limits, and leaves all counters of every other URL;
  -- one that does not leaves all counters.
  pub reload-counters :
      (read_to_string : Text → FileRead) (from_toml : Text → Result Text (Config F)) (url : Text)
      → Inv b
      → Sat (reload fl rl can_build read_to_string from_toml b now) (CountersAfter b url)
  reload-counters read_to_string from_toml url inv =
      elim (reload-safe fl rl can_build b now read_to_string from_toml inv) [
        | inl (e, ends) ↦ rw ends (λ m. refl)
        | inr (inl (new, changed, refused, ends)) ↦ rw ends (λ m. refl)
        | inr (inr (new, response, b', done, applied)) ↦ rw done (
            cleanup_all-CountersMoved _ b.registry b'.registry url (λ m.
              applied.counts m url
              ∙ ap (λ us. counter m url (cleanup_all (difference (urls b.endpoints) us) b.registry))
                  (sym (urls-configured b'.endpoints new.endpoints_list applied.as_configured))))
      ]

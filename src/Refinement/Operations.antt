-- ===== src/Refinement/Operations.antt =====
-- What the operations of the balancer do to the view.
use azoth_balancer.Prelude.{
  ℕ, ◌≡◌, refl, sym, ap, ◌∙◌, Bool, true, false, List, [], ◌∷◌, map, Option, none, some, Text,
  text_eq, text_eq_iff, lookup, get_or, find, find-holds, update_first, map-update_first,
  Option-cases, Bool-cases, inl, inr, All,
}
use azoth_balancer.Float.{Float}
use azoth_balancer.Limiter.{RateLimiter}
use azoth_balancer.Cooldown.{trigger_cooldown}
use azoth_balancer.Endpoint.{RpcEndpoint}
use azoth_balancer.Strategy.{select_best_endpoint}
use azoth_balancer.Balancer.{
  LoadBalancer, has_url, get_next_endpoint, mark_unhealthy, mark_rate_limited, put_into_cooldown,
  update_healthy_count, cooldown_tick,
}
use azoth_balancer.Health.{apply_update, apply_updates, finish_health_checks}
use azoth_balancer.Health.Round.{
  checked, checked-healthy, checked-url, apply_update-found, apply_update-missing,
}
use azoth_balancer.Refinement.{seen, view, set_health, set_all, serve_urls}
use azoth_balancer.Reload.Outcome.{KeepsState}

module _ (url : Text) where
  view-missing :
      (healthy : Bool) (eps : List RpcEndpoint)
      → find (has_url url) eps ≡ none
      → set_health url healthy (view eps) ≡ view eps
  unfolding set_health update_first
  view-missing healthy [] h = refl
  view-missing healthy (e ∷ eps) h = elim (Bool-cases (text_eq e.url url)) [
    | inl hit ↦ cc (rw hit at h)
    | inr miss ↦ rw miss (ap (◌∷◌ (seen e)) (view-missing healthy eps (rw miss at h)))
  ]

  view-same :
      (ep : RpcEndpoint) (eps : List RpcEndpoint)
      → find (has_url url) eps ≡ some ep
      → set_health url ep.healthy (view eps) ≡ view eps
  unfolding set_health update_first
  view-same ep [] h = refl
  view-same ep (e ∷ eps) h = elim (Bool-cases (text_eq e.url url)) [
    | inl hit ↦
        let same : e ≡ ep = cc (rw hit at h) in
        rw hit (ap (λ x. (e.url, x.healthy) ∷ view eps) (sym same))
    | inr miss ↦ rw miss (ap (◌∷◌ (seen e)) (view-same ep eps (rw miss at h)))
  ]

  -- A write over the endpoint that was found.
  view-written :
      (v ep : RpcEndpoint) (healthy : Bool) (eps : List RpcEndpoint)
      → find (has_url url) eps ≡ some ep
      → seen v ≡ (ep.url, healthy)
      → view (update_first (has_url url) (λ _. v) eps) ≡ set_health url healthy (view eps)
  unfolding set_health update_first
  view-written v ep healthy [] h q = refl
  view-written v ep healthy (e ∷ eps) h q = elim (Bool-cases (text_eq e.url url)) [
    | inl hit ↦
        let same : e ≡ ep = cc (rw hit at h) in
        rw hit (ap (λ p. p ∷ view eps) (q ∙ ap (λ x. (x.url, healthy)) (sym same)))
    | inr miss ↦ rw miss (ap (◌∷◌ (seen e)) (view-written v ep healthy eps (rw miss at h) q))
  ]

module _ {F L : Type 0} (b : LoadBalancer F L) (url : Text) (now : ℕ) where
  cooled-seen :
      (ep : RpcEndpoint)
      → seen (trigger_cooldown ep b.base_cooldown_secs b.max_cooldown_secs now b.registry).0
        ≡ seen ep
  unfolding trigger_cooldown
  cooled-seen ep = refl

  pub view-mark_unhealthy :
      view (mark_unhealthy b url now).endpoints ≡ set_health url false (view b.endpoints)
  unfolding mark_unhealthy put_into_cooldown
  view-mark_unhealthy = elim (Option-cases (find (has_url url) b.endpoints)) [
    | inl missing ↦ rw (missing, mark_unhealthy) (sym (view-missing url false b.endpoints missing))
    | inr (ep, h) ↦ elim (Bool-cases ep.healthy) [
      | inl up ↦
          rw (h, mark_unhealthy)
            (rw up (
              view-written url _ ep false b.endpoints h
                (cooled-seen (record ep { healthy = false }))))
      | inr down ↦
          rw (h, mark_unhealthy) (rw down (sym (rw down at (view-same url ep b.endpoints h))))
    ]
  ]

  pub view-mark_rate_limited : view (mark_rate_limited b url now).endpoints ≡ view b.endpoints
  unfolding mark_rate_limited put_into_cooldown
  view-mark_rate_limited = elim (Option-cases (find (has_url url) b.endpoints)) [
    | inl missing ↦ rw (missing, mark_rate_limited) refl
    | inr (ep, h) ↦
        rw (h, mark_rate_limited)
          (view-written url _ ep ep.healthy b.endpoints h (cooled-seen ep)
            ∙ view-same url ep b.endpoints h)
  ]

module _ {F L : Type 0} (fl : Float F) (timeout_secs now : ℕ) where
  view-apply_update :
      (b : LoadBalancer F L) (url : Text) (is_healthy : Bool)
      → view (apply_update fl b timeout_secs now url is_healthy).endpoints
        ≡ set_health url is_healthy (view b.endpoints)
  view-apply_update b url is_healthy = elim (Option-cases (find (has_url url) b.endpoints)) [
    | inl missing ↦
        ap (λ x. view x.endpoints)
          (apply_update-missing fl b timeout_secs now url is_healthy missing)
        ∙ sym (view-missing url is_healthy b.endpoints missing)
    | inr (ep, h) ↦
        let same_url : ep.url ≡ url =
          (text_eq_iff ep.url url).0 (find-holds (has_url url) b.endpoints ep h) in
        ap view (apply_update-found fl b timeout_secs now url is_healthy ep h)
        ∙ view-written url (checked fl b timeout_secs now ep is_healthy) ep is_healthy b.endpoints h
            (cc (
              checked-url fl b timeout_secs now url is_healthy ep h,
              same_url,
              checked-healthy fl b timeout_secs now ep is_healthy,
            ))
  ]

  view-apply_updates :
      (b : LoadBalancer F L) (updates : List (Text × Bool))
      → view (apply_updates fl b timeout_secs now updates).endpoints
        ≡ set_all updates (view b.endpoints)
  unfolding apply_updates set_all
  view-apply_updates b [] = refl
  view-apply_updates b ((url, is_healthy) ∷ updates) =
      view-apply_updates (apply_update fl b timeout_secs now url is_healthy) updates
      ∙ ap (set_all updates) (view-apply_update b url is_healthy)

  pub view-finish_health_checks :
      (b : LoadBalancer F L) (updates : List (Text × Bool))
      → view (finish_health_checks fl b timeout_secs now updates).endpoints
        ≡ set_all updates (view b.endpoints)
  unfolding finish_health_checks update_healthy_count
  view-finish_health_checks b updates = view-apply_updates b updates

pub view-cooldown_tick :
    {F L : Type 0} (b : LoadBalancer F L) (now : ℕ)
    → view (cooldown_tick b now).endpoints ≡ view b.endpoints
unfolding cooldown_tick update_healthy_count
view-cooldown_tick b now = refl

pub view-get_next_endpoint :
    {F L : Type 0} (fl : Float F) (rl : RateLimiter L) (b : LoadBalancer F L)
    (batch_size now unix_secs : ℕ)
    → view (get_next_endpoint fl rl b batch_size now unix_secs).1.endpoints ≡ view b.endpoints
unfolding get_next_endpoint
view-get_next_endpoint fl rl b batch_size now unix_secs =
    elim (Option-cases
      (select_best_endpoint rl b.endpoints batch_size now b.rate_limiters b.registry).chosen) [
        | inl nothing ↦ rw (nothing, get_next_endpoint) refl
        | inr (ep, chosen) ↦
            rw (chosen, get_next_endpoint) (map-update_first seen _ _ b.endpoints (λ x. refl))
      ]

-- The health that the view has of a URL is that of the endpoint found for it.
lookup-view :
    (url : Text) (eps : List RpcEndpoint)
    → lookup url (view eps)
      ≡ elim (find (has_url url) eps) [ none ↦ none | some e ↦ some e.healthy ]
unfolding lookup
lookup-view url [] = refl
lookup-view url (e ∷ eps) = elim (Bool-cases (text_eq e.url url)) [
  | inl hit ↦ rw hit refl
  | inr miss ↦ rw miss (lookup-view url eps)
]

KeepsState-healthy :
    (old : Option RpcEndpoint) (e : RpcEndpoint)
    → KeepsState old e
    → e.healthy ≡ get_or (elim old [ none ↦ none | some x ↦ some x.healthy ]) true
KeepsState-healthy none e k = k.0
KeepsState-healthy (some old) e k = k.0

-- Endpoints that keep the state of those before.
pub view-KeepsState :
    (before eps : List RpcEndpoint)
    → All (λ e. KeepsState (find (has_url e.url) before) e) eps
    → view eps ≡ serve_urls (map (λ e. e.url) eps) (view before)
unfolding serve_urls
view-KeepsState before [] k = refl
view-KeepsState before (e ∷ eps) k =
    let known = KeepsState-healthy (find (has_url e.url) before) e k.0 in
    cc (known, lookup-view e.url before, view-KeepsState before eps k.1)

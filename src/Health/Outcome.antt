-- ===== src/Health/Outcome.antt =====
-- What a round of health checks leaves: the health of every endpoint, and the invariant.
use azoth_balancer.Prelude.{
  Sat, All-mono, Option, none, inl, inr, Option-cases, ℕ, ◌≡◌, ◌≢◌, refl, ap, ◌∙◌, Bool, true,
  false, List, [], ◌∷◌, some, Text, text_eq, text_eq_refl, find, update_first, find-update_first,
  map-update_first_found, All, Option-cases, inl, inr,
}
use azoth_balancer.Float.{Float}
use azoth_balancer.Metrics.{Registry}
use azoth_balancer.Endpoint.{RpcEndpoint}
use azoth_balancer.Balancer.{LoadBalancer, has_url, update_healthy_count}
use azoth_balancer.Balancer.Invariant.{static, Inv, Inv-endpoints}
use azoth_balancer.Health.{apply_update, apply_updates, finish_health_checks}
use azoth_balancer.Health.Round.{
  checked, checked-static, checked-healthy, checked-url, apply_update-found, apply_update-other,
  apply_updates-other,
}

-- No two results are about one URL.
abbrev pub DistinctUpdates : List (Text × Bool) → Type 0
DistinctUpdates [] = Unit
DistinctUpdates (u ∷ updates) = All (λ x. x.0 ≢ u.0) updates × DistinctUpdates updates

-- An endpoint that was found for a result ends up as healthy as the result says.
abbrev Follows : {F L : Type 0} → LoadBalancer F L → LoadBalancer F L → Text × Bool → Type 0
Follows b b' u =
    (ep : RpcEndpoint)
    → find (has_url u.0) b.endpoints ≡ some ep
    → (e : RpcEndpoint) × (find (has_url u.0) b'.endpoints ≡ some e) × (e.healthy ≡ u.1)

-- Of the endpoint before and after, by its URL: where there was one, there is one that is as
-- healthy as a result says.
abbrev pub HealthyAs : Bool → Option RpcEndpoint → Option RpcEndpoint → Type 0
HealthyAs is_healthy none after = Unit
HealthyAs is_healthy (some ep) after = Sat after (λ e. e.healthy ≡ is_healthy)

-- The endpoint that a result is about, if there is one, ends up as healthy as the result says.
abbrev pub Agrees : {F L : Type 0} → LoadBalancer F L → LoadBalancer F L → Text × Bool → Type 0
Agrees b b' u = HealthyAs u.1 (find (has_url u.0) b.endpoints) (find (has_url u.0) b'.endpoints)

Follows-Agrees :
    {F L : Type 0} (b b' : LoadBalancer F L) (u : Text × Bool) → Follows b b' u → Agrees b b' u
Follows-Agrees b b' u follows = elim (Option-cases (find (has_url u.0) b.endpoints)) [
  | inl missing ↦ rw missing tt
  | inr (ep, h) ↦ let (e, found, same) = follows ep h in rw (h, found) same
]

module _ {F L : Type 0} (fl : Float F) (timeout_secs now : ℕ) where
  first-Follows :
      (b : LoadBalancer F L) (url : Text) (is_healthy : Bool) (updates : List (Text × Bool))
      → All (λ x. x.0 ≢ url) updates
      → Follows b
          (apply_updates fl
            (apply_update fl b timeout_secs now url is_healthy)
            timeout_secs
            now
            updates)
          (url, is_healthy)
  first-Follows b url is_healthy updates ne ep h = (
    checked fl b timeout_secs now ep is_healthy,
    apply_updates-other fl (apply_update fl b timeout_secs now url is_healthy) timeout_secs now
          updates url ne
        ∙ ap (find (has_url url)) (apply_update-found fl b timeout_secs now url is_healthy ep h)
        ∙ find-update_first (has_url url) (λ _. checked fl b timeout_secs now ep is_healthy)
            b.endpoints ep h
            (ap (λ u. text_eq u url) (checked-url fl b timeout_secs now url is_healthy ep h)
              ∙ text_eq_refl url),
    checked-healthy fl b timeout_secs now ep is_healthy,
  )

  rest-Follow :
      (b b' : LoadBalancer F L) (url : Text) (is_healthy : Bool) (updates : List (Text × Bool))
      → All (λ x. x.0 ≢ url) updates
      → All (Follows (apply_update fl b timeout_secs now url is_healthy) b') updates
      → All (Follows b b') updates
  rest-Follow b b' url is_healthy [] ne agree = tt
  rest-Follow b b' url is_healthy (u ∷ updates) ne agree = (
    λ ep h. agree.0 ep (apply_update-other fl b timeout_secs now url is_healthy u.0 ne.0 ∙ h),
    rest-Follow b b' url is_healthy updates ne.1 agree.1,
  )

  apply_updates-Follow :
      (b : LoadBalancer F L) (updates : List (Text × Bool))
      → DistinctUpdates updates
      → All (Follows b (apply_updates fl b timeout_secs now updates)) updates
  unfolding apply_updates
  apply_updates-Follow b [] distinct = tt
  apply_updates-Follow b ((url, is_healthy) ∷ updates) distinct =
      let b1 = apply_update fl b timeout_secs now url is_healthy in
      (
        first-Follows b url is_healthy updates distinct.0,
        rest-Follow b (apply_updates fl b1 timeout_secs now updates) url is_healthy updates
            distinct.0 (apply_updates-Follow b1 updates distinct.1),
      )

  -- After a round of health checks whose results are about different URLs, every endpoint that a
  -- result came in for is healthy exactly if its result was good, and every endpoint that none
  -- came in for is as it was.
  pub finish_health_checks-Agree :
      (b : LoadBalancer F L) (updates : List (Text × Bool))
      → DistinctUpdates updates
      → All (Agrees b (finish_health_checks fl b timeout_secs now updates)) updates
        × ((other : Text)
            → All (λ u. u.0 ≢ other) updates
            → find (has_url other) (finish_health_checks fl b timeout_secs now updates).endpoints
              ≡ find (has_url other) b.endpoints)
  unfolding finish_health_checks update_healthy_count
  finish_health_checks-Agree b updates distinct = (
    All-mono (Follows-Agrees b (apply_updates fl b timeout_secs now updates)) updates
        (apply_updates-Follow b updates distinct),
    λ other ne. apply_updates-other fl b timeout_secs now updates other ne,
  )

  written-Inv :
      (b : LoadBalancer F L) (url : Text) (ep : RpcEndpoint) (is_healthy : Bool)
      (registry : Registry)
      → find (has_url url) b.endpoints ≡ some ep
      → Inv b
      → Inv (record b {
        endpoints =
            update_first
              (has_url url)
              (λ _. checked fl b timeout_secs now ep is_healthy)
              b.endpoints;
        registry = registry;
      })
  written-Inv b url ep is_healthy registry h inv =
      Inv-endpoints b _ registry
        (map-update_first_found static (has_url url) (checked fl b timeout_secs now ep is_healthy)
          ep b.endpoints h (checked-static fl b timeout_secs now ep is_healthy))
        inv

  apply_update-Inv :
      (b : LoadBalancer F L) (url : Text) (is_healthy : Bool)
      → Inv b
      → Inv (apply_update fl b timeout_secs now url is_healthy)
  unfolding apply_update
  apply_update-Inv b url true inv = elim (Option-cases (find (has_url url) b.endpoints)) [
    | inl missing ↦ rw (missing, apply_update) inv
    | inr (ep, h) ↦ rw (h, apply_update) (written-Inv b url ep true _ h inv)
  ]
  apply_update-Inv b url false inv = elim (Option-cases (find (has_url url) b.endpoints)) [
    | inl missing ↦ rw (missing, apply_update) inv
    | inr (ep, h) ↦ rw (h, apply_update) (written-Inv b url ep false _ h inv)
  ]

  apply_updates-Inv :
      (b : LoadBalancer F L) (updates : List (Text × Bool))
      → Inv b
      → Inv (apply_updates fl b timeout_secs now updates)
  unfolding apply_updates
  apply_updates-Inv b [] inv = inv
  apply_updates-Inv b ((url, is_healthy) ∷ updates) inv =
      apply_updates-Inv (apply_update fl b timeout_secs now url is_healthy) updates
        (apply_update-Inv b url is_healthy inv)

  pub finish_health_checks-Inv :
      (b : LoadBalancer F L) (updates : List (Text × Bool))
      → Inv b
      → Inv (finish_health_checks fl b timeout_secs now updates)
  unfolding finish_health_checks update_healthy_count
  finish_health_checks-Inv b updates inv =
      Inv-endpoints _ _ _ refl (apply_updates-Inv b updates inv)

-- ===== src/Health/Round.antt =====
-- What one update of a round of health checks does to the endpoints.
use azoth_balancer.Prelude.{
  ℕ, ◌≡◌, ◌≢◌, refl, sym, ap, ◌∙◌, Bool, true, false, List, [], ◌∷◌, none, some, Text, text_eq_iff,
  text_eq_other, find, find-holds, update_first, find-update_first_other, All, Option-cases,
  Bool-cases, inl, inr,
}
use azoth_balancer.Float.{Float}
use azoth_balancer.Endpoint.{RpcEndpoint}
use azoth_balancer.Cooldown.{trigger_cooldown}
use azoth_balancer.Balancer.{LoadBalancer, has_url}
use azoth_balancer.Balancer.Invariant.{static}
use azoth_balancer.Health.{passed_check, failed_check, apply_update, apply_updates}

module _ {F L : Type 0} (fl : Float F) where
  -- The endpoint after its check.
  abbrev pub checked : LoadBalancer F L → (timeout_secs now : ℕ) → RpcEndpoint → Bool → RpcEndpoint
  checked b timeout_secs now ep true = passed_check fl ep now
  checked b timeout_secs now ep false = (failed_check fl b timeout_secs now ep).0

  pub checked-static :
      (b : LoadBalancer F L) (timeout_secs now : ℕ) (ep : RpcEndpoint) (is_healthy : Bool)
      → static (checked b timeout_secs now ep is_healthy) ≡ static ep
  unfolding passed_check failed_check trigger_cooldown
  checked-static b timeout_secs now ep true = elim (Bool-cases ep.healthy) [
    | inl up ↦ rw (up, passed_check) refl
    | inr down ↦ rw (down, passed_check) refl
  ]
  checked-static b timeout_secs now ep false = elim (Bool-cases ep.healthy) [
    | inl up ↦ rw (up, failed_check) refl
    | inr down ↦ rw (down, failed_check) refl
  ]

  pub checked-healthy :
      (b : LoadBalancer F L) (timeout_secs now : ℕ) (ep : RpcEndpoint) (is_healthy : Bool)
      → (checked b timeout_secs now ep is_healthy).healthy ≡ is_healthy
  unfolding passed_check failed_check trigger_cooldown
  checked-healthy b timeout_secs now ep true = elim (Bool-cases ep.healthy) [
    | inl up ↦ rw (up, passed_check) refl
    | inr down ↦ rw (down, passed_check) refl
  ]
  checked-healthy b timeout_secs now ep false = elim (Bool-cases ep.healthy) [
    | inl up ↦ rw (up, failed_check) refl
    | inr down ↦ rw (down, failed_check) refl
  ]

  pub apply_update-found :
      (b : LoadBalancer F L) (timeout_secs now : ℕ) (url : Text) (is_healthy : Bool)
      (ep : RpcEndpoint)
      → find (has_url url) b.endpoints ≡ some ep
      → (apply_update fl b timeout_secs now url is_healthy).endpoints
        ≡ update_first (has_url url) (λ _. checked b timeout_secs now ep is_healthy) b.endpoints
  unfolding apply_update
  apply_update-found b timeout_secs now url true ep h = rw (h, apply_update) refl
  apply_update-found b timeout_secs now url false ep h = rw (h, apply_update) refl

  pub apply_update-missing :
      (b : LoadBalancer F L) (timeout_secs now : ℕ) (url : Text) (is_healthy : Bool)
      → find (has_url url) b.endpoints ≡ none
      → apply_update fl b timeout_secs now url is_healthy ≡ b
  unfolding apply_update
  apply_update-missing b timeout_secs now url is_healthy h = rw (h, apply_update) refl

  pub checked-url :
      (b : LoadBalancer F L) (timeout_secs now : ℕ) (url : Text) (is_healthy : Bool)
      (ep : RpcEndpoint)
      → find (has_url url) b.endpoints ≡ some ep
      → (checked b timeout_secs now ep is_healthy).url ≡ url
  checked-url b timeout_secs now url is_healthy ep h =
      ap (λ s. s.url) (checked-static b timeout_secs now ep is_healthy)
      ∙ (text_eq_iff ep.url url).0 (find-holds (has_url url) b.endpoints ep h)

  -- An update does not touch the endpoints of other URLs.
  pub apply_update-other :
      (b : LoadBalancer F L) (timeout_secs now : ℕ) (url : Text) (is_healthy : Bool) (other : Text)
      → other ≢ url
      → find (has_url other) (apply_update fl b timeout_secs now url is_healthy).endpoints
        ≡ find (has_url other) b.endpoints
  apply_update-other b timeout_secs now url is_healthy other ne =
      elim (Option-cases (find (has_url url) b.endpoints)) [
        | inl missing ↦
            ap (λ x. find (has_url other) x.endpoints)
              (apply_update-missing b timeout_secs now url is_healthy missing)
        | inr (ep, h) ↦
            ap (find (has_url other)) (apply_update-found b timeout_secs now url is_healthy ep h)
            ∙ find-update_first_other (has_url url) (λ _. checked b timeout_secs now ep is_healthy)
                (has_url other) b.endpoints
                (λ x hit.
                  text_eq_other x.url other (λ q. ne (sym q ∙ (text_eq_iff x.url url).0 hit)))
                (λ x hit.
                  text_eq_other _ other
                    (λ q. ne (sym q ∙ checked-url b timeout_secs now url is_healthy ep h)))
      ]

  pub apply_updates-other :
      (b : LoadBalancer F L) (timeout_secs now : ℕ) (updates : List (Text × Bool)) (other : Text)
      → All (λ u. u.0 ≢ other) updates
      → find (has_url other) (apply_updates fl b timeout_secs now updates).endpoints
        ≡ find (has_url other) b.endpoints
  unfolding apply_updates
  apply_updates-other b timeout_secs now [] other ne = refl
  apply_updates-other b timeout_secs now ((url, is_healthy) ∷ updates) other ne =
      apply_updates-other (apply_update fl b timeout_secs now url is_healthy) timeout_secs now
        updates other ne.1
      ∙ apply_update-other b timeout_secs now url is_healthy other (λ q. ne.0 (sym q))

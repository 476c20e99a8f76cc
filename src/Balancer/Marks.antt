-- ===== src/Balancer/Marks.antt =====
-- `mark_unhealthy` and `mark_rate_limited`: the endpoint that they hit, and the others.
use azoth_balancer.Prelude.{
  ℕ, ◌+◌, ◌*◌, ◌^◌, ◌≤◌, ◌<◌, ◌≡◌, ◌≢◌, refl, sym, ap, ◌∙◌, true, false, none, some, min, ltb,
  text_eq_other, u64_max, Text, text_eq, text_eq_iff, find, find-holds, find-update_first,
  find-update_first_other, Option-cases, Bool-cases, inl, inr,
}
use azoth_balancer.Endpoint.{RpcEndpoint, is_available, is_in_cooldown, nanos_per_sec}
use azoth_balancer.Cooldown.{trigger_cooldown}
use azoth_balancer.Cooldown.Backoff.{trigger_cooldown_exact}
use azoth_balancer.Balancer.{
  LoadBalancer, has_url, mark_rate_limited, mark_unhealthy, put_into_cooldown,
}

module _ {F L : Type 0} (b : LoadBalancer F L) (url : Text) (now : ℕ) (ep : RpcEndpoint) where
  abbrev cooled : RpcEndpoint → RpcEndpoint
  cooled e = (trigger_cooldown e b.base_cooldown_secs b.max_cooldown_secs now b.registry).0

  trigger_cooldown-url : (e : RpcEndpoint) → (cooled e).url ≡ e.url
  unfolding trigger_cooldown
  trigger_cooldown-url e = refl

  trigger_cooldown-healthy : (e : RpcEndpoint) → (cooled e).healthy ≡ e.healthy
  unfolding trigger_cooldown
  trigger_cooldown-healthy e = refl

  put_into_cooldown-find :
      (e : RpcEndpoint)
      → find (has_url url) b.endpoints ≡ some ep
      → e.url ≡ ep.url
      → find (has_url url) (put_into_cooldown b url now e).endpoints ≡ some (cooled e)
  unfolding put_into_cooldown
  put_into_cooldown-find e h same =
      find-update_first (has_url url) (λ _. cooled e) b.endpoints ep h
        (ap (λ u. text_eq u url) (trigger_cooldown-url e ∙ same)
          ∙ find-holds (has_url url) b.endpoints ep h)

  mark_unhealthy-find :
      find (has_url url) b.endpoints ≡ some ep
      → ep.healthy ≡ true
      → find (has_url url) (mark_unhealthy b url now).endpoints
        ≡ some (cooled (record ep { healthy = false }))
  unfolding mark_unhealthy
  mark_unhealthy-find h up =
      rw (h, mark_unhealthy) (rw up (put_into_cooldown-find (record ep { healthy = false }) h refl))

module _ {F L : Type 0} (b : LoadBalancer F L) (url : Text) (now : ℕ) where
  missing_same : find (has_url url) b.endpoints ≡ none → mark_unhealthy b url now ≡ b
  unfolding mark_unhealthy
  missing_same h = rw (h, mark_unhealthy) refl

  down_same :
      (e : RpcEndpoint)
      → find (has_url url) b.endpoints ≡ some e
      → e.healthy ≡ false
      → mark_unhealthy b url now ≡ b
  unfolding mark_unhealthy
  down_same e h down = rw (h, mark_unhealthy) (rw down refl)

module _ {F L : Type 0} (b : LoadBalancer F L) (url : Text) (now : ℕ) where
  -- After `mark_unhealthy` the endpoint of the URL, if there is one, is unhealthy, and so
  -- unavailable at every instant until something marks it healthy.
  pub mark_unhealthy_down :
      (ep : RpcEndpoint)
      → find (has_url url) b.endpoints ≡ some ep
      → (e : RpcEndpoint) × (find (has_url url) (mark_unhealthy b url now).endpoints ≡ some e)
        × (e.healthy ≡ false)
        × ((t : ℕ) → is_available e t ≡ false)
  unfolding is_available
  mark_unhealthy_down ep h = elim (Bool-cases ep.healthy) [
    | inl up ↦
        let down : (cooled b url now ep (record ep { healthy = false })).healthy ≡ false =
          trigger_cooldown-healthy b url now ep (record ep { healthy = false }) in
        (_, mark_unhealthy-find b url now ep h up, down, λ t. rw (down, is_available) refl)
    | inr down ↦ (
      ep,
      ap (λ x. find (has_url url) x.endpoints) (down_same b url now ep h down) ∙ h,
      down,
      λ t. rw (down, is_available) refl,
    )
  ]

  -- Marking an endpoint unhealthy again, at any time, changes nothing: a second failure does not
  -- prolong the cooldown.
  pub mark_unhealthy_idem :
      (later : ℕ) → mark_unhealthy (mark_unhealthy b url now) url later ≡ mark_unhealthy b url now
  mark_unhealthy_idem later = elim (Option-cases (find (has_url url) b.endpoints)) [
    | inl missing ↦
        ap (λ x. mark_unhealthy x url later) (missing_same b url now missing)
        ∙ missing_same b url later missing
        ∙ sym (missing_same b url now missing)
    | inr (ep, h) ↦
        let (e, found, down, _) = mark_unhealthy_down ep h in
        down_same (mark_unhealthy b url now) url later e found down
  ]

  -- After `mark_rate_limited`, with fewer than 63 cooldowns since the last recovery, the endpoint
  -- is as healthy as before and in cooldown for min (base * 2 ^ attempts) max seconds exactly.
  pub mark_rate_limited_exact :
      (ep : RpcEndpoint)
      → find (has_url url) b.endpoints ≡ some ep
      → b.max_cooldown_secs ≤ u64_max
      → ep.cooldown_attempts < 63
      → let over =
          now
          + min (b.base_cooldown_secs * 2 ^ (ep.cooldown_attempts + 1)) b.max_cooldown_secs
            * nanos_per_sec in
        (e : RpcEndpoint) × (find (has_url url) (mark_rate_limited b url now).endpoints ≡ some e)
        × (e.healthy ≡ ep.healthy)
        × ((t : ℕ) → is_in_cooldown e t ≡ ltb t over)
  unfolding mark_rate_limited
  mark_rate_limited_exact ep h fits few = (
    cooled b url now ep ep,
    rw (h, mark_rate_limited) (put_into_cooldown-find b url now ep ep h refl),
    trigger_cooldown-healthy b url now ep ep,
    λ t.
        (trigger_cooldown_exact ep b.base_cooldown_secs b.max_cooldown_secs now b.registry fits t
          few).0,
  )

  put_into_cooldown-other :
      (ep : RpcEndpoint) (other : Text)
      → find (has_url url) b.endpoints ≡ some ep
      → (e : RpcEndpoint) → e.url ≡ ep.url
      → other ≢ url
      → find (has_url other) (put_into_cooldown b url now e).endpoints
        ≡ find (has_url other) b.endpoints
  unfolding put_into_cooldown
  put_into_cooldown-other ep other h e same ne =
      find-update_first_other (has_url url) (λ _. cooled b url now ep e) (has_url other) b.endpoints
        (λ x hit. text_eq_other x.url other (λ q. ne (sym q ∙ (text_eq_iff x.url url).0 hit)))
        (λ x hit. text_eq_other _ other (λ q. ne (
          sym q
          ∙ trigger_cooldown-url b url now ep e
          ∙ same
          ∙ (text_eq_iff ep.url url).0 (find-holds (has_url url) b.endpoints ep h))))

  -- Neither kind of mark changes the endpoint of any other URL.
  pub mark-others :
      (other : Text)
      → other ≢ url
      → (find (has_url other) (mark_unhealthy b url now).endpoints
          ≡ find (has_url other) b.endpoints)
        × (find (has_url other) (mark_rate_limited b url now).endpoints
            ≡ find (has_url other) b.endpoints)
  unfolding mark_unhealthy mark_rate_limited
  mark-others other ne = elim (Option-cases (find (has_url url) b.endpoints)) [
    | inl missing ↦ rw (missing, mark_unhealthy, mark_rate_limited) (refl, refl)
    | inr (ep, h) ↦ elim (Bool-cases ep.healthy) [
      | inl up ↦ (
        rw (h, mark_unhealthy)
            (rw up (put_into_cooldown-other ep other h (record ep { healthy = false }) refl ne)),
        rw (h, mark_rate_limited) (put_into_cooldown-other ep other h ep refl ne),
      )
      | inr down ↦ (
        ap (λ x. find (has_url other) x.endpoints) (down_same b url now ep h down),
        rw (h, mark_rate_limited) (put_into_cooldown-other ep other h ep refl ne),
      )
    ]
  ]

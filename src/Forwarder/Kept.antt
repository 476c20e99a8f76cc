-- ===== src/Forwarder/Kept.antt =====
-- `forward_request` and its parts, and the invariant of the balancer.
use azoth_balancer.Prelude.{
  Option-cases, ℕ, refl, true, false, Text, Result, ◌∷◌, map-update_first, Bool-cases, inl, inr,
  ◌==◌,
}
use azoth_balancer.Float.{Float}
use azoth_balancer.Metrics.{Registry, inc, request_timeouts}
use azoth_balancer.Balancer.{LoadBalancer, mark_unhealthy}
use azoth_balancer.Balancer.Invariant.{static, Inv, Inv-endpoints}
use azoth_balancer.Balancer.Kept.{mark_unhealthy-Inv, mark_rate_limited-Inv}
use azoth_balancer.Forwarder.{
  forward_request, StatusCodes, Sent, response, send_error, begin_request, update_metrics,
  check_response, after_send, after_body, count,
}

module _ {F L : Type 0} where
  pub counted-Inv :
      (b : LoadBalancer F L) (registry : Registry) → Inv b → Inv (record b { registry = registry })
  counted-Inv b registry inv = Inv-endpoints b b.endpoints registry refl inv

  pub begin_request-Inv :
      (b : LoadBalancer F L) (method : Text) → Inv b → Inv (begin_request b method)
  unfolding begin_request count
  begin_request-Inv b method inv = counted-Inv b _ inv

module _ {F L : Type 0} (fl : Float F) (sc : StatusCodes) (url : Text) (now : ℕ) where
  failed-Inv :
      (b : LoadBalancer F L) (registry : Registry)
      → Inv b
      → Inv (record (mark_unhealthy b url now) { registry = registry })
  failed-Inv b registry inv = counted-Inv _ registry (mark_unhealthy-Inv b inv url now)

  check_response-Inv :
      (b : LoadBalancer F L) (sent : Sent) → Inv b → Inv (check_response fl sc b url now sent).1
  unfolding check_response count
  check_response-Inv b (send_error true message) inv =
      failed-Inv (record b { registry = inc request_timeouts url ∷ b.registry }) _
        (counted-Inv b _ inv)
  check_response-Inv b (send_error false message) inv = failed-Inv b _ inv
  check_response-Inv b (response status) inv = elim (Bool-cases (status == 429)) [
    | inl limited ↦
        rw (limited, check_response) (mark_rate_limited-Inv _ (counted-Inv b _ inv) url now)
    | inr other ↦ elim (Bool-cases (sc.is_success status)) [
      | inl fine ↦ rw (other, check_response) (rw fine inv)
      | inr failing ↦ rw (other, check_response) (rw failing (failed-Inv b _ inv))
    ]
  ]

  pub after_send-Inv :
      (b : LoadBalancer F L) (elapsed_ms : ℕ) (sent : Sent)
      → Inv b
      → Inv (after_send fl sc b url elapsed_ms now sent).1
  unfolding after_send update_metrics
  after_send-Inv b elapsed_ms sent inv =
      check_response-Inv _ sent
        (Inv-endpoints b _ _ (map-update_first static _ _ b.endpoints (λ x. refl)) inv)

module _ {F L : Type 0} (url : Text) (now : ℕ) where
  pub after_body-Inv :
      (b : LoadBalancer F L) (body : Result Text Text) → Inv b → Inv (after_body b url now body).1
  unfolding after_body count
  after_body-Inv b (Result.err message) inv = counted-Inv _ _ (mark_unhealthy-Inv b inv url now)
  after_body-Inv b (Result.ok bytes) inv = counted-Inv b _ inv

module _ {F L : Type 0} (fl : Float F) (sc : StatusCodes) where
  pub forward_request-Inv :
      (b : LoadBalancer F L) (url method : Text) (elapsed_ms now : ℕ) (sent : Sent)
      (body : Result Text Text)
      → Inv b
      → Inv (forward_request fl sc b url method elapsed_ms now sent body).1
  unfolding forward_request
  forward_request-Inv b url method elapsed_ms now sent body inv =
      let begun = begin_request b method in
      let checked =
        after_send-Inv fl sc url now begun elapsed_ms sent (begin_request-Inv b method inv) in
      elim (Option-cases (after_send fl sc begun url elapsed_ms now sent).0) [
        | inl going_on ↦ rw (going_on, forward_request) (after_body-Inv url now _ body checked)
        | inr (e, early) ↦ rw (early, forward_request) checked
      ]

-- ===== src/Forwarder/Counts.antt =====
-- The counters RPC_REQUESTS_SUCCEEDED and RPC_REQUESTS_FAILED in `forward_request`.
use azoth_balancer.Prelude.{
  ℕ, ◌+◌, ◌∷◌, wrap_u64, ◌≡◌, refl, subst, ◌∙◌, true, false, Option, none, some, arith, Text,
  text_eq_refl, Result, Option-cases, Bool-cases, inl, inr, ◌==◌, if◌then◌else◌,
}
use azoth_balancer.Float.{Float}
use azoth_balancer.Metrics.{
  inc, counter, request_timeouts, upstream_rate_limited_total, rpc_requests_succeeded,
  rpc_requests_failed,
}
use azoth_balancer.Endpoint.{LoadBalancerError}
use azoth_balancer.Balancer.{LoadBalancer, mark_unhealthy, mark_rate_limited}
use azoth_balancer.Balancer.Counters.{mark_unhealthy-counter, mark_rate_limited-counter}
use azoth_balancer.Forwarder.Body.{response_has_error}
use azoth_balancer.Forwarder.{
  StatusCodes, Sent, response, send_error, begin_request, update_metrics, check_response,
  after_send, after_body, forward_request, count,
}

-- What a result adds to the counter of successes, and to that of failures.
abbrev pub as_success : Result LoadBalancerError Text → ℕ
as_success (Result.err e) = 0
as_success (Result.ok bytes) = if response_has_error bytes then 0 else 1

abbrev pub as_failure : Result LoadBalancerError Text → ℕ
as_failure (Result.err e) = 1
as_failure (Result.ok bytes) = if response_has_error bytes then 1 else 0

abbrev pub Counted : {F L : Type 0} → LoadBalancer F L → LoadBalancer F L → Text → (ℕ × ℕ) → Type 0
Counted b b' url added =
    (counter rpc_requests_succeeded url b'.registry
      ≡ counter rpc_requests_succeeded url b.registry + added.0)
    × (counter rpc_requests_failed url b'.registry
        ≡ counter rpc_requests_failed url b.registry + added.1)

abbrev early_counts : Option LoadBalancerError → ℕ × ℕ
early_counts none = (0, 0)
early_counts (some e) = (0, 1)

module _ {F L : Type 0} (fl : Float F) (sc : StatusCodes) (url : Text) (now : ℕ) where
  marked :
      (b b' : LoadBalancer F L)
      → Counted b b' url (0, 0)
      → Counted b
          (record (mark_unhealthy b' url now) {
            registry = inc rpc_requests_failed url ∷ (mark_unhealthy b' url now).registry;
          })
          url
          (0, 1)
  unfolding counter
  marked b b' same = (
    omega (arith, same.0, mark_unhealthy-counter b' url now rpc_requests_succeeded url),
    rw text_eq_refl
        (omega (arith, same.1, mark_unhealthy-counter b' url now rpc_requests_failed url)),
  )

  limited_marked :
      (b : LoadBalancer F L)
      → Counted b
          (mark_rate_limited
            (record b {
              registry =
                  inc rpc_requests_failed url ∷ inc upstream_rate_limited_total url ∷ b.registry;
            })
            url
            now)
          url
          (0, 1)
  unfolding counter
  limited_marked b =
      let b' : LoadBalancer F L = record b {
        registry = inc rpc_requests_failed url ∷ inc upstream_rate_limited_total url ∷ b.registry;
      } in
      (
        omega (arith, mark_rate_limited-counter b' url now rpc_requests_succeeded url),
        mark_rate_limited-counter b' url now rpc_requests_failed url ∙ rw text_eq_refl refl,
      )

  check_response-counts :
      (b : LoadBalancer F L) (sent : Sent)
      → Counted b
          (check_response fl sc b url now sent).1
          url
          (early_counts (check_response fl sc b url now sent).0)
  unfolding check_response count counter
  check_response-counts b (send_error true message) =
      marked b (record b { registry = inc request_timeouts url ∷ b.registry })
        (omega arith, omega arith)
  check_response-counts b (send_error false message) = marked b b (omega arith, omega arith)
  check_response-counts b (response status) = elim (Bool-cases (status == 429)) [
    | inl limited ↦ rw (limited, check_response) (limited_marked b)
    | inr other ↦ elim (Bool-cases (sc.is_success status)) [
      | inl fine ↦ rw (other, check_response) (rw fine (omega arith, omega arith))
      | inr failing ↦
          rw (other, check_response) (rw failing (marked b b (omega arith, omega arith)))
    ]
  ]

  after_body-counts :
      (b : LoadBalancer F L) (body : Result Text Text)
      → let r = (after_body b url now body).0 in
        Counted b (after_body b url now body).1 url (as_success r, as_failure r)
  unfolding after_body count counter
  after_body-counts b (Result.err message) = marked b b (omega arith, omega arith)
  after_body-counts b (Result.ok bytes) = elim (Bool-cases (response_has_error bytes)) [
    | inl bad ↦ rw (bad, after_body) (omega arith, rw text_eq_refl refl)
    | inr good ↦ rw (good, after_body) (rw text_eq_refl refl, omega arith)
  ]

module _ {F L : Type 0} (fl : Float F) (sc : StatusCodes) where
  -- A forwarded request adds one to exactly one of the counters of its endpoint: to the successes
  -- when a body without an error comes back, and to the failures otherwise. This holds on every
  -- path: network errors, time-outs, rate limits, bad statuses, unreadable bodies.
  pub forward_request-counts :
      (b : LoadBalancer F L) (url method : Text) (elapsed_ms now : ℕ) (sent : Sent)
      (body : Result Text Text)
      → let done = forward_request fl sc b url method elapsed_ms now sent body in
        Counted b done.1 url (as_success done.0, as_failure done.0)
  unfolding forward_request after_send begin_request update_metrics count counter
  forward_request-counts b url method elapsed_ms now sent body =
      let b1 = update_metrics fl sc (begin_request b method) url (wrap_u64 elapsed_ms) sent in
      let checked = check_response fl sc b1 url now sent in
      let counted = check_response-counts fl sc url now b1 sent in
      elim (Option-cases checked.0) [
        | inl going_on ↦
            let c : Counted b1 checked.1 url (0, 0) =
              subst (λ o. Counted b1 checked.1 url (early_counts o)) going_on counted in
            let d = after_body-counts fl sc url now checked.1 body in
            rw (going_on, forward_request, after_send)
              (omega (arith, c.0, d.0), omega (arith, c.1, d.1))
        | inr (e, early) ↦
            let c : Counted b1 checked.1 url (0, 1) =
              subst (λ o. Counted b1 checked.1 url (early_counts o)) early counted in
            rw (early, forward_request, after_send) c
      ]

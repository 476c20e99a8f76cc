-- ===== src/Forwarder.antt =====
-- src/forwarder.rs: forwarding one request. The code waits twice, for the response and for its
-- body; between the waits it is one function of the balancer each, and other tasks may run at the
-- waits. What the network gives is an argument, and so are the status codes of the crate `http`.
pub mod Body
pub mod Counts
pub mod Kept
use azoth_balancer.Prelude.{
  ℕ, ◌+◌, ◌*◌, Bool, true, false, not, List, [], ◌∷◌, ◌++◌, Option, none, some, Text, codes,
  update_first, wrap_u64, Result, ◌==◌, if◌then◌else◌,
}
use azoth_balancer.Float.{Float}
use azoth_balancer.Metrics.{
  Registry, inc, observe, rpc_requests_total, rpc_requests_method, rpc_requests_succeeded,
  rpc_requests_failed, request_timeouts, upstream_rate_limited_total, request_latency_per_endpoint,
}
use azoth_balancer.Endpoint.{
  LoadBalancerError, rate_limited, upstream_error, ErrorKind, RequestOutcome, success, failure,
  update,
}
use azoth_balancer.Balancer.{LoadBalancer, has_url, mark_unhealthy, mark_rate_limited}
use Body.{response_has_error}

-- The methods of `StatusCode` that the code calls, and its `Display`.
pub record StatusCodes : Type 0 where
  pub is_success : ℕ → Bool
  pub is_server_error : ℕ → Bool
  pub is_client_error : ℕ → Bool
  pub show : ℕ → Text

-- The result of `send().await`: a response with its status, or an error, with whether it is a
-- timeout.
pub data Sent : Type 0 where
  response : ℕ → Sent
  send_error : Bool → Text → Sent

abbrev too_many_requests : ℕ
too_many_requests = 429

module _ (sc : StatusCodes) where
  -- The outcome that the metrics are updated with.
  unfoldable pub classify : (elapsed_ms timeout_secs : ℕ) → Sent → RequestOutcome
  classify elapsed_ms timeout_secs (response status) =
      if sc.is_success status
      then success elapsed_ms
      else (if status == too_many_requests
          then failure ErrorKind.rate_limit elapsed_ms
          else (if sc.is_server_error status
              then failure ErrorKind.http_5xx elapsed_ms
              else (if sc.is_client_error status
                  then failure ErrorKind.http_4xx elapsed_ms
                  else failure ErrorKind.connection_error elapsed_ms)))
  classify elapsed_ms timeout_secs (send_error true message) =
      failure ErrorKind.timeout (wrap_u64 (timeout_secs * 1000))
  classify elapsed_ms timeout_secs (send_error false message) =
      failure ErrorKind.connection_error elapsed_ms

module _ {F L : Type 0} where
  count : LoadBalancer F L → (Registry → Registry) → LoadBalancer F L
  count b f = record b { registry = f b.registry }

  -- Up to the first wait.
  unfoldable pub begin_request : LoadBalancer F L → Text → LoadBalancer F L
  unfolding count
  begin_request b method =
      count b (λ r. inc rpc_requests_method method ∷ inc rpc_requests_total [] ∷ r)

module _ {F L : Type 0} (fl : Float F) (sc : StatusCodes) where
  -- The metrics update.
  unfoldable pub update_metrics : LoadBalancer F L → Text → ℕ → Sent → LoadBalancer F L
  update_metrics b endpoint_url elapsed_ms sent = record b {
    endpoints =
        update_first (has_url endpoint_url)
          (λ e. record e {
            metrics =
                update fl e.metrics (classify sc elapsed_ms b.timeout_secs sent)
                  b.latency_smoothing_factor;
          })
          b.endpoints;
    registry = observe request_latency_per_endpoint endpoint_url ∷ b.registry;
  }

  -- The early returns, for an error of the network and by the status.
  unfoldable pub check_response :
      LoadBalancer F L → Text → ℕ → Sent → Option LoadBalancerError × LoadBalancer F L
  unfolding count
  check_response b endpoint_url now (send_error is_timeout message) =
      let timed = if is_timeout then count b (λ r. inc request_timeouts endpoint_url ∷ r) else b in
      (
        some (upstream_error message),
        count (mark_unhealthy timed endpoint_url now)
            (λ r. inc rpc_requests_failed endpoint_url ∷ r),
      )
  check_response b endpoint_url now (response status) =
      if status == too_many_requests
      then (
        some (rate_limited endpoint_url),
        mark_rate_limited
            (count b (λ r.
              inc rpc_requests_failed endpoint_url
              ∷ inc upstream_rate_limited_total endpoint_url
              ∷ r))
            endpoint_url now,
      )
      else (if not (sc.is_success status)
          then (
            some
                (upstream_error (codes "Upstream returned non-success status: " ++ sc.show status)),
            count (mark_unhealthy b endpoint_url now)
                (λ r. inc rpc_requests_failed endpoint_url ∷ r),
          )
          else (none, b))

  -- From the first wait to the second: `none` goes on to read the body.
  unfoldable pub after_send :
      LoadBalancer F L
      → Text
      → (elapsed_ms now : ℕ) → Sent
      → Option LoadBalancerError × LoadBalancer F L
  after_send b endpoint_url elapsed_ms now sent =
      check_response (update_metrics b endpoint_url (wrap_u64 elapsed_ms) sent) endpoint_url now
        sent

module _ {F L : Type 0} where
  -- From the second wait on.
  unfoldable pub after_body :
      LoadBalancer F L
      → Text
      → ℕ
      → Result Text Text
      → Result LoadBalancerError Text × LoadBalancer F L
  unfolding count
  after_body b endpoint_url now (Result.err message) = (
    Result.err (upstream_error message),
    count (mark_unhealthy b endpoint_url now) (λ r. inc rpc_requests_failed endpoint_url ∷ r),
  )
  after_body b endpoint_url now (Result.ok bytes) = (
    Result.ok bytes,
    count b (λ r.
        inc (if response_has_error bytes then rpc_requests_failed else rpc_requests_succeeded)
          endpoint_url
        ∷ r),
  )

module _ {F L : Type 0} (fl : Float F) (sc : StatusCodes) where
  -- `forward_request` with nothing else running at its waits.
  unfoldable pub forward_request :
      LoadBalancer F L
      → (endpoint_url method : Text) → (elapsed_ms now : ℕ) → Sent
      → Result Text Text
      → Result LoadBalancerError Text × LoadBalancer F L
  forward_request b endpoint_url method elapsed_ms now sent body =
      let (early, b') =
        after_send fl sc (begin_request b method) endpoint_url elapsed_ms now sent in
      elim early [ some e ↦ (Result.err e, b') | none ↦ after_body b' endpoint_url now body ]

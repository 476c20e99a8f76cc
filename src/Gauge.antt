-- ===== src/Gauge.antt =====
-- The gauge CONCURRENCY_ACTIVE_PERMITS: which operations leave it alone.
pub mod Requests
use azoth_balancer.Prelude.{
  ℕ, ◌+◌, ◌≡◌, refl, ◌∙◌, Bool, true, false, List, [], ◌∷◌, Option, none, some, Text, arith, Result,
  sort_by, is_empty, find, filter, ◌==◌, Option-cases, Bool-cases, inl, inr, if◌then◌else◌,
}
use azoth_balancer.Float.{Float}
use azoth_balancer.Limiter.{RateLimiter}
use azoth_balancer.Metrics.{
  Registry, inc, set, observe, gauge_moves, request_timeouts, endpoint_rate_limit_deferred,
  rpc_requests_failed, upstream_rate_limited_total, cooldown_seconds_gauge, health_check_latency,
}
use azoth_balancer.Endpoint.{RpcEndpoint, cooldown_remaining_secs}
use azoth_balancer.Cooldown.{trigger_cooldown, update_gauges}
use azoth_balancer.Strategy.{
  is_candidate, priority_cmp, reserve_tokens, try_candidates, try_tiers, select_best_endpoint,
}
use azoth_balancer.Balancer.{
  LoadBalancer, has_url, get_next_endpoint, mark_unhealthy, mark_rate_limited, put_into_cooldown,
  update_healthy_count, cooldown_tick,
}
use azoth_balancer.Forwarder.Body.{response_has_error}
use azoth_balancer.Forwarder.{
  StatusCodes, Sent, response, send_error, begin_request, update_metrics, check_response,
  after_send, after_body,
}
use azoth_balancer.Health.{failed_check, apply_update, apply_updates, finish_health_checks}
use azoth_balancer.Background.{Answer, observe_checks, perform_health_checks}

module _ {L : Type 0} (rl : RateLimiter L) (batch_size now : ℕ) where
  moves-try_candidates :
      (xs : List RpcEndpoint) (rank : ℕ) (limiters : List (Text × L)) (registry : Registry)
      → gauge_moves (try_candidates rl xs rank batch_size now limiters registry).registry
        ≡ gauge_moves registry
  unfolding try_candidates gauge_moves
  moves-try_candidates [] rank limiters registry = refl
  moves-try_candidates (ep ∷ rest) rank limiters registry = ground (
    arith,
    moves-try_candidates rest (rank + 1) (reserve_tokens rl limiters ep.url batch_size now).1
        (inc endpoint_rate_limit_deferred ep.url ∷ registry),
  )

  moves-try_tiers :
      (tiers : List (List RpcEndpoint × Bool)) (limiters : List (Text × L)) (registry : Registry)
      → gauge_moves (try_tiers rl tiers batch_size now limiters registry).registry
        ≡ gauge_moves registry
  unfolding try_tiers
  moves-try_tiers [] limiters registry = unfold gauge_moves in refl
  moves-try_tiers (([], use_cost) ∷ tiers) limiters registry =
      moves-try_tiers tiers limiters registry
  moves-try_tiers ((c ∷ cs, use_cost) ∷ tiers) limiters registry =
      let sorted = sort_by (priority_cmp use_cost) (c ∷ cs) in
      let tried = try_candidates rl sorted 0 batch_size now limiters registry in
      ground (
        arith,
        moves-try_candidates sorted 0 limiters registry,
        moves-try_tiers tiers tried.limiters tried.registry,
      )

  moves-select :
      (endpoints : List RpcEndpoint) (limiters : List (Text × L)) (registry : Registry)
      → gauge_moves (select_best_endpoint rl endpoints batch_size now limiters registry).registry
        ≡ gauge_moves registry
  unfolding select_best_endpoint
  moves-select endpoints limiters registry =
      elim (Bool-cases (is_empty (filter (is_candidate now) endpoints))) [
        | inl e ↦ rw e refl
        | inr e ↦ rw e (moves-try_tiers _ limiters registry)
      ]

pub moves-get_next_endpoint :
    {F L : Type 0} (fl : Float F) (rl : RateLimiter L) (b : LoadBalancer F L)
    (batch_size now unix_secs : ℕ)
    → gauge_moves (get_next_endpoint fl rl b batch_size now unix_secs).1.registry
      ≡ gauge_moves b.registry
unfolding get_next_endpoint
moves-get_next_endpoint fl rl b batch_size now unix_secs =
    let quiet = moves-select rl batch_size now b.endpoints b.rate_limiters b.registry in
    elim (Option-cases
      (select_best_endpoint rl b.endpoints batch_size now b.rate_limiters b.registry).chosen) [
        | inl nothing ↦ rw (nothing, get_next_endpoint) quiet
        | inr (ep, chosen) ↦ rw (chosen, get_next_endpoint) quiet
      ]

module _ {F L : Type 0} (b : LoadBalancer F L) (url : Text) (now : ℕ) where
  moves-put_into_cooldown :
      (ep : RpcEndpoint)
      → gauge_moves (put_into_cooldown b url now ep).registry ≡ gauge_moves b.registry
  unfolding put_into_cooldown trigger_cooldown gauge_moves
  moves-put_into_cooldown ep = refl

  moves-mark_unhealthy : gauge_moves (mark_unhealthy b url now).registry ≡ gauge_moves b.registry
  unfolding mark_unhealthy
  moves-mark_unhealthy = elim (Option-cases (find (has_url url) b.endpoints)) [
    | inl missing ↦ rw (missing, mark_unhealthy) refl
    | inr (ep, h) ↦ elim (Bool-cases ep.healthy) [
      | inl up ↦
          rw (h, mark_unhealthy) (rw up (moves-put_into_cooldown (record ep { healthy = false })))
      | inr down ↦ rw (h, mark_unhealthy) (rw down refl)
    ]
  ]

  moves-mark_rate_limited :
      gauge_moves (mark_rate_limited b url now).registry ≡ gauge_moves b.registry
  unfolding mark_rate_limited
  moves-mark_rate_limited = elim (Option-cases (find (has_url url) b.endpoints)) [
    | inl missing ↦ rw (missing, mark_rate_limited) refl
    | inr (ep, h) ↦ rw (h, mark_rate_limited) (moves-put_into_cooldown ep)
  ]

module _ {F L : Type 0} (fl : Float F) (sc : StatusCodes) (url : Text) (now : ℕ) where
  moves-check_response :
      (b : LoadBalancer F L) (sent : Sent)
      → gauge_moves (check_response fl sc b url now sent).1.registry ≡ gauge_moves b.registry
  unfolding check_response gauge_moves
  moves-check_response b (send_error true message) =
      moves-mark_unhealthy (record b { registry = inc request_timeouts url ∷ b.registry }) url now
  moves-check_response b (send_error false message) = moves-mark_unhealthy b url now
  moves-check_response b (response status) = elim (Bool-cases (status == 429)) [
    | inl limited ↦
        rw (limited, check_response)
          (moves-mark_rate_limited
            (record b {
              registry =
                  inc rpc_requests_failed url ∷ inc upstream_rate_limited_total url ∷ b.registry;
            })
            url now)
    | inr other ↦ elim (Bool-cases (sc.is_success status)) [
      | inl fine ↦ rw (other, check_response) (rw fine refl)
      | inr failing ↦ rw (other, check_response) (rw failing (moves-mark_unhealthy b url now))
    ]
  ]

  pub moves-after_send :
      (b : LoadBalancer F L) (elapsed_ms : ℕ) (sent : Sent)
      → gauge_moves (after_send fl sc b url elapsed_ms now sent).1.registry ≡ gauge_moves b.registry
  unfolding after_send update_metrics gauge_moves
  moves-after_send b elapsed_ms sent = moves-check_response (update_metrics fl sc b url _ sent) sent

pub moves-after_body :
    {F L : Type 0} (b : LoadBalancer F L) (url : Text) (now : ℕ) (body : Result Text Text)
    → gauge_moves (after_body b url now body).1.registry ≡ gauge_moves b.registry
unfolding after_body gauge_moves
moves-after_body b url now (Result.err message) = moves-mark_unhealthy b url now
moves-after_body b url now (Result.ok bytes) = elim (Bool-cases (response_has_error bytes)) [
  | inl error ↦ rw error refl
  | inr fine ↦ rw fine refl
]

module _ {F L : Type 0} (fl : Float F) (timeout_secs now : ℕ) where
  moves-failed_check :
      (b : LoadBalancer F L) (ep : RpcEndpoint)
      → gauge_moves (failed_check fl b timeout_secs now ep).1 ≡ gauge_moves b.registry
  unfolding failed_check trigger_cooldown gauge_moves
  moves-failed_check b ep = elim (Bool-cases ep.healthy) [
    | inl up ↦ rw (up, failed_check) refl
    | inr down ↦ rw (down, failed_check) refl
  ]

  moves-apply_update :
      (b : LoadBalancer F L) (url : Text) (is_healthy : Bool)
      → gauge_moves (apply_update fl b timeout_secs now url is_healthy).registry
        ≡ gauge_moves b.registry
  unfolding apply_update
  moves-apply_update b url is_healthy = elim (Option-cases (find (has_url url) b.endpoints)) [
    | inl missing ↦ rw (missing, apply_update) refl
    | inr (ep, h) ↦ elim (Bool-cases is_healthy) [
      | inl good ↦ rw (h, apply_update) (rw good refl)
      | inr bad ↦ rw (h, apply_update) (rw bad (moves-failed_check b ep))
    ]
  ]

  moves-apply_updates :
      (b : LoadBalancer F L) (updates : List (Text × Bool))
      → gauge_moves (apply_updates fl b timeout_secs now updates).registry ≡ gauge_moves b.registry
  unfolding apply_updates
  moves-apply_updates b [] = refl
  moves-apply_updates b ((url, is_healthy) ∷ updates) =
      moves-apply_updates (apply_update fl b timeout_secs now url is_healthy) updates
      ∙ moves-apply_update b url is_healthy

moves-observe_checks :
    (answers : List Answer) (registry : Registry)
    → gauge_moves (observe_checks answers registry) ≡ gauge_moves registry
unfolding observe_checks
moves-observe_checks [] registry = refl
moves-observe_checks ((url, sent) ∷ answers) registry =
    moves-observe_checks answers (observe health_check_latency url ∷ registry)
    ∙ (unfold gauge_moves in refl)

pub moves-perform_health_checks :
    {F L : Type 0} (fl : Float F) (sc : StatusCodes) (b : LoadBalancer F L) (timeout_secs now : ℕ)
    (answers : List Answer)
    → gauge_moves (perform_health_checks fl sc b timeout_secs now answers).registry
      ≡ gauge_moves b.registry
unfolding perform_health_checks finish_health_checks update_healthy_count gauge_moves
moves-perform_health_checks fl sc b timeout_secs now answers =
    moves-apply_updates fl timeout_secs now
      (record b { registry = observe_checks answers b.registry }) _
    ∙ moves-observe_checks answers b.registry

moves-update_gauges :
    (eps : List RpcEndpoint) (now : ℕ) (registry : Registry)
    → gauge_moves (update_gauges eps now registry) ≡ gauge_moves registry
unfolding update_gauges
moves-update_gauges [] now registry = refl
moves-update_gauges (ep ∷ eps) now registry =
    moves-update_gauges eps now
      (set cooldown_seconds_gauge ep.url (cooldown_remaining_secs ep now) ∷ registry)
    ∙ (unfold gauge_moves in refl)

pub moves-cooldown_tick :
    {F L : Type 0} (b : LoadBalancer F L) (now : ℕ)
    → gauge_moves (cooldown_tick b now).registry ≡ gauge_moves b.registry
unfolding cooldown_tick update_healthy_count gauge_moves
moves-cooldown_tick b now = moves-update_gauges b.endpoints now b.registry

-- ===== src/Server/Handled.antt =====
-- What `handle_rpc` keeps from its start to its end, on every path.
use azoth_balancer.Prelude.{
  ℕ, ◌+◌, Bool, [], ◌∷◌, ◌≡◌, ◌∙◌, refl, ap, true, false, Text, Option-cases, Result, inl, inr,
}
use azoth_balancer.Float.{Float}
use azoth_balancer.Limiter.{RateLimiter, RefusalKeeps}
use azoth_balancer.Metrics.{gauge_moves, inc, concurrency_active_permits}
use azoth_balancer.Balancer.{LoadBalancer, get_next_endpoint}
use azoth_balancer.Balancer.Invariant.{Inv}
use azoth_balancer.Balancer.Kept.{get_next_endpoint-Inv}
use azoth_balancer.Forwarder.{StatusCodes, Sent, begin_request, after_send, forward_request}
use azoth_balancer.Forwarder.Kept.{counted-Inv, forward_request-Inv}
use azoth_balancer.Gauge.{moves-get_next_endpoint, moves-after_send, moves-after_body}
use azoth_balancer.Server.{
  Json, Response, Environment, method_label, admit, serve, after_checks, handle_rpc,
}

module _ {F L : Type 0} (fl : Float F) (sc : StatusCodes) where
  moves-forward_request :
      (b : LoadBalancer F L) (url method : Text) (elapsed_ms now : ℕ) (sent : Sent)
      (body : Result Text Text)
      → gauge_moves (forward_request fl sc b url method elapsed_ms now sent body).1.registry
        ≡ gauge_moves b.registry
  unfolding forward_request begin_request gauge_moves
  moves-forward_request b url method elapsed_ms now sent body =
      let begun = begin_request b method in
      let sent_moves = moves-after_send fl sc url now begun elapsed_ms sent in
      elim (Option-cases (after_send fl sc begun url elapsed_ms now sent).0) [
        | inl going_on ↦
            rw (going_on, forward_request) (moves-after_body _ url now body ∙ sent_moves)
        | inr (e, early) ↦ rw (early, forward_request) sent_moves
      ]

-- The invariant, and a gauge of active requests that moved as often as before.
abbrev Keeps : {F L : Type 0} → LoadBalancer F L → LoadBalancer F L → Type 0
Keeps b b' = Inv b' × (gauge_moves b'.registry ≡ gauge_moves b.registry)

module _ {F L J : Type 0} (fl : Float F) (rl : RateLimiter L) (keeps : RefusalKeeps rl)
    (sc : StatusCodes) (json : Json J) where
  serve-Keeps :
      (b : LoadBalancer F L) (env : Environment) (payload : J) (is_batch : Bool) (batch_size : ℕ)
      → Inv b
      → Keeps b (serve fl rl sc json b env payload is_batch batch_size).1
  unfolding serve
  serve-Keeps b env payload is_batch batch_size inv =
      let b' = (get_next_endpoint fl rl b batch_size env.now env.unix_secs).1 in
      let inv' = get_next_endpoint-Inv fl rl keeps b inv batch_size env.now env.unix_secs in
      let quiet = moves-get_next_endpoint fl rl b batch_size env.now env.unix_secs in
      let method = method_label json payload is_batch in
      elim (Option-cases (get_next_endpoint fl rl b batch_size env.now env.unix_secs).0) [
        | inl nothing ↦ rw (nothing, serve) (inv', quiet)
        | inr (url, chosen) ↦
            rw (chosen, serve)
              (
                forward_request-Inv fl sc b' url method env.elapsed_ms env.now env.sent env.body
                    inv',
                moves-forward_request fl sc b' url method env.elapsed_ms env.now env.sent env.body
                    ∙ quiet,
              )
      ]

  after_checks-Keeps :
      (b : LoadBalancer F L) (env : Environment)
      (checked : Result (Response × Bool) (J × (Bool × ℕ)))
      → Inv b
      → Keeps b (after_checks fl rl sc json b env checked).1
  unfolding after_checks gauge_moves
  after_checks-Keeps b env (Result.err (refused, true)) inv = (counted-Inv b _ inv, refl)
  after_checks-Keeps b env (Result.err (refused, false)) inv = (inv, refl)
  after_checks-Keeps b env (Result.ok (payload, (is_batch, batch_size))) inv =
      serve-Keeps b env payload is_batch batch_size inv

  -- With a limiter that takes nothing on a refusal, a request that is handled from its arrival to
  -- its end leaves the invariant, and moved the gauge of active requests up once and down once,
  -- whether it was refused, found no endpoint, failed or was answered.
  pub handle_rpc-Inv :
      (b : LoadBalancer F L) (env : Environment) (body : Text)
      → Inv b
      → Inv (handle_rpc fl rl sc json b env body).1
        × (gauge_moves (handle_rpc fl rl sc json b env body).1.registry
            ≡ ((gauge_moves b.registry).0 + 1, (gauge_moves b.registry).1 + 1))
  unfolding handle_rpc gauge_moves
  handle_rpc-Inv b env body inv =
      let entered = record b { registry = inc concurrency_active_permits [] ∷ b.registry } in
      let (inv', quiet) =
        after_checks-Keeps entered env (admit json b.max_batch_size env.permit body)
          (counted-Inv b _ inv) in
      (counted-Inv _ _ inv', ap (λ m. (m.0, m.1 + 1)) quiet)

-- ===== src/Refinement/Requests.antt =====
-- What the turns of a request and the background tasks do to the view.
use azoth_balancer.Prelude.{
  ℕ, suc, zero, ◌≡◌, refl, ap, ◌∙◌, Bool, true, false, not, ◌&&◌, List, Option, none, some, Text,
  Result, ◌==◌, map-update_first, Bool-cases, inl, inr, if◌then◌else◌,
}
use azoth_balancer.Float.{Float}
use azoth_balancer.Limiter.{RateLimiter}
use azoth_balancer.Endpoint.{LoadBalancerError}
use azoth_balancer.Balancer.{LoadBalancer}
use azoth_balancer.Forwarder.{
  StatusCodes, Sent, response, send_error, begin_request, update_metrics, check_response,
  after_send, after_body,
}
use azoth_balancer.Background.{
  Task, live, exited, panicked, aborted, Branch, on_shutdown, on_tick, no_branch, Checker, waiting,
  checking, Answer, check_results, perform_health_checks, end_round, updater_branch, poll_updater,
  select,
}
use azoth_balancer.Server.{Json, Response, check_body}
use azoth_balancer.Server.Request.{
  connection_lost, dropped, give_up, drop_timer, Request, acquiring, sending, reading, answered,
  Input, permit_free, response_in, body_in, drop_guard, count_refusal, finish, after_body_check,
  arrive, send_to, after_parse, after_response, acquire, advance,
}
use azoth_balancer.Refinement.{seen, view, Act, silent, fail, check, act}
use azoth_balancer.Refinement.Operations.{
  view-mark_unhealthy, view-mark_rate_limited, view-finish_health_checks, view-cooldown_tick,
  view-get_next_endpoint,
}

-- A response that says that the endpoint is down: none at all, or one with a status that is neither
-- a success nor 429.
unfoldable pub says_down : StatusCodes → Sent → Bool
says_down sc (send_error is_timeout message) = true
says_down sc (response status) = not (status == 429) && not (sc.is_success status)

-- The act of a request, of its handler's turn on an input.
unfoldable pub request_act : {J : Type 0} → StatusCodes → Request J → Input → Act
request_act sc (sending payload is_batch url) (response_in elapsed_ms now sent) =
    if says_down sc sent then fail url else silent
request_act sc (reading payload is_batch url) (body_in now (Result.err message)) = fail url
request_act sc request input = silent

module _ {F L : Type 0} (fl : Float F) (sc : StatusCodes) (url : Text) (now : ℕ) where
  view-check_response :
      (b : LoadBalancer F L) (sent : Sent)
      → view (check_response fl sc b url now sent).1.endpoints
        ≡ act (if says_down sc sent then fail url else silent) (view b.endpoints)
  unfolding check_response says_down act
  view-check_response b (send_error true message) = view-mark_unhealthy _ url now
  view-check_response b (send_error false message) = view-mark_unhealthy b url now
  view-check_response b (response status) = elim (Bool-cases (status == 429)) [
    | inl limited ↦ rw (limited, check_response) (view-mark_rate_limited _ url now)
    | inr other ↦ elim (Bool-cases (sc.is_success status)) [
      | inl fine ↦ rw (other, check_response) (rw fine refl)
      | inr failing ↦ rw (other, check_response) (rw failing (view-mark_unhealthy b url now))
    ]
  ]

  pub view-after_send :
      (b : LoadBalancer F L) (elapsed_ms : ℕ) (sent : Sent)
      → view (after_send fl sc b url elapsed_ms now sent).1.endpoints
        ≡ act (if says_down sc sent then fail url else silent) (view b.endpoints)
  unfolding after_send update_metrics
  view-after_send b elapsed_ms sent =
      view-check_response (update_metrics fl sc b url _ sent) sent
      ∙ ap (act (if says_down sc sent then fail url else silent))
          (map-update_first seen _ _ b.endpoints (λ x. refl))

module _ {F L : Type 0} where
  view-guards :
      (b : LoadBalancer F L) (counted : Bool)
      → view (drop_guard (count_refusal b counted)).endpoints ≡ view b.endpoints
  unfolding drop_guard count_refusal
  view-guards b true = refl
  view-guards b false = refl

  view-after_body_check :
      (J : Type 0) (b : LoadBalancer F L) (body : Text) (early : Option (Response × Bool))
      → view (after_body_check {J = J} b body early).1.endpoints ≡ view b.endpoints
  unfolding after_body_check
  view-after_body_check J b body none = refl
  view-after_body_check J b body (some (refused, counted)) = view-guards b counted

  pub view-arrive :
      (J : Type 0) (b : LoadBalancer F L) (body : Text)
      → view (arrive {J = J} b body).1.endpoints ≡ view b.endpoints
  unfolding arrive
  view-arrive J b body = view-after_body_check J _ body (check_body b.max_batch_size body)

module _ {F L J : Type 0} (fl : Float F) (rl : RateLimiter L) (sc : StatusCodes)
    (json : Json J) where
  view-send_to :
      (b : LoadBalancer F L) (permits : ℕ) (payload : J) (is_batch : Bool) (selected : Option Text)
      → view (send_to fl rl sc json b permits payload is_batch selected).balancer.endpoints
        ≡ view b.endpoints
  unfolding send_to finish drop_guard begin_request
  view-send_to b permits payload is_batch none = refl
  view-send_to b permits payload is_batch (some url) = refl

  view-after_parse :
      (b : LoadBalancer F L) (permits now unix_secs : ℕ)
      (parsed : Result (Response × Bool) (J × (Bool × ℕ)))
      → view (after_parse fl rl sc json b permits now unix_secs parsed).balancer.endpoints
        ≡ view b.endpoints
  unfolding after_parse finish
  view-after_parse b permits now unix_secs (Result.err (refused, counted)) = view-guards b counted
  view-after_parse b permits now unix_secs (Result.ok (payload, (is_batch, batch_size))) =
      view-send_to _ permits payload is_batch _
      ∙ view-get_next_endpoint fl rl b batch_size now unix_secs

  view-acquire :
      (b : LoadBalancer F L) (permits now unix_secs : ℕ) (body : Text)
      → view (acquire fl rl sc json b permits now unix_secs body).balancer.endpoints
        ≡ view b.endpoints
  unfolding acquire
  view-acquire b zero now unix_secs body = refl
  view-acquire b (suc permits) now unix_secs body = view-after_parse b permits now unix_secs _

  view-after_response :
      (b : LoadBalancer F L) (permits : ℕ) (payload : J) (is_batch : Bool) (url : Text)
      (early : Option LoadBalancerError)
      → view (after_response fl rl sc json b permits payload is_batch url early).balancer.endpoints
        ≡ view b.endpoints
  unfolding after_response finish drop_guard
  view-after_response b permits payload is_batch url none = refl
  view-after_response b permits payload is_batch url (some e) = refl

  -- A turn of a request writes the health of its own endpoint alone, and only to say that it is
  -- down.
  pub view-advance :
      (b : LoadBalancer F L) (permits : ℕ) (request : Request J) (input : Input)
      → view (advance fl rl sc json b permits request input).balancer.endpoints
        ≡ act (request_act sc request input) (view b.endpoints)
  unfolding advance request_act finish give_up drop_timer drop_guard after_body act
  view-advance b permits (acquiring body) (permit_free now unix_secs) =
      view-acquire b permits now unix_secs body
  view-advance b permits (sending payload is_batch url) (response_in elapsed_ms now sent) =
      view-after_response _ permits payload is_batch url _
      ∙ view-after_send fl sc url now b elapsed_ms sent
  view-advance b permits (reading payload is_batch url) (body_in now (Result.err message)) =
      view-mark_unhealthy b url now
  view-advance b permits (reading payload is_batch url) (body_in now (Result.ok bytes)) = refl
  view-advance b permits (acquiring body) (response_in elapsed_ms now sent) = refl
  view-advance b permits (acquiring body) (body_in now bytes) = refl
  view-advance b permits (sending payload is_batch url) (permit_free now unix_secs) = refl
  view-advance b permits (sending payload is_batch url) (body_in now bytes) = refl
  view-advance b permits (reading payload is_batch url) (permit_free now unix_secs) = refl
  view-advance b permits (reading payload is_batch url) (response_in elapsed_ms now sent) = refl
  view-advance b permits (acquiring body) connection_lost = refl
  view-advance b permits (sending payload is_batch url) connection_lost = refl
  view-advance b permits (reading payload is_batch url) connection_lost = refl
  view-advance b permits (answered reply) input = refl
  view-advance b permits dropped input = refl

-- The act of the end of a round.
unfoldable pub round_act : {T : Type 0} → StatusCodes → List Answer → Task (Checker T) → Act
round_act sc answers (live (checking current_interval ticker timeout_secs)) =
    check (check_results sc answers)
round_act sc answers task = silent

pub view-end_round :
    {F L T : Type 0} (fl : Float F) (sc : StatusCodes) (b : LoadBalancer F L) (now : ℕ)
    (answers : List Answer) (task : Task (Checker T))
    → view (end_round fl sc b now answers task).1.endpoints
      ≡ act (round_act sc answers task) (view b.endpoints)
unfolding end_round round_act perform_health_checks act
view-end_round fl sc b now answers (live (checking current_interval ticker timeout_secs)) =
    view-finish_health_checks fl timeout_secs now _ (check_results sc answers)
view-end_round fl sc b now answers (live (waiting current_interval ticker)) = refl
view-end_round fl sc b now answers exited = refl
view-end_round fl sc b now answers panicked = refl
view-end_round fl sc b now answers aborted = refl

module _ {F L : Type 0} (b : LoadBalancer F L) (now : ℕ) where
  view-updater_branch :
      (branch : Branch) → view (updater_branch b now branch).1.endpoints ≡ view b.endpoints
  unfolding updater_branch
  view-updater_branch on_shutdown = refl
  view-updater_branch on_tick = view-cooldown_tick b now
  view-updater_branch no_branch = refl

  pub view-poll_updater :
      (signalled ticked : Bool) (task : Task (Unit {0}))
      → view (poll_updater b signalled ticked now task).1.endpoints ≡ view b.endpoints
  unfolding poll_updater
  view-poll_updater signalled ticked (live s) = view-updater_branch (select signalled ticked)
  view-poll_updater signalled ticked exited = refl
  view-poll_updater signalled ticked panicked = refl
  view-poll_updater signalled ticked aborted = refl

-- ===== src/Server/Request/Kept.antt =====
-- The turns of a request and the invariant of the balancer.
use azoth_balancer.Prelude.{ℕ, suc, zero, refl, Bool, true, false, Option, none, some, Text, Result}
use azoth_balancer.Float.{Float}
use azoth_balancer.Limiter.{RateLimiter, RefusalKeeps}
use azoth_balancer.Endpoint.{LoadBalancerError}
use azoth_balancer.Balancer.{LoadBalancer}
use azoth_balancer.Balancer.Invariant.{Inv, Inv-endpoints}
use azoth_balancer.Balancer.Kept.{get_next_endpoint-Inv}
use azoth_balancer.Forwarder.{StatusCodes}
use azoth_balancer.Forwarder.Kept.{begin_request-Inv, after_send-Inv, after_body-Inv}
use azoth_balancer.Server.{Json, Response, check_body}
use azoth_balancer.Server.Request.{
  connection_lost, dropped, give_up, drop_timer, Request, acquiring, sending, reading, answered,
  Input, permit_free, response_in, body_in, drop_guard, count_refusal, finish, after_body_check,
  arrive, send_to, after_parse, after_response, acquire, advance,
}

module _ {F L : Type 0} where
  drop_guard-Inv : (b : LoadBalancer F L) → Inv b → Inv (drop_guard b)
  unfolding drop_guard
  drop_guard-Inv b inv = Inv-endpoints b _ _ refl inv

  count_refusal-Inv :
      (b : LoadBalancer F L) (counted : Bool) → Inv b → Inv (count_refusal b counted)
  unfolding count_refusal
  count_refusal-Inv b true inv = Inv-endpoints b _ _ refl inv
  count_refusal-Inv b false inv = inv

module _ {F L : Type 0} (J : Type 0) where
  after_body_check-Inv :
      (b : LoadBalancer F L) (body : Text) (early : Option (Response × Bool))
      → Inv b
      → Inv (after_body_check {J = J} b body early).1
  unfolding after_body_check
  after_body_check-Inv b body none inv = inv
  after_body_check-Inv b body (some (refused, counted)) inv =
      drop_guard-Inv _ (count_refusal-Inv b counted inv)

  pub arrive-Inv : (b : LoadBalancer F L) (body : Text) → Inv b → Inv (arrive {J = J} b body).1
  unfolding arrive
  arrive-Inv b body inv =
      after_body_check-Inv _ body (check_body b.max_batch_size body) (Inv-endpoints b _ _ refl inv)

module _ {F L J : Type 0} (fl : Float F) (rl : RateLimiter L) (keeps : RefusalKeeps rl)
    (sc : StatusCodes) (json : Json J) where
  send_to-Inv :
      (b : LoadBalancer F L) (permits : ℕ) (payload : J) (is_batch : Bool) (selected : Option Text)
      → Inv b
      → Inv (send_to fl rl sc json b permits payload is_batch selected).balancer
  unfolding send_to finish
  send_to-Inv b permits payload is_batch none inv = drop_guard-Inv b inv
  send_to-Inv b permits payload is_batch (some url) inv = begin_request-Inv b _ inv

  after_parse-Inv :
      (b : LoadBalancer F L) (permits now unix_secs : ℕ)
      (parsed : Result (Response × Bool) (J × (Bool × ℕ)))
      → Inv b
      → Inv (after_parse fl rl sc json b permits now unix_secs parsed).balancer
  unfolding after_parse finish
  after_parse-Inv b permits now unix_secs (Result.err (refused, counted)) inv =
      drop_guard-Inv _ (count_refusal-Inv b counted inv)
  after_parse-Inv b permits now unix_secs (Result.ok (payload, (is_batch, batch_size))) inv =
      send_to-Inv _ permits payload is_batch _
        (get_next_endpoint-Inv fl rl keeps b inv batch_size now unix_secs)

  after_response-Inv :
      (b : LoadBalancer F L) (permits : ℕ) (payload : J) (is_batch : Bool) (url : Text)
      (early : Option LoadBalancerError)
      → Inv b
      → Inv (after_response fl rl sc json b permits payload is_batch url early).balancer
  unfolding after_response finish
  after_response-Inv b permits payload is_batch url none inv = inv
  after_response-Inv b permits payload is_batch url (some e) inv = drop_guard-Inv b inv

  acquire-Inv :
      (b : LoadBalancer F L) (permits now unix_secs : ℕ) (body : Text)
      → Inv b
      → Inv (acquire fl rl sc json b permits now unix_secs body).balancer
  unfolding acquire
  acquire-Inv b zero now unix_secs body inv = inv
  acquire-Inv b (suc permits) now unix_secs body inv = after_parse-Inv b permits now unix_secs _ inv

  pub advance-Inv :
      (b : LoadBalancer F L) (permits : ℕ) (request : Request J) (input : Input)
      → Inv b
      → Inv (advance fl rl sc json b permits request input).balancer
  unfolding advance finish give_up drop_timer
  advance-Inv b permits (acquiring body) (permit_free now unix_secs) inv =
      acquire-Inv b permits now unix_secs body inv
  advance-Inv b permits (sending payload is_batch url) (response_in elapsed_ms now sent) inv =
      after_response-Inv _ permits payload is_batch url _
        (after_send-Inv fl sc url now b elapsed_ms sent inv)
  advance-Inv b permits (reading payload is_batch url) (body_in now body) inv =
      drop_guard-Inv _ (after_body-Inv url now b body inv)
  advance-Inv b permits (acquiring body) (response_in elapsed_ms now sent) inv = inv
  advance-Inv b permits (acquiring body) (body_in now bytes) inv = inv
  advance-Inv b permits (sending payload is_batch url) (permit_free now unix_secs) inv = inv
  advance-Inv b permits (sending payload is_batch url) (body_in now bytes) inv = inv
  advance-Inv b permits (reading payload is_batch url) (permit_free now unix_secs) inv = inv
  advance-Inv b permits (reading payload is_batch url) (response_in elapsed_ms now sent) inv = inv
  advance-Inv b permits (acquiring body) connection_lost inv = drop_guard-Inv b inv
  advance-Inv b permits (sending payload is_batch url) connection_lost inv =
      drop_guard-Inv _ (Inv-endpoints b _ _ refl inv)
  advance-Inv b permits (reading payload is_batch url) connection_lost inv = drop_guard-Inv b inv
  advance-Inv b permits (answered response) input inv = inv
  advance-Inv b permits dropped input inv = inv

-- ===== src/Server/Request/Permits.antt =====
-- The permit of a request: taken when it goes on, given back when it ends.
use azoth_balancer.Prelude.{
  ℕ, suc, zero, ◌+◌, ◌≡◌, refl, arith, Bool, Option, none, some, Text, Result,
}
use azoth_balancer.Float.{Float}
use azoth_balancer.Limiter.{RateLimiter}
use azoth_balancer.Endpoint.{LoadBalancerError}
use azoth_balancer.Balancer.{LoadBalancer}
use azoth_balancer.Forwarder.{StatusCodes}
use azoth_balancer.Server.{Json, Response, check_body, check_parsed}
use azoth_balancer.Server.Request.{
  connection_lost, dropped, give_up, Turn, Request, acquiring, sending, reading, answered, Input,
  permit_free, response_in, body_in, finish, after_body_check, arrive, send_to, after_parse,
  after_response, acquire, advance,
}

-- The number of permits that a request holds.
abbrev pub held : {J : Type 0} → Request J → ℕ
held (acquiring body) = 0
held (sending payload is_batch url) = 1
held (reading payload is_batch url) = 1
held (answered response) = 0
held dropped = 0

module _ {F L : Type 0} (J : Type 0) where
  after_body_check-held :
      (b : LoadBalancer F L) (body : Text) (early : Option (Response × Bool))
      → held (after_body_check {J = J} b body early).0 ≡ 0
  unfolding after_body_check
  after_body_check-held b body none = refl
  after_body_check-held b body (some (refused, counted)) = refl

  pub arrive-held : (b : LoadBalancer F L) (body : Text) → held (arrive {J = J} b body).0 ≡ 0
  unfolding arrive
  arrive-held b body = after_body_check-held _ body (check_body b.max_batch_size body)

-- The free permits and that of the request.
abbrev pub balance : {F L J : Type 0} → Turn F L J → ℕ
balance t = t.permits + held t.request

module _ {F L J : Type 0} (fl : Float F) (rl : RateLimiter L) (sc : StatusCodes)
    (json : Json J) where
  send_to-balance :
      (b : LoadBalancer F L) (permits : ℕ) (payload : J) (is_batch : Bool) (selected : Option Text)
      → balance (send_to fl rl sc json b permits payload is_batch selected) ≡ permits + 1
  unfolding send_to finish
  send_to-balance b permits payload is_batch none = omega arith
  send_to-balance b permits payload is_batch (some url) = refl

  after_parse-balance :
      (b : LoadBalancer F L) (permits now unix_secs : ℕ)
      (parsed : Result (Response × Bool) (J × (Bool × ℕ)))
      → balance (after_parse fl rl sc json b permits now unix_secs parsed) ≡ permits + 1
  unfolding after_parse finish
  after_parse-balance b permits now unix_secs (Result.err (refused, counted)) = omega arith
  after_parse-balance b permits now unix_secs (Result.ok (payload, (is_batch, batch_size))) =
      send_to-balance _ permits payload is_batch _

  after_response-balance :
      (b : LoadBalancer F L) (permits : ℕ) (payload : J) (is_batch : Bool) (url : Text)
      (early : Option LoadBalancerError)
      → balance (after_response fl rl sc json b permits payload is_batch url early) ≡ permits + 1
  unfolding after_response finish
  after_response-balance b permits payload is_batch url none = refl
  after_response-balance b permits payload is_batch url (some e) = omega arith

  acquire-balance :
      (b : LoadBalancer F L) (permits now unix_secs : ℕ) (body : Text)
      → balance (acquire fl rl sc json b permits now unix_secs body) ≡ permits
  unfolding acquire
  acquire-balance b zero now unix_secs body = refl
  acquire-balance b (suc permits) now unix_secs body = omega (
    arith,
    after_parse-balance b permits now unix_secs
        (check_parsed json b.max_batch_size (json.from_slice body)),
  )

  pub advance-balance :
      (b : LoadBalancer F L) (permits : ℕ) (request : Request J) (input : Input)
      → balance (advance fl rl sc json b permits request input) ≡ permits + held request
  unfolding advance finish give_up
  advance-balance b permits (acquiring body) (permit_free now unix_secs) =
      omega (arith, acquire-balance b permits now unix_secs body)
  advance-balance b permits (sending payload is_batch url) (response_in elapsed_ms now sent) =
      after_response-balance _ permits payload is_batch url _
  advance-balance b permits (reading payload is_batch url) (body_in now body) = omega arith
  advance-balance b permits (acquiring body) (response_in elapsed_ms now sent) = refl
  advance-balance b permits (acquiring body) (body_in now bytes) = refl
  advance-balance b permits (sending payload is_batch url) (permit_free now unix_secs) = refl
  advance-balance b permits (sending payload is_batch url) (body_in now bytes) = refl
  advance-balance b permits (reading payload is_batch url) (permit_free now unix_secs) = refl
  advance-balance b permits (reading payload is_batch url) (response_in elapsed_ms now sent) = refl
  advance-balance b permits (acquiring body) connection_lost = refl
  advance-balance b permits (sending payload is_batch url) connection_lost = omega arith
  advance-balance b permits (reading payload is_batch url) connection_lost = omega arith
  advance-balance b permits (answered response) input = refl
  advance-balance b permits dropped input = refl

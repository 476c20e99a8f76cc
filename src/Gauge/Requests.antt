-- ===== src/Gauge/Requests.antt =====
-- The gauge over the turns of a request: up at its arrival, down at its answer.
use azoth_balancer.Prelude.{
  ℕ, suc, zero, ◌+◌, ◌≡◌, refl, ap, ◌∙◌, arith, Bool, true, false, Option, none, some, Text, Result,
}
use azoth_balancer.Float.{Float}
use azoth_balancer.Limiter.{RateLimiter}
use azoth_balancer.Metrics.{gauge_moves}
use azoth_balancer.Endpoint.{LoadBalancerError}
use azoth_balancer.Balancer.{LoadBalancer}
use azoth_balancer.Forwarder.{StatusCodes, begin_request}
use azoth_balancer.Gauge.{moves-get_next_endpoint, moves-after_send, moves-after_body}
use azoth_balancer.Server.{Json, Response, check_body}
use azoth_balancer.Server.Request.{
  connection_lost, dropped, give_up, drop_timer, Turn, Request, acquiring, sending, reading,
  answered, Input, permit_free, response_in, body_in, drop_guard, count_refusal, finish,
  after_body_check, arrive, send_to, after_parse, after_response, acquire, advance,
}

-- Whether the handler of a request still waits, as a number.
abbrev pub pending : {J : Type 0} → Request J → ℕ
pending (acquiring body) = 1
pending (sending payload is_batch url) = 1
pending (reading payload is_batch url) = 1
pending (answered response) = 0
pending dropped = 0

-- The movements of the gauge with one down to come for a request that is pending.
abbrev pub settled : {F L J : Type 0} → Request J → LoadBalancer F L → ℕ × ℕ
settled request b = ((gauge_moves b.registry).0, (gauge_moves b.registry).1 + pending request)

-- Movements without a further one down.
nothing_more : (ups downs : ℕ) → ◌≡◌ {A = ℕ × ℕ} (ups, downs + 0) (ups, downs)
nothing_more ups downs = let same : downs + 0 ≡ downs = omega arith in ap (λ n. (ups, n)) same

module _ {F L : Type 0} (b : LoadBalancer F L) where
  moves-drop_guard :
      gauge_moves (drop_guard b).registry
      ≡ ((gauge_moves b.registry).0, (gauge_moves b.registry).1 + 1)
  unfolding drop_guard gauge_moves
  moves-drop_guard = refl

  moves-drop_timer : (url : Text) → gauge_moves (drop_timer b url).registry ≡ gauge_moves b.registry
  unfolding drop_timer gauge_moves
  moves-drop_timer url = refl

  moves-count_refusal :
      (counted : Bool) → gauge_moves (count_refusal b counted).registry ≡ gauge_moves b.registry
  unfolding count_refusal gauge_moves
  moves-count_refusal true = refl
  moves-count_refusal false = refl

  moves-refuse :
      (counted : Bool)
      → gauge_moves (drop_guard (count_refusal b counted)).registry
        ≡ ((gauge_moves b.registry).0, (gauge_moves b.registry).1 + 1)
  unfolding drop_guard gauge_moves
  moves-refuse counted = ap (λ m. (m.0, m.1 + 1)) (moves-count_refusal counted)

module _ {F L : Type 0} (J : Type 0) where
  moves-after_body_check :
      (b : LoadBalancer F L) (body : Text) (early : Option (Response × Bool))
      → settled (after_body_check {J = J} b body early).0 (after_body_check {J = J} b body early).1
        ≡ ((gauge_moves b.registry).0, (gauge_moves b.registry).1 + 1)
  unfolding after_body_check
  moves-after_body_check b body none = refl
  moves-after_body_check b body (some (refused, counted)) =
      ap (λ m. (m.0, m.1 + 0)) (moves-refuse b counted) ∙ nothing_more _ _

  pub settled-arrive :
      (b : LoadBalancer F L) (body : Text)
      → settled (arrive {J = J} b body).0 (arrive {J = J} b body).1
        ≡ ((gauge_moves b.registry).0 + 1, (gauge_moves b.registry).1 + 1)
  unfolding arrive gauge_moves
  settled-arrive b body = moves-after_body_check _ body (check_body b.max_batch_size body)

-- The turn moves the gauge as it ends its request.
abbrev Settles : {F L J : Type 0} → Turn F L J → LoadBalancer F L → Type 0
Settles t b =
    settled t.request t.balancer ≡ ((gauge_moves b.registry).0, (gauge_moves b.registry).1 + 1)

module _ {F L J : Type 0} (fl : Float F) (rl : RateLimiter L) (sc : StatusCodes)
    (json : Json J) where
  finish-Settles :
      (b : LoadBalancer F L) (permits : ℕ) (response : Response)
      → Settles (finish {J = J} b permits response) b
  unfolding finish
  finish-Settles b permits response =
      ap (λ m. (m.0, m.1 + 0)) (moves-drop_guard b) ∙ nothing_more _ _

  give_up-Settles : (b : LoadBalancer F L) (permits : ℕ) → Settles (give_up {J = J} b permits) b
  unfolding give_up
  give_up-Settles b permits = ap (λ m. (m.0, m.1 + 0)) (moves-drop_guard b) ∙ nothing_more _ _

  send_to-Settles :
      (b : LoadBalancer F L) (permits : ℕ) (payload : J) (is_batch : Bool) (selected : Option Text)
      → Settles (send_to fl rl sc json b permits payload is_batch selected) b
  unfolding send_to begin_request gauge_moves
  send_to-Settles b permits payload is_batch none = finish-Settles b permits _
  send_to-Settles b permits payload is_batch (some url) = refl

  after_parse-Settles :
      (b : LoadBalancer F L) (permits now unix_secs : ℕ)
      (parsed : Result (Response × Bool) (J × (Bool × ℕ)))
      → Settles (after_parse fl rl sc json b permits now unix_secs parsed) b
  unfolding after_parse
  after_parse-Settles b permits now unix_secs (Result.err (refused, counted)) =
      finish-Settles (count_refusal b counted) permits refused
      ∙ ap (λ m. (m.0, m.1 + 1)) (moves-count_refusal b counted)
  after_parse-Settles b permits now unix_secs (Result.ok (payload, (is_batch, batch_size))) =
      send_to-Settles _ permits payload is_batch _
      ∙ ap (λ m. (m.0, m.1 + 1)) (moves-get_next_endpoint fl rl b batch_size now unix_secs)

  acquire-Settles :
      (b : LoadBalancer F L) (permits now unix_secs : ℕ) (body : Text)
      → Settles (acquire fl rl sc json b permits now unix_secs body) b
  unfolding acquire
  acquire-Settles b zero now unix_secs body = refl
  acquire-Settles b (suc permits) now unix_secs body = after_parse-Settles b permits now unix_secs _

  after_response-Settles :
      (b : LoadBalancer F L) (permits : ℕ) (payload : J) (is_batch : Bool) (url : Text)
      (early : Option LoadBalancerError)
      → Settles (after_response fl rl sc json b permits payload is_batch url early) b
  unfolding after_response
  after_response-Settles b permits payload is_batch url none = refl
  after_response-Settles b permits payload is_batch url (some e) = finish-Settles b permits _

  pub settled-advance :
      (b : LoadBalancer F L) (permits : ℕ) (request : Request J) (input : Input)
      → settled
          (advance fl rl sc json b permits request input).request
          (advance fl rl sc json b permits request input).balancer
        ≡ settled request b
  unfolding advance
  settled-advance b permits (acquiring body) (permit_free now unix_secs) =
      acquire-Settles b permits now unix_secs body
  settled-advance b permits (sending payload is_batch url) (response_in elapsed_ms now sent) =
      after_response-Settles _ permits payload is_batch url _
      ∙ ap (λ m. (m.0, m.1 + 1)) (moves-after_send fl sc url now b elapsed_ms sent)
  settled-advance b permits (reading payload is_batch url) (body_in now body) =
      finish-Settles _ permits _ ∙ ap (λ m. (m.0, m.1 + 1)) (moves-after_body b url now body)
  settled-advance b permits (acquiring body) (response_in elapsed_ms now sent) = refl
  settled-advance b permits (acquiring body) (body_in now bytes) = refl
  settled-advance b permits (sending payload is_batch url) (permit_free now unix_secs) = refl
  settled-advance b permits (sending payload is_batch url) (body_in now bytes) = refl
  settled-advance b permits (reading payload is_batch url) (permit_free now unix_secs) = refl
  settled-advance b permits (reading payload is_batch url) (response_in elapsed_ms now sent) = refl
  settled-advance b permits (acquiring body) connection_lost = give_up-Settles b permits
  settled-advance b permits (sending payload is_batch url) connection_lost =
      give_up-Settles (drop_timer b url) (permits + 1)
      ∙ ap (λ m. (m.0, m.1 + 1)) (moves-drop_timer b url)
  settled-advance b permits (reading payload is_batch url) connection_lost =
      give_up-Settles b (permits + 1)
  settled-advance b permits (answered reply) input = refl
  settled-advance b permits dropped input = refl

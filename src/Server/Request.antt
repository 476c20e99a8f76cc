-- ===== src/Server/Request.antt =====
-- `handle_rpc` of src/main.rs between its waits: for a permit, for the response of the endpoint
-- and for the body of the response. Other tasks may run at each of them. A request that is under
-- way is the place of its handler.
pub mod Kept
pub mod Permits
use azoth_balancer.Prelude.{
  ℕ, suc, zero, ◌+◌, Bool, true, false, ◌∷◌, [], Option, none, some, Text, Result,
}
use azoth_balancer.Float.{Float}
use azoth_balancer.Limiter.{RateLimiter}
use azoth_balancer.Metrics.{
  observe, request_latency_per_endpoint, inc, dec, batch_size_exceeded, concurrency_active_permits,
}
use azoth_balancer.Endpoint.{LoadBalancerError}
use azoth_balancer.Balancer.{LoadBalancer, get_next_endpoint}
use azoth_balancer.Forwarder.{StatusCodes, Sent, begin_request, after_send, after_body}
use azoth_balancer.Server.{
  Json, Response, payload_too_large, service_unavailable, check_body, check_parsed, method_label,
  reply, Environment,
}

-- Where the handler of a request stands. A permit is held in `sending` and in `reading`.
pub data Request (J : Type 0) : Type 0 where
  acquiring : (body : Text) → Request J
  sending reading : (payload : J) (is_batch : Bool) (endpoint : Text) → Request J
  answered : Response → Request J
  -- The connection is gone, and with it the handler.
  dropped : Request J

-- What a handler waits for.
pub data Input : Type 0 where
  permit_free : (now unix_secs : ℕ) → Input
  response_in : (elapsed_ms now : ℕ) → Sent → Input
  body_in : (now : ℕ) → Result Text Text → Input
  connection_lost : Input

-- The request after its handler ran, with the permits that are free and the balancer.
pub record Turn (F L J : Type 0) : Type 0 where
  pub request : Request J
  pub permits : ℕ
  pub balancer : LoadBalancer F L

module _ {F L : Type 0} where
  -- The gauge goes down as the guard is dropped.
  unfoldable pub drop_guard : LoadBalancer F L → LoadBalancer F L
  drop_guard b = record b { registry = dec concurrency_active_permits ∷ b.registry }

  -- A timer that is dropped before `observe_duration` observes its time.
  unfoldable pub drop_timer : LoadBalancer F L → Text → LoadBalancer F L
  drop_timer b url = record b { registry = observe request_latency_per_endpoint url ∷ b.registry }

  -- A refusal, which may count as a batch that is too large.
  unfoldable pub count_refusal : LoadBalancer F L → Bool → LoadBalancer F L
  count_refusal b true = record b { registry = inc batch_size_exceeded [] ∷ b.registry }
  count_refusal b false = b

module _ {F L J : Type 0} where
  -- A return that holds a permit.
  unfoldable pub finish : LoadBalancer F L → ℕ → Response → Turn F L J
  finish b permits response = record {
    request = answered response;
    permits = permits + 1;
    balancer = drop_guard b;
  }

  -- The web server drops a handler at its wait when the connection is lost: the guard, and the
  -- permit if there is one, are dropped with it.
  unfoldable pub give_up : LoadBalancer F L → ℕ → Turn F L J
  give_up b permits = record { request = dropped; permits = permits; balancer = drop_guard b }

  unfoldable pub after_body_check :
      LoadBalancer F L → Text → Option (Response × Bool) → Request J × LoadBalancer F L
  after_body_check b body none = (acquiring body, b)
  after_body_check b body (some (refused, counted)) =
      (answered refused, drop_guard (count_refusal b counted))

  -- Up to the wait for the permit.
  unfoldable pub arrive : LoadBalancer F L → Text → Request J × LoadBalancer F L
  unfolding after_body_check
  arrive b body =
      after_body_check (record b { registry = inc concurrency_active_permits [] ∷ b.registry }) body
        (check_body b.max_batch_size body)

module _ {F L J : Type 0} (fl : Float F) (rl : RateLimiter L) (sc : StatusCodes)
    (json : Json J) where
  -- The request goes out to the endpoint that was selected, if one was.
  unfoldable pub send_to : LoadBalancer F L → ℕ → J → Bool → Option Text → Turn F L J
  send_to b permits payload is_batch none = finish b permits service_unavailable
  send_to b permits payload is_batch (some url) = record {
    request = sending payload is_batch url;
    permits = permits;
    balancer = begin_request b (method_label json payload is_batch);
  }

  -- With the permit, up to the wait for the response.
  unfoldable pub after_parse :
      LoadBalancer F L
      → (permits now unix_secs : ℕ) → Result (Response × Bool) (J × (Bool × ℕ))
      → Turn F L J
  unfolding send_to
  after_parse b permits now unix_secs (Result.err (refused, counted)) =
      finish (count_refusal b counted) permits refused
  after_parse b permits now unix_secs (Result.ok (payload, (is_batch, batch_size))) =
      let (selected, b') = get_next_endpoint fl rl b batch_size now unix_secs in
      send_to b' permits payload is_batch selected

  -- Up to the wait for the body, or to the reply.
  unfoldable pub after_response :
      LoadBalancer F L → ℕ → J → Bool → Text → Option LoadBalancerError → Turn F L J
  after_response b permits payload is_batch url none = record {
    request = reading payload is_batch url;
    permits = permits;
    balancer = b;
  }
  after_response b permits payload is_batch url (some e) =
      finish b permits (reply json payload is_batch (Result.err e))

  -- The semaphore gives a permit, if one is free.
  unfoldable pub acquire : LoadBalancer F L → (permits now unix_secs : ℕ) → Text → Turn F L J
  acquire b zero now unix_secs body = record {
    request = acquiring body;
    permits = zero;
    balancer = b;
  }
  acquire b (suc permits) now unix_secs body =
      after_parse b permits now unix_secs
        (check_parsed json b.max_batch_size (json.from_slice body))

  -- The handler goes on when what it waits for is there, and otherwise waits on.
  unfoldable pub advance : LoadBalancer F L → ℕ → Request J → Input → Turn F L J
  unfolding acquire
  advance b permits (acquiring body) (permit_free now unix_secs) =
      acquire b permits now unix_secs body
  advance b permits (sending payload is_batch url) (response_in elapsed_ms now sent) =
      let (early, b') = after_send fl sc b url elapsed_ms now sent in
      after_response b' permits payload is_batch url early
  advance b permits (reading payload is_batch url) (body_in now body) =
      let (result, b') = after_body b url now body in
      finish b' permits (reply json payload is_batch result)
  advance b permits (acquiring body) connection_lost = give_up b permits
  advance b permits (sending payload is_batch url) connection_lost =
      give_up (drop_timer b url) (permits + 1)
  advance b permits (reading payload is_batch url) connection_lost = give_up b (permits + 1)
  advance b permits request input = record { request = request; permits = permits; balancer = b }

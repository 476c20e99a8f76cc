-- ===== src/Server.antt =====
-- `handle_rpc` of src/main.rs: the checks of a request, its selection and forwarding, and the
-- response. The JSON library is an interface. The handler is one function here, with nothing else
-- running at its waits.
pub mod Admission
pub mod Handled
pub mod Request
use azoth_balancer.Prelude.{
  ℕ, ◌*◌, Bool, true, false, not, ◌&&◌, ◌||◌, List, [], ◌∷◌, ◌++◌, Option, none, some, Text, codes,
  length, filter, find, ltb, ◌==◌, get_or, Result, if◌then◌else◌,
}
use azoth_balancer.Float.{Float}
use azoth_balancer.Limiter.{RateLimiter}
use azoth_balancer.Metrics.{inc, dec, batch_size_exceeded, concurrency_active_permits}
use azoth_balancer.Endpoint.{
  LoadBalancerError, rate_limited, upstream_error, config_error, bad_request,
}
use azoth_balancer.Balancer.{LoadBalancer, get_next_endpoint}
use azoth_balancer.Forwarder.{StatusCodes, Sent, forward_request}

-- The codes of JSON-RPC errors that are used: -32000 and -32603.
pub data ErrorCode : Type 0 where
  server_error internal_error : ErrorCode

-- What the handler uses of `serde_json`.
pub record Json (J : Type 0) : Type 0 where
  pub from_slice : Text → Result Text J
  -- `as_array`, with the length of the array
  pub array_len : J → Option ℕ
  pub get : J → Text → Option J
  pub as_str : J → Option Text
  -- the bytes of the error response; `to_vec` fails on a map whose keys are no strings, or where
  -- `Serialize` does, and a `Value` has neither
  pub error_payload : ErrorCode → Text → Option J → Text

pub data Response : Type 0 where
  payload_too_large internal_server_error service_unavailable : Response
  bad_request_response : LoadBalancerError → Response
  ok_response : Text → Response

abbrev pub max_json_size : ℕ
max_json_size = 10 * 1024 * 1024

-- `u8::is_ascii_whitespace`
abbrev pub is_ascii_whitespace : ℕ → Bool
is_ascii_whitespace c = c == 32 || c == 9 || c == 10 || c == 12 || c == 13

unfoldable pub is_likely_batch : Text → Bool
is_likely_batch body = elim (find (λ c. not (is_ascii_whitespace c)) body) [
  | none ↦ false
  | some c ↦ c == b'['
]

unfoldable pub approx_batch_size : Text → ℕ
approx_batch_size body = length (filter (λ c. c == b'{') body)

-- The checks before the permit: a response, if they end the request, and whether it counts as a
-- batch that is too large.
unfoldable pub check_body : ℕ → Text → Option (Response × Bool)
check_body max_batch_size body =
    if ltb max_json_size (length body)
    then some (payload_too_large, false)
    else (if is_likely_batch body && ltb max_batch_size (approx_batch_size body)
        then some (payload_too_large, true)
        else none)

abbrev pub batch_of : Option ℕ → Bool × ℕ
batch_of (some n) = (true, n)
batch_of none = (false, 1)

module _ {J : Type 0} (json : Json J) where
  -- The checks of the number of requests in the payload.
  unfoldable pub check_size : ℕ → J → Result (Response × Bool) (J × (Bool × ℕ))
  check_size max_batch_size payload =
      let (is_batch, batch_size) = batch_of (json.array_len payload) in
      if batch_size == 0
      then Result.err
          (bad_request_response (bad_request (codes "Empty batch is not allowed")), false)
      else (if ltb max_batch_size batch_size
          then Result.err (payload_too_large, true)
          else Result.ok (payload, (is_batch, batch_size)))

  unfoldable pub check_parsed : ℕ → Result Text J → Result (Response × Bool) (J × (Bool × ℕ))
  check_parsed max_batch_size (Result.err e) =
      Result.err
        (bad_request_response (bad_request (codes "Failed to parse JSON body: " ++ e)), false)
  check_parsed max_batch_size (Result.ok payload) = check_size max_batch_size payload

  -- All the checks, up to the selection. `permit` is false if the semaphore is closed.
  unfoldable pub admit :
      (max_batch_size : ℕ) (permit : Bool) → Text → Result (Response × Bool) (J × (Bool × ℕ))
  unfolding check_parsed
  admit max_batch_size permit body = elim (check_body max_batch_size body) [
    | some refused ↦ Result.err refused
    | none ↦
        if permit
        then check_parsed max_batch_size (json.from_slice body)
        else Result.err (internal_server_error, false)
  ]

  unfoldable pub method_label : J → Bool → Text
  method_label payload true = codes "batch"
  method_label payload false = elim (json.get payload (codes "method")) [
    | none ↦ codes "unknown"
    | some method ↦ get_or (json.as_str method) (codes "unknown")
  ]

  error_reply : LoadBalancerError → Option J → Text
  error_reply (rate_limited message) id = json.error_payload server_error message id
  error_reply (upstream_error message) id = json.error_payload internal_error message id
  error_reply (config_error message) id =
      json.error_payload internal_error (codes "Internal server error") id
  error_reply (bad_request message) id =
      json.error_payload internal_error (codes "Internal server error") id

  unfoldable pub reply : J → Bool → Result LoadBalancerError Text → Response
  unfolding error_reply
  reply payload is_batch (Result.ok bytes) = ok_response bytes
  reply payload is_batch (Result.err e) =
      ok_response (error_reply e (if is_batch then none else json.get payload (codes "id")))

-- What the world contributes to one request.
pub record Environment : Type 0 where
  pub permit : Bool
  pub now : ℕ
  pub unix_secs : ℕ
  pub elapsed_ms : ℕ
  pub sent : Sent
  pub body : Result Text Text

module _ {F L J : Type 0} (fl : Float F) (rl : RateLimiter L) (sc : StatusCodes)
    (json : Json J) where
  -- The selection, and the forwarding to the endpoint that was selected.
  unfoldable pub serve : LoadBalancer F L → Environment → J → Bool → ℕ → Response × LoadBalancer F L
  serve b env payload is_batch batch_size =
      let (selected, b') = get_next_endpoint fl rl b batch_size env.now env.unix_secs in
      elim selected [
        | none ↦ (service_unavailable, b')
        | some url ↦
            let (result, b'') =
              forward_request fl sc b' url (method_label json payload is_batch) env.elapsed_ms
                env.now env.sent env.body in
            (reply json payload is_batch result, b'')
      ]

  -- What follows the checks.
  unfoldable pub after_checks :
      LoadBalancer F L
      → Environment
      → Result (Response × Bool) (J × (Bool × ℕ))
      → Response × LoadBalancer F L
  after_checks b env (Result.err (refused, true)) =
      (refused, record b { registry = inc batch_size_exceeded [] ∷ b.registry })
  after_checks b env (Result.err (refused, false)) = (refused, b)
  after_checks b env (Result.ok (payload, (is_batch, batch_size))) =
      serve b env payload is_batch batch_size

  -- `handle_rpc`; the gauge goes down when the guard is dropped, at every return.
  unfoldable pub handle_rpc : LoadBalancer F L → Environment → Text → Response × LoadBalancer F L
  handle_rpc b env body =
      let entered = record b { registry = inc concurrency_active_permits [] ∷ b.registry } in
      let (response, after) =
        after_checks entered env (admit json b.max_batch_size env.permit body) in
      (response, record after { registry = dec concurrency_active_permits ∷ after.registry })

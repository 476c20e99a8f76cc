-- ===== src/Examples.antt =====
-- Concrete instances and data for the examples: floats as tenths, limiters that count their
-- tokens, the status codes of HTTP, and small balancers.
pub mod Selecting
pub mod Configuring
pub mod Running
pub mod Composing
pub mod Operating
pub mod Locking
pub mod Registering
use azoth_balancer.Prelude.{
  ℕ, ◌+◌, ◌-◌, ◌*◌, ◌/◌, ◌≤◌, ◌≡◌, refl, arith, min, max, Bool, true, false, ◌&&◌, List, [], ◌∷◌,
  Option, none, some, Text, codes, ltb, leb, zero, suc, if◌then◌else◌,
}
use azoth_balancer.Float.{Float, HalfLaws}
use azoth_balancer.Limiter.{RateLimiter, RefusalKeeps}
use azoth_balancer.Endpoint.{RpcEndpoint, EndpointMetrics}
use azoth_balancer.Config.{EndpointConfig}
use azoth_balancer.Balancer.{Client, LoadBalancer}
use azoth_balancer.Forwarder.{StatusCodes}
use azoth_balancer.Background.{Timer}
use azoth_balancer.Background.Interval.{Documented}
use azoth_balancer.Server.{Json}
use azoth_balancer.Prelude.{Result}

abbrev pub tenths : Float ℕ
tenths = record {
  from_u64 = λ n. 10 * n;
  add = λ x y. x + y;
  sub = λ x y. x - y;
  mul = λ x y. x * y / 10;
  round_u64 = λ x. (x + 5) / 10;
  clamp = λ x low high. max low (min x high);
  zero = 0;
  one = 10;
  tenth = 1;
  half = 5;
  four_fifths = 8;
}

pub tenths-HalfLaws : HalfLaws tenths
tenths-HalfLaws = record {
  half_complement = refl;
  add_nothing = λ n. omega arith;
  round_half = λ n h. omega arith;
}

-- A limiter that never refills.
abbrev pub tokens : RateLimiter ℕ
tokens = record {
  new = λ burst period. burst;
  check_n = λ n now l. if leb n l then (true, l - n) else (false, l);
}

pub tokens-RefusalKeeps : RefusalKeeps tokens
tokens-RefusalKeeps n now l h = ground arith

abbrev pub http : StatusCodes
http = record {
  is_success = λ s. leb 200 s && ltb s 300;
  is_server_error = λ s. leb 500 s && ltb s 600;
  is_client_error = λ s. leb 400 s && ltb s 500;
  show = λ s. s ∷ [];
}

-- A parser that takes every body for an array of two.
abbrev pub pairs : Json Text
pairs = record {
  from_slice = λ body. Result.ok body;
  array_len = λ body. some 2;
  get = λ body key. none;
  as_str = λ body. none;
  error_payload = λ code message id. message;
}

abbrev pub example_endpoint : Text → ℕ → RpcEndpoint
example_endpoint url weight = record {
  url = url;
  healthy = true;
  last_check = 0;
  cooldown_until = none;
  cooldown_attempts = 0;
  rate_limit_per_sec = 10;
  burst_size = 5;
  weight = weight;
  metrics = record {
    ema_latency_ms = 2000;
    ema_error_penalty_ms = 0;
    consecutive_failures = 0;
    last_selected = 7;
  };
}

-- Every client can be built, and semaphores hold what they hold on 64 bits.
abbrev pub all_build : Client → Bool
all_build client = true

abbrev pub permits_64 : ℕ
permits_64 = 2_305_843_009_213_693_951

abbrev pub url_a : Text
url_a = codes "http://a"

abbrev pub url_b : Text
url_b = codes "http://b"

abbrev pub endpoint_a : RpcEndpoint
endpoint_a = example_endpoint url_a 100

abbrev pub endpoint_b : RpcEndpoint
endpoint_b = example_endpoint url_b 60

-- Two endpoints; the tokens of the first are used up.
abbrev pub two_endpoints : LoadBalancer ℕ ℕ
two_endpoints = record {
  endpoints = endpoint_a ∷ endpoint_b ∷ [];
  rate_limiters = (url_a, 0) ∷ (url_b, 5) ∷ [];
  client = record {
    connect_timeout_ms = 2500;
    timeout_secs = 10;
    pool_idle_timeout_secs = 60;
    pool_max_idle_per_host = 100;
  };
  bind_addr = codes "0.0.0.0:8549";
  health_check_interval_secs = 30;
  health_check_timeout_secs = 5;
  base_cooldown_secs = 3;
  max_cooldown_secs = 60;
  max_batch_size = 20;
  latency_smoothing_factor = 1;
  concurrency_limiter = 100;
  config_path = codes "config.toml";
  connect_timeout_ms = 2500;
  timeout_secs = 10;
  pool_idle_timeout_secs = 60;
  pool_max_idle_per_host = 100;
  registry = [];
}

abbrev pub example_config : Text → EndpointConfig
example_config url = record {
  url = url;
  rate_limit_per_sec = 10;
  burst_size = 5;
  weight = some 100;
}

-- A timer that is known by its period.
abbrev pub periods : Timer ℕ
periods = record { interval = λ secs. if leb 1 secs then some secs else none; reset = λ t. t }

pub periods-Documented : Documented periods
periods-Documented = record { zero_panics = refl; positive_runs = λ secs h. ground (arith, h) }

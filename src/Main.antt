-- ===== src/Main.antt =====
-- src/main.rs beside `handle_rpc`: the reload handler, the signals, and the start and the end of the
-- program. The HTTP client, the address parser, the web server and the signals of the operating
-- system are arguments. The shutdown is written over how the background tasks would end.
pub mod Reloading
pub mod Signals
pub mod Program
pub mod Outcome
pub mod Defaults
use azoth_balancer.Prelude.{
  ℕ, ◌+◌, Bool, true, false, List, [], ◌∷◌, ◌++◌, Option, none, some, Text, codes, ltb, Result,
  ◌>>=◌, if◌then◌else◌,
}
use azoth_balancer.Float.{Float}
use azoth_balancer.Limiter.{RateLimiter}
use azoth_balancer.Endpoint.{
  LoadBalancerError, rate_limited, upstream_error, config_error, bad_request,
}
use azoth_balancer.Config.{Config}
use azoth_balancer.Config.Finalize.{FileRead}
use azoth_balancer.Balancer.{Client, LoadBalancer}
use azoth_balancer.Reload.{ReloadError, failed, panicked, ConfigChanges, ReloadResponse, reload}
use azoth_balancer.Shutdown.{TaskEnd, ShutdownResult, graceful_shutdown}

-- `Display` of the errors
unfoldable pub to_string : LoadBalancerError → Text
to_string (rate_limited message) = codes "Rate limit exceeded for endpoint: " ++ message
to_string (upstream_error message) = codes "Upstream error: " ++ message
to_string (config_error message) = codes "Configuration error: " ++ message
to_string (bad_request message) = codes "Bad request: " ++ message

-- The status codes that the handler gives.
pub data StatusCode : Type 0 where
  ok_200 internal_server_error_500 : StatusCode

-- `ConfigChanges::default()`
abbrev pub default_changes : ConfigChanges
default_changes = record {
  endpoints_added = [];
  endpoints_removed = [];
  endpoints_modified = [];
  config_updated = false;
  client_rebuilt = false;
}

-- What the caller gets: nothing, where the handler panics.
pub data Reply : Type 0 where
  answered : StatusCode → ReloadResponse → Reply
  dropped : Reply

reload_reply : Result ReloadError ReloadResponse → Reply
reload_reply (Result.ok response) = answered ok_200 response
reload_reply (Result.err (failed e)) = answered internal_server_error_500 (record {
  success = false;
  message = codes "Configuration reload failed";
  error = some (to_string e);
  changes = default_changes;
})
reload_reply (Result.err panicked) = dropped

module _ {F L : Type 0} (fl : Float F) (rl : RateLimiter L) (can_build : Client → Bool) where
  unfoldable pub handle_reload :
      (read_to_string : Text → FileRead) (from_toml : Text → Result Text (Config F))
      → LoadBalancer F L
      → ℕ
      → Option (Reply × LoadBalancer F L)
  unfolding reload_reply
  handle_reload read_to_string from_toml b now = do
    (result, b') ← reload fl rl can_build read_to_string from_toml b now
    some (reload_reply result, b')

-- The signals of the operating system, with the seconds at which they come.
pub data Signal : Type 0 where
  ctrl_c : (at : ℕ) → Signal
  terminate : (at : ℕ) → Signal

-- The wait of ten seconds for a second Ctrl+C: the first one that comes decides.
unfoldable pub is_forced : (first : ℕ) → List Signal → Bool
is_forced first [] = false
is_forced first (ctrl_c at ∷ signals) = ltb at (first + 10)
is_forced first (terminate at ∷ signals) = is_forced first signals

-- `none` waits on; a result tells whether the shutdown is forced.
unfoldable pub shutdown_signal : List Signal → Option Bool
shutdown_signal [] = none
shutdown_signal (ctrl_c at ∷ signals) = some (is_forced at signals)
shutdown_signal (terminate at ∷ signals) = some false

-- The end of `main`: the tasks are aborted, or shut down within 30 seconds.
unfoldable pub end_tasks : (force_shutdown : Bool) → List TaskEnd → ShutdownResult
end_tasks true tasks = record { result = Result.ok tt; aborted = tasks }
end_tasks false tasks = graceful_shutdown tasks 30

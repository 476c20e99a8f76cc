-- ===== src/Locks.antt =====
-- The locks of `LoadBalancer` in src/balancer.rs, which all tasks share, and the order in which the
-- code of src/balancer.rs, config_reloader.rs, forwarder.rs, utils/health.rs, utils/cooldown.rs and
-- main.rs takes them. A section is a stretch of code between two waits of its task; no guard lives
-- across a wait. Guards are dropped where Rust drops them: at the end of their block, or of their
-- statement where they have no name.
pub mod Threads
pub mod Nesting
pub mod Sections
pub mod Order
pub mod Steps
pub mod Waiting
pub mod Progress
pub mod Recursive
use azoth_balancer.Prelude.{
  ℕ, zero, suc, Bool, true, false, List, [], ◌∷◌, ◌++◌, Text, if◌then◌else◌,
}

-- The fields of `LoadBalancer` behind a lock, and the mutex of the limiter of a URL.
pub data Lock : Type 0 where
  endpoints rate_limiters client health_check_interval_secs health_check_timeout_secs : Lock
  base_cooldown_secs max_cooldown_secs max_batch_size latency_smoothing_factor config_path : Lock
  connect_timeout_ms timeout_secs pool_idle_timeout_secs pool_max_idle_per_host : Lock
  limiter : Text → Lock

-- `lock` of a mutex takes it as a writer.
pub data Mode : Type 0 where
  read write : Mode

-- A thread asks for a lock, takes it once it is let in, and drops its guard.
pub data Call : Type 0 where
  ask : Mode → Lock → Call
  take : Mode → Lock → Call
  release : Lock → Call

-- A guard with the code under it.
abbrev pub guarded : Mode → Lock → List Call → List Call
guarded m l body = ask m l ∷ take m l ∷ body ++ release l ∷ []

-- A guard that is dropped at the end of its statement.
abbrev pub read_field : Lock → List Call
read_field l = guarded read l []

abbrev pub write_field : Lock → List Call
write_field l = guarded write l []

-- The limit of a batch, in `handle_rpc`
abbrev check_batch_size_calls : List Call
check_batch_size_calls = read_field max_batch_size

-- The client, in `forward_request`
abbrev clone_client_calls : List Call
clone_client_calls = read_field client

-- The interval, in `health_check_loop`
abbrev read_interval_calls : List Call
read_interval_calls = read_field health_check_interval_secs

-- The path, in `reload`
abbrev read_path_calls : List Call
read_path_calls = read_field config_path

-- A tick of `cooldown_gauge_updater`
abbrev update_gauges_calls : List Call
update_gauges_calls = read_field endpoints

-- `update_healthy_count`
abbrev count_healthy_calls : List Call
count_healthy_calls = read_field endpoints

-- `reserve_tokens` on one endpoint after the other
lock_limiters : List Text → List Call
lock_limiters [] = []
lock_limiters (url ∷ urls) = guarded write (limiter url) [] ++ lock_limiters urls

-- `get_next_endpoint`, with the endpoints that have a limiter and that are tried
unfoldable pub select_calls : List Text → List Call
unfolding lock_limiters
select_calls tried = guarded read endpoints (guarded read rate_limiters (lock_limiters tried))

-- The call of `trigger_cooldown`: both guards live to the end of the statement.
cooldown_calls : List Call
cooldown_calls = guarded read base_cooldown_secs (guarded read max_cooldown_secs [])

-- `mark_rate_limited` and `mark_unhealthy`, where an endpoint is put into cooldown and where not
unfoldable pub mark_calls : (cools : Bool) → List Call
unfolding cooldown_calls
mark_calls true = guarded write endpoints cooldown_calls
mark_calls false = guarded write endpoints []

-- The update of the metrics in `forward_request`, for an endpoint that is found or not and a
-- request that timed out or not.
unfoldable pub outcome_calls : (found timed_out : Bool) → List Call
outcome_calls false timed_out = read_field endpoints
outcome_calls true false = guarded read endpoints (read_field latency_smoothing_factor)
outcome_calls true true =
    guarded read endpoints (read_field latency_smoothing_factor ++ read_field timeout_secs)

-- The requests that `perform_health_checks` spawns, one for each URL.
clone_clients : ℕ → List Call
clone_clients zero = []
clone_clients (suc n) = read_field client ++ clone_clients n

-- `perform_health_checks` up to its wait
unfoldable pub start_round_calls : (urls : ℕ) → List Call
unfolding clone_clients
start_round_calls urls =
    read_field endpoints ++ (read_field health_check_timeout_secs ++ clone_clients urls)

-- The smoothing factor is read for each endpoint that failed its check.
read_factors : ℕ → List Call
read_factors zero = []
read_factors (suc n) = read_field latency_smoothing_factor ++ read_factors n

-- `perform_health_checks` after its wait
unfoldable pub end_round_calls : (failures : ℕ) → List Call
unfolding read_factors
end_round_calls failures =
    guarded write endpoints
      (read_field base_cooldown_secs ++ (read_field max_cooldown_secs ++ read_factors failures))

-- The comparison of the settings stops at the first that differs, after `more` further reads; the
-- guard of the first operand lives to the end of the statement.
compare_calls : (more : ℕ) → List Call
compare_calls zero = guarded read connect_timeout_ms []
compare_calls (suc zero) = guarded read connect_timeout_ms (read_field timeout_secs)
compare_calls (suc (suc zero)) =
    guarded read connect_timeout_ms (read_field timeout_secs ++ read_field pool_idle_timeout_secs)
compare_calls (suc (suc (suc n))) = guarded read connect_timeout_ms (
    read_field timeout_secs
    ++ (read_field pool_idle_timeout_secs ++ read_field pool_max_idle_per_host))

client_calls : (changed : Bool) → List Call
client_calls false = []
client_calls true =
    write_field client
    ++ (write_field connect_timeout_ms
        ++ (write_field timeout_secs
            ++ (write_field pool_idle_timeout_secs ++ write_field pool_max_idle_per_host)))

-- The timeout is read for each new endpoint.
read_timeouts : ℕ → List Call
read_timeouts zero = []
read_timeouts (suc n) = read_field timeout_secs ++ read_timeouts n

install_calls : List Call
install_calls =
    write_field endpoints
    ++ (write_field rate_limiters
        ++ (write_field max_batch_size
            ++ (write_field base_cooldown_secs
                ++ (write_field max_cooldown_secs
                    ++ (write_field health_check_interval_secs
                        ++ (write_field health_check_timeout_secs
                            ++ (write_field latency_smoothing_factor ++ read_field endpoints)))))))

-- `reload` with a configuration that is loaded: how many comparisons follow the first, whether the
-- client is rebuilt, and how many endpoints are new.
unfoldable pub reload_calls : (more : ℕ) (changed : Bool) (added : ℕ) → List Call
unfolding compare_calls client_calls read_timeouts install_calls
reload_calls more changed added =
    read_field config_path
    ++ (compare_calls more
        ++ (client_calls changed
            ++ (read_field endpoints
                ++ (guarded read endpoints (guarded read rate_limiters (read_timeouts added))
                    ++ install_calls))))

-- The sections of all tasks but the status report. `read_path` is a reload that fails.
pub data Section : Type 0 where
  check_batch_size clone_client read_interval read_path update_gauges count_healthy : Section
  select : (tried : List Text) → Section
  mark : (cools : Bool) → Section
  update_outcome : (found timed_out : Bool) → Section
  start_round : (urls : ℕ) → Section
  end_round : (failures : ℕ) → Section
  reload : (more : ℕ) (changed : Bool) (added : ℕ) → Section

unfoldable pub calls : Section → List Call
unfolding select_calls mark_calls outcome_calls start_round_calls end_round_calls reload_calls
calls check_batch_size = check_batch_size_calls
calls clone_client = clone_client_calls
calls read_interval = read_interval_calls
calls read_path = read_path_calls
calls update_gauges = update_gauges_calls
calls count_healthy = count_healthy_calls
calls (select tried) = select_calls tried
calls (mark cools) = mark_calls cools
calls (update_outcome found timed_out) = outcome_calls found timed_out
calls (start_round urls) = start_round_calls urls
calls (end_round failures) = end_round_calls failures
calls (reload more changed added) = reload_calls more changed added

-- `get_status` holds the guard of the endpoints while `get_endpoint_priority_stats` takes another.
unfoldable pub status_calls : List Call
status_calls = guarded read endpoints (
    read_field config_path
    ++ (read_field health_check_interval_secs
        ++ (read_field health_check_timeout_secs
            ++ (read_field base_cooldown_secs
                ++ (read_field max_cooldown_secs
                    ++ (read_field max_batch_size
                        ++ (read_field latency_smoothing_factor
                            ++ (read_field connect_timeout_ms
                                ++ (read_field timeout_secs
                                    ++ (read_field pool_idle_timeout_secs
                                        ++ (read_field pool_max_idle_per_host
                                            ++ read_field endpoints)))))))))))

-- ===== src/Locks/Sections.antt =====
-- Every section nests its guards in the order of declaration of the locks.
use azoth_balancer.Prelude.{
  ℕ, zero, suc, ◌≤◌, refl, arith, Bool, true, false, List, [], ◌∷◌, ◌++◌, Text, All,
}
use azoth_balancer.Locks.{
  endpoints, rate_limiters, client, health_check_interval_secs, health_check_timeout_secs,
  base_cooldown_secs, max_cooldown_secs, max_batch_size, latency_smoothing_factor, config_path,
  connect_timeout_ms, timeout_secs, pool_idle_timeout_secs, pool_max_idle_per_host, limiter, read,
  write, guarded, read_field, lock_limiters, cooldown_calls, clone_clients, read_factors,
  compare_calls, client_calls, read_timeouts, install_calls, Section, check_batch_size,
  clone_client, read_interval, read_path, update_gauges, count_healthy, select, mark,
  update_outcome, start_round, end_round, reload, calls, select_calls, mark_calls, outcome_calls,
  start_round_calls, end_round_calls, reload_calls,
}
use azoth_balancer.Locks.Threads.{rank, all_calls}
use azoth_balancer.Locks.Nesting.{
  Nested, Under, Under-nil, Under-append, Under-guarded, Under-field, Fields, take_fields,
  Under-take_fields,
}

-- The loops.
Under-lock_limiters : (k : ℕ) (urls : List Text) → k ≤ 14 → Under k (lock_limiters urls)
unfolding lock_limiters rank
Under-lock_limiters k [] le = Under-nil k
Under-lock_limiters k (url ∷ urls) le =
    Under-append k (guarded write (limiter url) []) (lock_limiters urls)
      (Under-field k write (limiter url) le) (Under-lock_limiters k urls le)

Under-clone_clients : (k n : ℕ) → k ≤ 2 → Under k (clone_clients n)
unfolding clone_clients rank
Under-clone_clients k zero le = Under-nil k
Under-clone_clients k (suc n) le =
    Under-append k (read_field client) (clone_clients n) (Under-field k read client le)
      (Under-clone_clients k n le)

Under-read_factors : (k n : ℕ) → k ≤ 8 → Under k (read_factors n)
unfolding read_factors rank
Under-read_factors k zero le = Under-nil k
Under-read_factors k (suc n) le =
    Under-append k (read_field latency_smoothing_factor) (read_factors n)
      (Under-field k read latency_smoothing_factor le) (Under-read_factors k n le)

Under-read_timeouts : (k n : ℕ) → k ≤ 11 → Under k (read_timeouts n)
unfolding read_timeouts rank
Under-read_timeouts k zero le = Under-nil k
Under-read_timeouts k (suc n) le =
    Under-append k (read_field timeout_secs) (read_timeouts n) (Under-field k read timeout_secs le)
      (Under-read_timeouts k n le)

Under-mark : (cools : Bool) → Under 0 (mark_calls cools)
unfolding mark_calls cooldown_calls rank
Under-mark true = Under-guarded 0 write endpoints cooldown_calls (omega arith) (
    Under-guarded 1 read base_cooldown_secs (guarded read max_cooldown_secs []) (omega arith)
      (Under-field 6 read max_cooldown_secs (omega arith)))
Under-mark false = Under-field 0 write endpoints (omega arith)

Under-select : (tried : List Text) → Under 0 (select_calls tried)
unfolding select_calls rank
Under-select tried =
    Under-guarded 0 read endpoints (guarded read rate_limiters (lock_limiters tried)) (omega arith)
      (Under-guarded 1 read rate_limiters (lock_limiters tried) (omega arith)
        (Under-lock_limiters 2 tried (omega arith)))

Under-outcome : (found timed_out : Bool) → Under 0 (outcome_calls found timed_out)
unfolding outcome_calls rank
Under-outcome false timed_out = Under-field 0 read endpoints (omega arith)
Under-outcome true false =
    Under-guarded 0 read endpoints (read_field latency_smoothing_factor) (omega arith)
      (Under-field 1 read latency_smoothing_factor (omega arith))
Under-outcome true true =
    let fs : Fields = (read, latency_smoothing_factor) ∷ (read, timeout_secs) ∷ [] in
    Under-guarded 0 read endpoints (take_fields fs) (omega arith)
      (Under-take_fields 1 fs (omega arith))

Under-start_round : (urls : ℕ) → Under 0 (start_round_calls urls)
unfolding start_round_calls rank
Under-start_round urls =
    Under-append 0 (read_field endpoints)
      (read_field health_check_timeout_secs ++ clone_clients urls)
      (Under-field 0 read endpoints (omega arith))
      (Under-append 0 (read_field health_check_timeout_secs) (clone_clients urls)
        (Under-field 0 read health_check_timeout_secs (omega arith))
        (Under-clone_clients 0 urls (omega arith)))

Under-end_round : (failures : ℕ) → Under 0 (end_round_calls failures)
unfolding end_round_calls rank
Under-end_round failures =
    Under-guarded 0 write endpoints
      (read_field base_cooldown_secs ++ (read_field max_cooldown_secs ++ read_factors failures))
      (omega arith)
      (Under-append 1 (read_field base_cooldown_secs)
        (read_field max_cooldown_secs ++ read_factors failures)
        (Under-field 1 read base_cooldown_secs (omega arith))
        (Under-append 1 (read_field max_cooldown_secs) (read_factors failures)
          (Under-field 1 read max_cooldown_secs (omega arith))
          (Under-read_factors 1 failures (omega arith))))

Under-compared :
    (fs : Fields)
    → All (λ f. 11 ≤ rank f.1) fs
    → Under 0 (guarded read connect_timeout_ms (take_fields fs))
unfolding rank
Under-compared fs h =
    Under-guarded 0 read connect_timeout_ms (take_fields fs) (omega arith)
      (Under-take_fields 11 fs h)

Under-compare : (more : ℕ) → Under 0 (compare_calls more)
unfolding compare_calls rank
Under-compare zero = Under-compared [] tt
Under-compare (suc zero) = Under-compared ((read, timeout_secs) ∷ []) (omega arith)
Under-compare (suc (suc zero)) =
    Under-compared ((read, timeout_secs) ∷ (read, pool_idle_timeout_secs) ∷ []) (omega arith)
Under-compare (suc (suc (suc n))) =
    Under-compared
      ((read, timeout_secs) ∷ (read, pool_idle_timeout_secs) ∷ (read, pool_max_idle_per_host) ∷ [])
      (omega arith)

Under-client : (changed : Bool) → Under 0 (client_calls changed)
unfolding client_calls rank
Under-client false = Under-nil 0
Under-client true =
    Under-take_fields 0
      ((write, client)
        ∷ (write, connect_timeout_ms)
        ∷ (write, timeout_secs)
        ∷ (write, pool_idle_timeout_secs)
        ∷ (write, pool_max_idle_per_host)
        ∷ [])
      (omega arith)

Under-install : Under 0 install_calls
unfolding install_calls rank
Under-install =
    Under-take_fields 0
      ((write, endpoints)
        ∷ (write, rate_limiters)
        ∷ (write, max_batch_size)
        ∷ (write, base_cooldown_secs)
        ∷ (write, max_cooldown_secs)
        ∷ (write, health_check_interval_secs)
        ∷ (write, health_check_timeout_secs)
        ∷ (write, latency_smoothing_factor)
        ∷ (read, endpoints)
        ∷ [])
      (omega arith)

-- The guards under which a reload builds the new endpoints.
Under-build :
    (added : ℕ)
    → Under 0 (guarded read endpoints (guarded read rate_limiters (read_timeouts added)))
unfolding rank
Under-build added =
    Under-guarded 0 read endpoints (guarded read rate_limiters (read_timeouts added)) (omega arith)
      (Under-guarded 1 read rate_limiters (read_timeouts added) (omega arith)
        (Under-read_timeouts 2 added (omega arith)))

Under-reload : (more : ℕ) (changed : Bool) (added : ℕ) → Under 0 (reload_calls more changed added)
unfolding reload_calls rank
Under-reload more changed added =
    let build = guarded read endpoints (guarded read rate_limiters (read_timeouts added)) in
    let read_them = read_field endpoints ++ (build ++ install_calls) in
    Under-append 0 (read_field config_path)
      (compare_calls more ++ (client_calls changed ++ read_them))
      (Under-field 0 read config_path (omega arith))
      (Under-append 0 (compare_calls more) (client_calls changed ++ read_them) (Under-compare more)
        (Under-append 0 (client_calls changed) read_them (Under-client changed) (
          Under-append 0 (read_field endpoints) (build ++ install_calls)
            (Under-field 0 read endpoints (omega arith))
            (Under-append 0 build install_calls (Under-build added) Under-install))))

Under-calls : (s : Section) → Under 0 (calls s)
unfolding calls rank
Under-calls check_batch_size = Under-field 0 read max_batch_size (omega arith)
Under-calls clone_client = Under-field 0 read client (omega arith)
Under-calls read_interval = Under-field 0 read health_check_interval_secs (omega arith)
Under-calls read_path = Under-field 0 read config_path (omega arith)
Under-calls update_gauges = Under-field 0 read endpoints (omega arith)
Under-calls count_healthy = Under-field 0 read endpoints (omega arith)
Under-calls (select tried) = Under-select tried
Under-calls (mark cools) = Under-mark cools
Under-calls (update_outcome found timed_out) = Under-outcome found timed_out
Under-calls (start_round urls) = Under-start_round urls
Under-calls (end_round failures) = Under-end_round failures
Under-calls (reload more changed added) = Under-reload more changed added

-- A thread that runs sections nests its guards.
pub spawn-Nested : (ss : List Section) → Nested [] (all_calls ss)
spawn-Nested [] = refl
spawn-Nested (s ∷ ss) = Under-calls s [] (all_calls ss) tt (spawn-Nested ss)

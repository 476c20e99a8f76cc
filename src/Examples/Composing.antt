-- ===== src/Examples/Composing.antt =====
-- Runs of several tasks and the background tasks, at concrete states.
use azoth_balancer.Prelude.{
  inl, ℕ, ◌+◌, ◌≤◌, ◌≡◌, ◌↔◌, refl, true, false, List, [], ◌∷◌, none, some, codes, Sat, Result,
}
use azoth_balancer.Background.{live, panicked, waiting, start_checker, poll_checker}
use azoth_balancer.Background.Interval.{AtInterval, Timed, checker-interval}
use azoth_balancer.Background.Signal.{IsEnded}
use azoth_balancer.Forwarder.{response, send_error}
use azoth_balancer.Refinement.{view, moves}
use azoth_balancer.Refinement.Simulation.{run-refines}
use azoth_balancer.Refinement.Observing.{observe, run_moves}
use azoth_balancer.Config.Finalize.{not_found}
use azoth_balancer.Server.Request.{connection_lost, permit_free, response_in, body_in}
use azoth_balancer.System.{
  Step, request_arrives, reload_begins, reload_ends, request_advances, checker_wakes, round_ends,
  updater_wakes, signal_sent, start, run,
}
use azoth_balancer.Metrics.{gauge_moves}
use azoth_balancer.System.Gauge.{pending_all, run-gauge}
use azoth_balancer.System.Permits.{in_flight, run-permits}
use azoth_balancer.System.Ending.{run-signalled_ends}
use azoth_balancer.Examples.{
  all_build, pairs, periods, periods-Documented, tenths, tokens, tokens-RefusalKeeps, http, url_a,
  url_b, two_endpoints,
}
use azoth_balancer.Server.{Environment, handle_rpc}
use azoth_balancer.Server.Handled.{handle_rpc-Inv}
use azoth_balancer.Balancer.Invariant.{Inv}
use azoth_balancer.Examples.Running.{two_endpoints-Inv}

-- Three requests overlap with a round of health checks and with a reload of the defaults; the network fails the first of them, and
-- the client of the last one goes away.
abbrev overlapping : List (Step ℕ)
overlapping =
    request_arrives (codes "[{},{}]")
    ∷ request_arrives (codes "[{},{}]")
    ∷ request_arrives (codes "[{},{}]")
    ∷ checker_wakes true
    ∷ request_advances 0 (permit_free 5 9)
    ∷ request_advances 1 (permit_free 6 9)
    ∷ reload_begins all_build (λ path. not_found) (λ raw. Result.err raw) 6
    ∷ request_advances 0 (response_in 40 7 (send_error false (codes "refused")))
    ∷ round_ends 8 ((url_b, some (response 200)) ∷ (url_a, none) ∷ [])
    ∷ reload_ends 8
    ∷ request_advances 2 (permit_free 8 9)
    ∷ request_advances 2 connection_lost
    ∷ request_advances 1 (response_in 40 9 (response 200))
    ∷ request_advances 1 (body_in 10 (Result.ok (codes "[]")))
    ∷ []

run-refines_example :
    Sat (run tenths tokens http pairs periods overlapping (start periods two_endpoints)) (λ s.
      observe s
      ≡ moves
          (run_moves tenths tokens http pairs periods overlapping (start periods two_endpoints))
          (record { served = view two_endpoints.endpoints; coming = none }))
run-refines_example =
    run-refines tenths tokens tokens-RefusalKeeps http pairs periods two_endpoints two_endpoints-Inv
      overlapping

run-permits_example :
    Sat
      (run tenths tokens http pairs periods overlapping (start periods two_endpoints))
      (λ s. s.permits + in_flight s.requests ≡ 100)
run-permits_example =
    run-permits tenths tokens tokens-RefusalKeeps http pairs periods two_endpoints two_endpoints-Inv
      overlapping

run-gauge_example :
    Sat (run tenths tokens http pairs periods overlapping (start periods two_endpoints)) (λ s.
      (gauge_moves s.balancer.registry).0
      ≡ (gauge_moves s.balancer.registry).1 + pending_all s.requests)
unfolding gauge_moves
run-gauge_example =
    run-gauge tenths tokens tokens-RefusalKeeps http pairs periods two_endpoints two_endpoints-Inv
      refl overlapping

-- The signal comes while a round is under way.
abbrev ending : List (Step ℕ)
ending =
    checker_wakes true
    ∷ signal_sent
    ∷ checker_wakes false
    ∷ updater_wakes true 9
    ∷ round_ends 9 []
    ∷ checker_wakes true
    ∷ []

run-signalled_ends_example :
    Sat
      (run tenths tokens http pairs periods ending (start periods two_endpoints))
      (λ s. IsEnded s.checker × IsEnded s.updater)
run-signalled_ends_example =
    run-signalled_ends tenths tokens tokens-RefusalKeeps http pairs periods two_endpoints
      two_endpoints-Inv ending (tt, tt)

-- A request whose response has status 500.
abbrev failing : Environment
failing = record {
  permit = true;
  now = 5;
  unix_secs = 9;
  elapsed_ms = 40;
  sent = response 500;
  body = Result.ok [];
}

handle_rpc-Inv_example :
    Inv (handle_rpc tenths tokens http pairs two_endpoints failing (codes "[{},{}]")).1
    × (gauge_moves
          (handle_rpc tenths tokens http pairs two_endpoints failing (codes "[{},{}]")).1.registry
        ≡ ((gauge_moves two_endpoints.registry).0 + 1, (gauge_moves two_endpoints.registry).1 + 1))
handle_rpc-Inv_example =
    handle_rpc-Inv tenths tokens tokens-RefusalKeeps http pairs two_endpoints failing
      (codes "[{},{}]") two_endpoints-Inv

-- The interval is 30 s now, and the task runs at 20 s.
checker-interval_example :
    (start_checker periods two_endpoints ≡ panicked
      ↔ (two_endpoints.health_check_interval_secs ≡ 0))
    × (poll_checker periods two_endpoints false true (live (waiting 20 20)) ≡ panicked
        ↔ (two_endpoints.health_check_interval_secs ≡ 0))
    × (1 ≤ two_endpoints.health_check_interval_secs
        → AtInterval two_endpoints
            (poll_checker periods two_endpoints false true (live (waiting 20 20)))
          × Timed periods (poll_checker periods two_endpoints false true (live (waiting 20 20))))
checker-interval_example =
    checker-interval periods periods-Documented two_endpoints 20 20 (20, refl, inl refl)

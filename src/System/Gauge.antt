-- ===== src/System/Gauge.antt =====
-- The gauge of active requests in a run.
use azoth_balancer.Prelude.{
  ℕ, zero, suc, ◌+◌, ◌≡◌, refl, ap, arith, List, [], ◌∷◌, ◌++◌, some, nth, set_nth, Sat,
  Option-cases, inl, inr, Bool, Option, none, Text, Result,
}
use azoth_balancer.Float.{Float}
use azoth_balancer.Limiter.{RateLimiter, RefusalKeeps}
use azoth_balancer.Metrics.{gauge_moves}
use azoth_balancer.Balancer.{Client, LoadBalancer}
use azoth_balancer.Balancer.Invariant.{Inv}
use azoth_balancer.Background.{
  Timer, Task, live, exited, panicked, aborted, Branch, on_shutdown, on_tick, no_branch, Checker,
  waiting, checking, Answer, end_round, updater_branch, poll_updater, select,
}
use azoth_balancer.Forwarder.{StatusCodes}
use azoth_balancer.Gauge.{moves-perform_health_checks, moves-cooldown_tick}
use azoth_balancer.Gauge.Requests.{pending, settled-arrive, settled-advance}
use azoth_balancer.Reload.Phases.{Pending}
use azoth_balancer.Reload.Begun.{begin_reload-safe}
use azoth_balancer.Reload.Finished.{finish_reload-moves}
use azoth_balancer.Config.{Config}
use azoth_balancer.Config.Finalize.{FileRead}
use azoth_balancer.Server.{Json}
use azoth_balancer.Server.Request.{Request, Input, advance, arrive}
use azoth_balancer.System.{
  System, start, Step, request_arrives, request_advances, reload_begins, reload_ends, checker_wakes,
  round_ends, updater_wakes, signal_sent, tasks_aborted, advance_at, begin_at, end_at, reload_begun,
  step, run,
}
use azoth_balancer.System.Safe.{InvHolds}
use azoth_balancer.System.Runs.{run-keeps}

-- How many handlers still wait.
abbrev pub pending_all : {J : Type 0} → List (Request J) → ℕ
pending_all [] = 0
pending_all (request ∷ requests) = pending request + pending_all requests

module _ {J : Type 0} where
  pending_all-append :
      (requests : List (Request J)) (request : Request J)
      → pending_all (requests ++ request ∷ []) ≡ pending_all requests + pending request
  pending_all-append [] request = omega arith
  pending_all-append (r ∷ requests) request = omega (arith, pending_all-append requests request)

  pending_all-set_nth :
      (place : ℕ) (requests : List (Request J)) (old new : Request J)
      → nth place requests ≡ some old
      → pending_all (set_nth place new requests) + pending old ≡ pending_all requests + pending new
  pending_all-set_nth place [] old new h = cc h
  pending_all-set_nth zero (r ∷ requests) old new h =
      let e : pending r ≡ pending old = cc h in omega (arith, e)
  pending_all-set_nth (suc place) (r ∷ requests) old new h =
      omega (arith, pending_all-set_nth place requests old new h)

-- The gauge is at the number of handlers that still wait.
abbrev pub GaugeAgrees : {F L J T : Type 0} → System F L J T → Type 0
GaugeAgrees s =
    (gauge_moves s.balancer.registry).0
    ≡ (gauge_moves s.balancer.registry).1 + pending_all s.requests

moves-end_round :
    {F L T : Type 0} (fl : Float F) (sc : StatusCodes) (b : LoadBalancer F L) (now : ℕ)
    (answers : List Answer) (task : Task (Checker T))
    → gauge_moves (end_round fl sc b now answers task).1.registry ≡ gauge_moves b.registry
unfolding end_round
moves-end_round fl sc b now answers (live (checking current_interval ticker timeout_secs)) =
    moves-perform_health_checks fl sc b timeout_secs now answers
moves-end_round fl sc b now answers (live (waiting current_interval ticker)) = refl
moves-end_round fl sc b now answers exited = refl
moves-end_round fl sc b now answers panicked = refl
moves-end_round fl sc b now answers aborted = refl

module _ {F L : Type 0} (b : LoadBalancer F L) (now : ℕ) where
  moves-updater_branch :
      (branch : Branch)
      → gauge_moves (updater_branch b now branch).1.registry ≡ gauge_moves b.registry
  unfolding updater_branch
  moves-updater_branch on_shutdown = refl
  moves-updater_branch on_tick = moves-cooldown_tick b now
  moves-updater_branch no_branch = refl

  moves-poll_updater :
      (signalled ticked : Bool) (task : Task (Unit {0}))
      → gauge_moves (poll_updater b signalled ticked now task).1.registry ≡ gauge_moves b.registry
  unfolding poll_updater
  moves-poll_updater signalled ticked (live s) = moves-updater_branch (select signalled ticked)
  moves-poll_updater signalled ticked exited = refl
  moves-poll_updater signalled ticked panicked = refl
  moves-poll_updater signalled ticked aborted = refl

module _ {F L J T : Type 0} (fl : Float F) (rl : RateLimiter L) (sc : StatusCodes) (json : Json J)
    (timer : Timer T) where
  -- A turn that moves the gauge as it changes the request at its place.
  advance_at-GaugeAgrees :
      (s : System F L J T) (place : ℕ) (input : Input)
      → GaugeAgrees s
      → GaugeAgrees (advance_at fl rl sc json timer s place input (nth place s.requests))
  unfolding advance_at
  advance_at-GaugeAgrees s place input h = elim (Option-cases (nth place s.requests)) [
    | inl nothing ↦ rw (nothing, advance_at) h
    | inr (request, found) ↦
        let t = advance fl rl sc json s.balancer s.permits request input in
        let moved = settled-advance fl rl sc json s.balancer s.permits request input in
        rw (found, advance_at)
          (omega (
            arith,
            h,
            ap (λ m. m.0) moved,
            ap (λ m. m.1) moved,
            pending_all-set_nth place s.requests request t.request found,
          ))
  ]

  begin_at-GaugeAgrees :
      (can_build : Client → Bool) (read_to_string : Text → FileRead)
      (from_toml : Text → Result Text (Config F)) (now : ℕ) (s : System F L J T)
      (reloading : Option (Pending F L))
      → InvHolds s
      → GaugeAgrees s
      → Sat
          (begin_at fl rl sc json timer can_build read_to_string from_toml now s reloading)
          GaugeAgrees
  unfolding begin_at reload_begun
  begin_at-GaugeAgrees can_build read_to_string from_toml now s (some p) inv h = h
  begin_at-GaugeAgrees can_build read_to_string from_toml now s none inv h =
      elim (begin_reload-safe fl rl can_build s.balancer now read_to_string from_toml inv.0) [
        | inl (e, failed) ↦ rw (failed, begin_at) h
        | inr (p, b', done, begun) ↦ rw (done, begin_at) (rw begun.quiet h)
      ]

  end_at-GaugeAgrees :
      (now : ℕ) (s : System F L J T) (reloading : Option (Pending F L))
      → GaugeAgrees s
      → GaugeAgrees (end_at fl rl sc json timer now s reloading)
  unfolding end_at
  end_at-GaugeAgrees now s none h = h
  end_at-GaugeAgrees now s (some p) h = rw (finish_reload-moves s.balancer p now) h

  step-GaugeAgrees :
      (t : Step F) (s : System F L J T)
      → InvHolds s
      → GaugeAgrees s
      → Sat (step fl rl sc json timer t s) GaugeAgrees
  unfolding step
  step-GaugeAgrees (request_arrives body) s inv h =
      let request = (arrive {J = J} s.balancer body).0 in
      let moved = settled-arrive J s.balancer body in
      omega
        (arith, h, ap (λ m. m.0) moved, ap (λ m. m.1) moved, pending_all-append s.requests request)
  step-GaugeAgrees (request_advances place input) s inv h = advance_at-GaugeAgrees s place input h
  step-GaugeAgrees (reload_begins can_build read_to_string from_toml now) s inv h =
      begin_at-GaugeAgrees can_build read_to_string from_toml now s s.reloading inv h
  step-GaugeAgrees (reload_ends now) s inv h = end_at-GaugeAgrees now s s.reloading h
  step-GaugeAgrees (checker_wakes ticked) s inv h = h
  step-GaugeAgrees (round_ends now answers) s inv h =
      rw (moves-end_round fl sc s.balancer now answers s.checker) h
  step-GaugeAgrees (updater_wakes ticked now) s inv h =
      rw (moves-poll_updater s.balancer now s.signalled ticked s.updater) h
  step-GaugeAgrees signal_sent s inv h = h
  step-GaugeAgrees tasks_aborted s inv h = h

module _ {F L J T : Type 0} (fl : Float F) (rl : RateLimiter L) (keeps : RefusalKeeps rl)
    (sc : StatusCodes) (json : Json J) (timer : Timer T) where
  -- From a start with the invariant, at which the gauge of active requests is at zero, and with a
  -- limiter that takes nothing on a refusal, any run goes through, and after it that gauge is at
  -- the number of requests whose handler still waits, be the others answered or dropped with their
  -- connection: it went up that much more often than down.
  pub run-gauge :
      (b : LoadBalancer F L)
      → Inv b
      → (gauge_moves b.registry).0 ≡ (gauge_moves b.registry).1
      → (steps : List (Step F))
      → Sat (run fl rl sc json timer steps (start timer b)) (λ s.
        (gauge_moves s.balancer.registry).0
        ≡ (gauge_moves s.balancer.registry).1 + pending_all s.requests)
  unfolding start
  run-gauge b inv zero_first steps =
      run-keeps fl rl keeps sc json timer GaugeAgrees (step-GaugeAgrees fl rl sc json timer) steps
        (start timer b) (inv, tt) (omega (arith, zero_first))

-- ===== src/System/Ending.antt =====
-- The end of the background tasks in a run, once the shutdown signal is sent.
use azoth_balancer.Prelude.{◌≡◌, true, List, Sat, Sat-both, Sat-mono, Given}
use azoth_balancer.Float.{Float}
use azoth_balancer.Limiter.{RateLimiter, RefusalKeeps}
use azoth_balancer.Balancer.{LoadBalancer}
use azoth_balancer.Balancer.Invariant.{Inv}
use azoth_balancer.Background.{Timer}
use azoth_balancer.Background.Signal.{IsEnded, IsResting}
use azoth_balancer.Forwarder.{StatusCodes}
use azoth_balancer.Server.{Json}
use azoth_balancer.System.{System, start, Step, step, run}
use azoth_balancer.System.Safe.{InvHolds}
use azoth_balancer.System.Runs.{after_first, run-keeps, run-then}
use azoth_balancer.System.Moves.{
  is_signal, is_round_end, is_checker_wake, is_updater_wake, Moved, step-Moved,
}

module _ {F L J T : Type 0} (fl : Float F) (rl : RateLimiter L) (keeps : RefusalKeeps rl)
    (sc : StatusCodes) (json : Json J) (timer : Timer T) where
  abbrev moves :
      (t : Step F) (s : System F L J T)
      → InvHolds s
      → (Q : System F L J T → Type 0) → ((s' : System F L J T) → Moved t s s' → Q s')
      → Sat (step fl rl sc json timer t s) Q
  moves t s inv Q f =
      Sat-mono (Moved t s) Q (step fl rl sc json timer t s)
        (step-Moved fl rl keeps sc json timer t s inv) f

  -- A task that ended does so for the rest of the run.
  run-IsEnded :
      (steps : List (Step F)) (s : System F L J T)
      → InvHolds s
      → IsEnded s.checker
      → Sat (run fl rl sc json timer steps s) (λ s'. IsEnded s'.checker)
  run-IsEnded steps s inv h =
      run-keeps fl rl keeps sc json timer (λ s'. IsEnded s'.checker)
        (λ t s0 inv0 h0. moves t s0 inv0 _ (λ s' m. m.keeps_ended h0)) steps s inv h

  run-IsEnded_updater :
      (steps : List (Step F)) (s : System F L J T)
      → InvHolds s
      → IsEnded s.updater
      → Sat (run fl rl sc json timer steps s) (λ s'. IsEnded s'.updater)
  run-IsEnded_updater steps s inv h =
      run-keeps fl rl keeps sc json timer (λ s'. IsEnded s'.updater)
        (λ t s0 inv0 h0. moves t s0 inv0 _ (λ s' m. m.keeps_updater_ended h0)) steps s inv h

  -- After the signal a checker with no round under way exits when it wakes.
  resting-run :
      (steps : List (Step F)) (s : System F L J T)
      → InvHolds s
      → (s.signalled ≡ true) × IsResting s.checker
      → Given (after_first is_checker_wake steps)
      → Sat (run fl rl sc json timer steps s) (λ s'. IsEnded s'.checker)
  resting-run =
      run-then fl rl keeps sc json timer is_checker_wake
        (λ s. (s.signalled ≡ true) × IsResting s.checker) (λ s. IsEnded s.checker)
        (λ s. IsEnded s.checker) (λ rest. Unit)
        (λ t s inv h. moves t s inv _ (λ s' m. (m.keeps_signal h.0, m.keeps_resting h.0 h.1)))
        (λ t s here inv h. moves t s inv _ (λ s' m. m.exits here h.0 h.1))
        (λ rest s inv h g. run-IsEnded rest s inv h)

  checker-run :
      (steps : List (Step F)) (s : System F L J T)
      → InvHolds s
      → s.signalled ≡ true
      → Sat (after_first is_round_end steps) (λ rest. Given (after_first is_checker_wake rest))
      → Sat (run fl rl sc json timer steps s) (λ s'. IsEnded s'.checker)
  checker-run =
      run-then fl rl keeps sc json timer is_round_end (λ s. s.signalled ≡ true)
        (λ s. (s.signalled ≡ true) × IsResting s.checker) (λ s. IsEnded s.checker)
        (λ rest. Given (after_first is_checker_wake rest))
        (λ t s inv h. moves t s inv _ (λ s' m. m.keeps_signal h))
        (λ t s here inv h. moves t s inv _ (λ s' m. (m.keeps_signal h, m.rests here))) resting-run

  updater-run :
      (steps : List (Step F)) (s : System F L J T)
      → InvHolds s
      → s.signalled ≡ true
      → Given (after_first is_updater_wake steps)
      → Sat (run fl rl sc json timer steps s) (λ s'. IsEnded s'.updater)
  updater-run =
      run-then fl rl keeps sc json timer is_updater_wake (λ s. s.signalled ≡ true)
        (λ s. IsEnded s.updater) (λ s. IsEnded s.updater) (λ rest. Unit)
        (λ t s inv h. moves t s inv _ (λ s' m. m.keeps_signal h))
        (λ t s here inv h. moves t s inv _ (λ s' m. m.updater_exits here h))
        (λ rest s inv h g. run-IsEnded_updater rest s inv h)

-- What the tasks need after the signal: the updater wakes once, and so does the checker after the
-- end of a round.
abbrev pub Attended : {F : Type 0} → List (Step F) → Type 0
Attended steps =
    Given (after_first is_updater_wake steps)
    × Sat (after_first is_round_end steps) (λ rest. Given (after_first is_checker_wake rest))

module _ {F L J T : Type 0} (fl : Float F) (rl : RateLimiter L) (keeps : RefusalKeeps rl)
    (sc : StatusCodes) (json : Json J) (timer : Timer T) where
  -- From a start with the invariant, and with a limiter that takes nothing on a refusal, every run
  -- in which the shutdown signal is sent, and after it the updater wakes, a round of health checks
  -- gets its results, and the checker wakes after that, goes through and leaves both background
  -- tasks ended, whatever else happens before, between and after.
  pub run-signalled_ends :
      (b : LoadBalancer F L)
      → Inv b
      → (steps : List (Step F)) → Sat (after_first is_signal steps) Attended
      → Sat
          (run fl rl sc json timer steps (start timer b))
          (λ s. IsEnded s.checker × IsEnded s.updater)
  unfolding start
  run-signalled_ends b inv steps sent =
      run-then fl rl keeps sc json timer is_signal (λ s. Unit) (λ s. s.signalled ≡ true)
        (λ s. IsEnded s.checker × IsEnded s.updater) Attended
        (λ t s safe h. moves fl rl keeps sc json timer t s safe _ (λ s' m. tt))
        (λ t s here safe h. moves fl rl keeps sc json timer t s safe _ (λ s' m. m.sends here))
        (λ rest s safe h attended.
          Sat-both _ _ _ (checker-run fl rl keeps sc json timer rest s safe h attended.1)
            (updater-run fl rl keeps sc json timer rest s safe h attended.0))
        steps (start timer b) (inv, tt) tt sent

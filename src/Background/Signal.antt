-- ===== src/Background/Signal.antt =====
-- The background tasks and the shutdown signal.
use azoth_balancer.Prelude.{ℕ, Bool, true, List}
use azoth_balancer.Float.{Float}
use azoth_balancer.Balancer.{LoadBalancer}
use azoth_balancer.Forwarder.{StatusCodes}
use azoth_balancer.Background.{
  Timer, Task, live, exited, panicked, aborted, Checker, waiting, checking, Answer, select,
  poll_checker, end_round, poll_updater, abort, on_branch, updater_branch,
}

-- The task runs no more.
abbrev pub IsEnded : {S : Type 0} → Task S → Type 0
IsEnded (live s) = ⊥
IsEnded exited = Unit
IsEnded panicked = Unit
IsEnded aborted = Unit

-- No round of health checks is under way.
abbrev pub IsResting : {T : Type 0} → Task (Checker T) → Type 0
IsResting (live (waiting current_interval ticker)) = Unit
IsResting (live (checking current_interval ticker timeout_secs)) = ⊥
IsResting exited = Unit
IsResting panicked = Unit
IsResting aborted = Unit

pub abort-IsEnded : {S : Type 0} (task : Task S) → IsEnded (abort task)
unfolding abort
abort-IsEnded (live s) = tt
abort-IsEnded exited = tt
abort-IsEnded panicked = tt
abort-IsEnded aborted = tt

pub abort-IsResting : {T : Type 0} (task : Task (Checker T)) → IsResting (abort task)
unfolding abort
abort-IsResting (live s) = tt
abort-IsResting exited = tt
abort-IsResting panicked = tt
abort-IsResting aborted = tt

module _ {F L T : Type 0} (timer : Timer T) (b : LoadBalancer F L) where
  -- At the signal the health checker exits, unless a round is under way.
  pub poll_checker-exits :
      (ticked : Bool) (task : Task (Checker T))
      → IsResting task
      → IsEnded (poll_checker timer b true ticked task)
  unfolding poll_checker on_branch select
  poll_checker-exits ticked (live (waiting current_interval ticker)) h = tt
  poll_checker-exits ticked (live (checking current_interval ticker timeout_secs)) h = h
  poll_checker-exits ticked exited h = tt
  poll_checker-exits ticked panicked h = tt
  poll_checker-exits ticked aborted h = tt

  pub poll_checker-IsResting :
      (ticked : Bool) (task : Task (Checker T))
      → IsResting task
      → IsResting (poll_checker timer b true ticked task)
  unfolding poll_checker on_branch select
  poll_checker-IsResting ticked (live (waiting current_interval ticker)) h = tt
  poll_checker-IsResting ticked (live (checking current_interval ticker timeout_secs)) h = h
  poll_checker-IsResting ticked exited h = tt
  poll_checker-IsResting ticked panicked h = tt
  poll_checker-IsResting ticked aborted h = tt

  pub poll_checker-IsEnded :
      (signalled ticked : Bool) (task : Task (Checker T))
      → IsEnded task
      → IsEnded (poll_checker timer b signalled ticked task)
  unfolding poll_checker
  poll_checker-IsEnded signalled ticked (live s) h = elim h [ ]
  poll_checker-IsEnded signalled ticked exited h = tt
  poll_checker-IsEnded signalled ticked panicked h = tt
  poll_checker-IsEnded signalled ticked aborted h = tt

module _ {F L T : Type 0} (fl : Float F) (sc : StatusCodes) (b : LoadBalancer F L) (now : ℕ)
    (answers : List Answer) where
  pub end_round-IsResting :
      (task : Task (Checker T)) → IsResting (end_round fl sc b now answers task).0
  unfolding end_round
  end_round-IsResting (live (waiting current_interval ticker)) = tt
  end_round-IsResting (live (checking current_interval ticker timeout_secs)) = tt
  end_round-IsResting exited = tt
  end_round-IsResting panicked = tt
  end_round-IsResting aborted = tt

  pub end_round-IsEnded :
      (task : Task (Checker T)) → IsEnded task → IsEnded (end_round fl sc b now answers task).0
  unfolding end_round
  end_round-IsEnded (live s) h = elim h [ ]
  end_round-IsEnded exited h = tt
  end_round-IsEnded panicked h = tt
  end_round-IsEnded aborted h = tt

module _ {F L : Type 0} (b : LoadBalancer F L) (ticked : Bool) (now : ℕ) where
  -- At the signal the gauge updater exits, and writes no gauge.
  pub poll_updater-exits :
      (task : Task (Unit {0})) → IsEnded (poll_updater b true ticked now task).0
  unfolding poll_updater updater_branch select
  poll_updater-exits (live s) = tt
  poll_updater-exits exited = tt
  poll_updater-exits panicked = tt
  poll_updater-exits aborted = tt

  pub poll_updater-IsEnded :
      (signalled : Bool) (task : Task (Unit {0}))
      → IsEnded task
      → IsEnded (poll_updater b signalled ticked now task).0
  unfolding poll_updater
  poll_updater-IsEnded signalled (live s) h = elim h [ ]
  poll_updater-IsEnded signalled exited h = tt
  poll_updater-IsEnded signalled panicked h = tt
  poll_updater-IsEnded signalled aborted h = tt

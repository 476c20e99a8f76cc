-- ===== src/Background/Kept.antt =====
-- The steps of the background tasks and the invariant of the balancer.
use azoth_balancer.Prelude.{ℕ, refl, Bool, List}
use azoth_balancer.Float.{Float}
use azoth_balancer.Balancer.{LoadBalancer}
use azoth_balancer.Balancer.Invariant.{Inv, Inv-endpoints}
use azoth_balancer.Balancer.Kept.{cooldown_tick-Inv}
use azoth_balancer.Forwarder.{StatusCodes}
use azoth_balancer.Health.Outcome.{finish_health_checks-Inv}
use azoth_balancer.Background.{
  Task, live, exited, panicked, aborted, Branch, on_shutdown, on_tick, no_branch, Checker, waiting,
  checking, Answer, perform_health_checks, end_round, updater_branch, poll_updater, select,
}

module _ {F L T : Type 0} (fl : Float F) (sc : StatusCodes) (b : LoadBalancer F L) (inv : Inv b)
    (now : ℕ) where
  pub end_round-Inv :
      (answers : List Answer) (task : Task (Checker T)) → Inv (end_round fl sc b now answers task).1
  unfolding end_round perform_health_checks
  end_round-Inv answers (live (checking current_interval ticker timeout_secs)) =
      finish_health_checks-Inv fl timeout_secs now _ _ (Inv-endpoints b _ _ refl inv)
  end_round-Inv answers (live (waiting current_interval ticker)) = inv
  end_round-Inv answers exited = inv
  end_round-Inv answers panicked = inv
  end_round-Inv answers aborted = inv

module _ {F L : Type 0} (b : LoadBalancer F L) (inv : Inv b) (now : ℕ) where
  updater_branch-Inv : (branch : Branch) → Inv (updater_branch b now branch).1
  unfolding updater_branch
  updater_branch-Inv on_shutdown = inv
  updater_branch-Inv on_tick = cooldown_tick-Inv b inv now
  updater_branch-Inv no_branch = inv

  pub poll_updater-Inv :
      (signalled ticked : Bool) (task : Task (Unit {0}))
      → Inv (poll_updater b signalled ticked now task).1
  unfolding poll_updater
  poll_updater-Inv signalled ticked (live s) = updater_branch-Inv (select signalled ticked)
  poll_updater-Inv signalled ticked exited = inv
  poll_updater-Inv signalled ticked panicked = inv
  poll_updater-Inv signalled ticked aborted = inv

-- ===== src/Background.antt =====
-- The background tasks of src/utils/health.rs and src/utils/cooldown.rs: their loops, which wait
-- for the shutdown signal and for a timer, and their ends. The timer of tokio is an interface; when
-- it ticks is an argument, so its way with missed ticks has no counterpart.
pub mod Interval
pub mod Kept
pub mod Signal
use azoth_balancer.Prelude.{
  ℕ, Bool, true, false, List, [], ◌∷◌, map, Option, none, some, Text, ◌==◌, if◌then◌else◌,
}
use azoth_balancer.Float.{Float}
use azoth_balancer.Metrics.{Registry, observe, health_check_latency}
use azoth_balancer.Balancer.{LoadBalancer, cooldown_tick}
use azoth_balancer.Forwarder.{StatusCodes, Sent, response, send_error}
use azoth_balancer.Health.{finish_health_checks}

-- `tokio::time::interval` on a period in seconds; `none` is a panic.
pub record Timer (T : Type 0) : Type 0 where
  pub interval : ℕ → Option T
  -- `reset()`, at the present instant: the next tick is a period away
  pub reset : T → T

-- A task of the `JoinSet`: it runs, or it returned, panicked or was aborted.
pub data Task (S : Type 0) : Type 0 where
  live : S → Task S
  exited panicked aborted : Task S

-- The branch that `select!` takes. It is biased: the signal comes first.
pub data Branch : Type 0 where
  on_shutdown on_tick no_branch : Branch

unfoldable pub select : (signalled ticked : Bool) → Branch
select true ticked = on_shutdown
select false true = on_tick
select false false = no_branch

-- The health checker waits at its `select!`, or for the results of a round, whose timeout it read
-- at the start of the round.
pub data Checker (T : Type 0) : Type 0 where
  waiting : (current_interval : ℕ) (ticker : T) → Checker T
  checking : (current_interval : ℕ) (ticker : T) (timeout_secs : ℕ) → Checker T

-- One request of a round: `none` if the time was up before `send` returned.
abbrev pub Answer : Type 0
Answer = Text × Option Sent

module _ (sc : StatusCodes) where
  check_result : Option Sent → Bool
  check_result (some (response status)) = sc.is_success status
  check_result (some (send_error is_timeout message)) = false
  check_result none = false

  -- What the tasks of the round return.
  unfoldable pub check_results : List Answer → List (Text × Bool)
  unfolding check_result
  check_results [] = []
  check_results ((url, sent) ∷ answers) = (url, check_result sent) ∷ check_results answers

unfoldable pub observe_checks : List Answer → Registry → Registry
observe_checks [] registry = registry
observe_checks ((url, sent) ∷ answers) registry =
    observe_checks answers (observe health_check_latency url ∷ registry)

module _ {F L : Type 0} (fl : Float F) (sc : StatusCodes) where
  -- `perform_health_checks` with the answers of its requests.
  unfoldable pub perform_health_checks :
      LoadBalancer F L → (timeout_secs now : ℕ) → List Answer → LoadBalancer F L
  perform_health_checks b timeout_secs now answers =
      finish_health_checks fl (record b { registry = observe_checks answers b.registry })
        timeout_secs now (check_results sc answers)

module _ {F L T : Type 0} (timer : Timer T) where
  -- The first lines of `health_check_loop`.
  unfoldable pub start_checker : LoadBalancer F L → Task (Checker T)
  start_checker b = elim (timer.interval b.health_check_interval_secs) [
    | none ↦ panicked
    | some ticker ↦ live (waiting b.health_check_interval_secs ticker)
  ]

  -- The branch of the tick, up to the requests: a new interval gives a new timer.
  unfoldable pub checker_tick : LoadBalancer F L → ℕ → T → Task (Checker T)
  checker_tick b current_interval ticker =
      if b.health_check_interval_secs == current_interval
      then live (checking current_interval ticker b.health_check_timeout_secs)
      else elim (timer.interval b.health_check_interval_secs) [
        | none ↦ panicked
        | some ticker' ↦ live (
            checking b.health_check_interval_secs (timer.reset ticker') b.health_check_timeout_secs)
      ]

  on_branch : LoadBalancer F L → ℕ → T → Branch → Task (Checker T)
  on_branch b current_interval ticker on_shutdown = exited
  on_branch b current_interval ticker on_tick = checker_tick b current_interval ticker
  on_branch b current_interval ticker no_branch = live (waiting current_interval ticker)

  -- The task is woken. It looks at the signal only at its `select!`.
  unfoldable pub poll_checker :
      LoadBalancer F L → (signalled ticked : Bool) → Task (Checker T) → Task (Checker T)
  unfolding on_branch
  poll_checker b signalled ticked (live (waiting current_interval ticker)) =
      on_branch b current_interval ticker (select signalled ticked)
  poll_checker b signalled ticked task = task

module _ {F L T : Type 0} (fl : Float F) (sc : StatusCodes) where
  -- The end of a round, if one is under way.
  unfoldable pub end_round :
      LoadBalancer F L
      → (now : ℕ) → List Answer
      → Task (Checker T)
      → Task (Checker T) × LoadBalancer F L
  end_round b now answers (live (checking current_interval ticker timeout_secs)) = (
    live (waiting current_interval ticker),
    perform_health_checks fl sc b timeout_secs now answers,
  )
  end_round b now answers task = (task, b)

module _ {F L : Type 0} where
  unfoldable pub updater_branch : LoadBalancer F L → ℕ → Branch → Task (Unit {0}) × LoadBalancer F L
  updater_branch b now on_shutdown = (exited, b)
  updater_branch b now on_tick = (live tt, cooldown_tick b now)
  updater_branch b now no_branch = (live tt, b)

  -- `cooldown_gauge_updater` is woken.
  unfoldable pub poll_updater :
      LoadBalancer F L
      → (signalled ticked : Bool) (now : ℕ) → Task (Unit {0})
      → Task (Unit {0}) × LoadBalancer F L
  unfolding updater_branch
  poll_updater b signalled ticked now (live s) = updater_branch b now (select signalled ticked)
  poll_updater b signalled ticked now task = (task, b)

module _ {S : Type 0} where
  -- `abort_all` of src/shutdown.rs on one task
  unfoldable pub abort : Task S → Task S
  abort (live s) = aborted
  abort exited = exited
  abort panicked = panicked
  abort aborted = aborted

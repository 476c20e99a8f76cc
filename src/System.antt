-- ===== src/System.antt =====
-- The running program: the requests of src/main.rs, balancer.rs and forwarder.rs, the background
-- tasks of utils/health.rs and utils/cooldown.rs, the reloads of config_reloader.rs and the signal
-- of shutdown.rs. All share one balancer. The locks serialize their accesses, so a run is a
-- sequence of steps, in any order, each up to the next wait of its task. A reload has two steps, with
-- those of other tasks between them; a second reload begins when the first is through. `none` is a
-- panic outside the background tasks.
pub mod Safe
pub mod Runs
pub mod Permits
pub mod Gauge
pub mod Moves
pub mod Ending
use azoth_balancer.Prelude.{
  ℕ, Bool, true, false, List, [], ◌∷◌, ◌++◌, Option, none, some, Text, Result, ◌>>=◌, nth, set_nth,
}
use azoth_balancer.Float.{Float}
use azoth_balancer.Limiter.{RateLimiter}
use azoth_balancer.Config.{Config}
use azoth_balancer.Config.Finalize.{FileRead}
use azoth_balancer.Balancer.{Client, LoadBalancer}
use azoth_balancer.Forwarder.{StatusCodes}
use azoth_balancer.Background.{
  Timer, Task, live, Checker, Answer, start_checker, poll_checker, end_round, poll_updater, abort,
}
use azoth_balancer.Endpoint.{LoadBalancerError}
use azoth_balancer.Reload.{ReloadError}
use azoth_balancer.Reload.Phases.{Pending, begin_reload, finish_reload}
use azoth_balancer.Server.{Json}
use azoth_balancer.Server.Request.{Request, Input, Turn, arrive, advance}

-- The balancer, the requests in the order of their arrival, the permits of the semaphore that are
-- free, the two tasks of the shutdown manager, whether its signal was sent, and the reload under way.
pub record System (F L J T : Type 0) : Type 0 where
  pub balancer : LoadBalancer F L
  pub requests : List (Request J)
  pub permits : ℕ
  pub checker : Task (Checker T)
  pub updater : Task (Unit {0})
  pub signalled : Bool
  pub reloading : Option (Pending F L)

-- What a task does between two waits, with what comes from outside.
pub data Step (F : Type 0) : Type 0 where
  request_arrives : (body : Text) → Step F
  request_advances : (place : ℕ) → Input → Step F
  reload_begins :
      (can_build : Client → Bool) (read_to_string : Text → FileRead)
      (from_toml : Text → Result Text (Config F)) (now : ℕ)
      → Step F
  reload_ends : (now : ℕ) → Step F
  checker_wakes : (ticked : Bool) → Step F
  round_ends : (now : ℕ) → List Answer → Step F
  updater_wakes : (ticked : Bool) (now : ℕ) → Step F
  signal_sent tasks_aborted : Step F

-- The program after `run_background_tasks`.
unfoldable pub start : {F L J T : Type 0} → Timer T → LoadBalancer F L → System F L J T
start timer b = record {
  balancer = b;
  requests = [];
  permits = b.concurrency_limiter;
  checker = start_checker timer b;
  updater = live tt;
  signalled = false;
  reloading = none;
}

module _ {F L J T : Type 0} (fl : Float F) (rl : RateLimiter L) (sc : StatusCodes) (json : Json J)
    (timer : Timer T) where
  -- The turn of the request at a place.
  unfoldable pub advance_at : System F L J T → ℕ → Input → Option (Request J) → System F L J T
  advance_at s place input none = s
  advance_at s place input (some request) =
      let t = advance fl rl sc json s.balancer s.permits request input in
      record s {
        balancer = t.balancer;
        requests = set_nth place t.request s.requests;
        permits = t.permits;
      }

  -- What the first part of a reload leaves to the second one.
  unfoldable pub reload_begun :
      Result ReloadError (Pending F L) → LoadBalancer F L → System F L J T → System F L J T
  reload_begun (Result.err e) b s = record s { balancer = b }
  reload_begun (Result.ok p) b s = record s { balancer = b; reloading = some p }

  unfoldable pub begin_at :
      (can_build : Client → Bool) (read_to_string : Text → FileRead)
      (from_toml : Text → Result Text (Config F))
      → ℕ
      → System F L J T
      → Option (Pending F L)
      → Option (System F L J T)
  unfolding reload_begun
  begin_at can_build read_to_string from_toml now s (some p) = some s
  begin_at can_build read_to_string from_toml now s none = do
    (result, b) ← begin_reload fl rl can_build read_to_string from_toml s.balancer now
    some (reload_begun result b s)

  unfoldable pub end_at : ℕ → System F L J T → Option (Pending F L) → System F L J T
  end_at now s none = s
  end_at now s (some p) = record s { balancer = finish_reload s.balancer p now; reloading = none }

  unfoldable pub step : Step F → System F L J T → Option (System F L J T)
  step (request_arrives body) s =
      let (request, b) = arrive s.balancer body in
      some (record s { balancer = b; requests = s.requests ++ request ∷ [] })
  step (request_advances place input) s = some (advance_at s place input (nth place s.requests))
  step (reload_begins can_build read_to_string from_toml now) s =
      begin_at can_build read_to_string from_toml now s s.reloading
  step (reload_ends now) s = some (end_at now s s.reloading)
  step (checker_wakes ticked) s =
      some (record s { checker = poll_checker timer s.balancer s.signalled ticked s.checker })
  step (round_ends now answers) s =
      let (checker, b) = end_round fl sc s.balancer now answers s.checker in
      some (record s { balancer = b; checker = checker })
  step (updater_wakes ticked now) s =
      let (updater, b) = poll_updater s.balancer s.signalled ticked now s.updater in
      some (record s { balancer = b; updater = updater })
  step signal_sent s = some (record s { signalled = true })
  step tasks_aborted s = some (record s { checker = abort s.checker; updater = abort s.updater })

  unfoldable pub run : List (Step F) → System F L J T → Option (System F L J T)
  run [] s = some s
  run (t ∷ steps) s = do s' ← step t s; run steps s'

-- ===== src/Refinement/Observing.antt =====
-- What is observed of the program, and the move that each of its steps is seen as.
use azoth_balancer.Prelude.{Bool, List, [], ◌∷◌, map, Option, none, some, Result, nth, ℕ, Text}
use azoth_balancer.Float.{Float}
use azoth_balancer.Limiter.{RateLimiter}
use azoth_balancer.Balancer.{Client, LoadBalancer}
use azoth_balancer.Background.{Timer}
use azoth_balancer.Forwarder.{StatusCodes}
use azoth_balancer.Config.{Config}
use azoth_balancer.Config.Finalize.{FileRead}
use azoth_balancer.Reload.{ReloadError}
use azoth_balancer.Reload.Phases.{Pending, begin_reload}
use azoth_balancer.Server.{Json}
use azoth_balancer.Server.Request.{Request, Input}
use azoth_balancer.System.{
  System, Step, request_arrives, request_advances, reload_begins, reload_ends, checker_wakes,
  round_ends, updater_wakes, signal_sent, tasks_aborted, step,
}
use azoth_balancer.Refinement.{View, view, Act, silent, Observed, Move, touch, plan, switch}
use azoth_balancer.Refinement.Requests.{request_act, round_act}

unfoldable pub turn_act : {J : Type 0} → StatusCodes → Input → Option (Request J) → Act
turn_act sc input none = silent
turn_act sc input (some request) = request_act sc request input

abbrev pub view_pending : {F L : Type 0} → Option (Pending F L) → Option View
view_pending none = none
view_pending (some p) = some (view p.endpoints)

abbrev pub observe : {F L J T : Type 0} → System F L J T → Observed
observe s = record { served = view s.balancer.endpoints; coming = view_pending s.reloading }

abbrev pub observed : Option View → View → Observed
observed coming served = record { served = served; coming = coming }

-- A reload that goes through plans the URLs of the new settings.
unfoldable pub begin_move :
    {F L : Type 0} → Option (Result ReloadError (Pending F L) × LoadBalancer F L) → Move
begin_move none = touch silent
begin_move (some (Result.err e, b)) = touch silent
begin_move (some (Result.ok p, b)) = plan (map (λ e. e.url) p.endpoints)

module _ {F L J T : Type 0} (fl : Float F) (rl : RateLimiter L) (sc : StatusCodes) (json : Json J)
    (timer : Timer T) where
  unfoldable pub begin_move_at :
      (can_build : Client → Bool) (read_to_string : Text → FileRead)
      (from_toml : Text → Result Text (Config F))
      → ℕ
      → System F L J T
      → Option (Pending F L)
      → Move
  unfolding begin_move
  begin_move_at can_build read_to_string from_toml now s (some p) = touch silent
  begin_move_at can_build read_to_string from_toml now s none =
      begin_move (begin_reload fl rl can_build read_to_string from_toml s.balancer now)

  -- The move that a step is seen as.
  unfoldable pub step_move : Step F → System F L J T → Move
  unfolding turn_act begin_move_at
  step_move (request_advances place input) s = touch (turn_act sc input (nth place s.requests))
  step_move (round_ends now answers) s = touch (round_act sc answers s.checker)
  step_move (reload_begins can_build read_to_string from_toml now) s =
      begin_move_at can_build read_to_string from_toml now s s.reloading
  step_move (reload_ends now) s = switch
  step_move (request_arrives body) s = touch silent
  step_move (checker_wakes ticked) s = touch silent
  step_move (updater_wakes ticked now) s = touch silent
  step_move signal_sent s = touch silent
  step_move tasks_aborted s = touch silent

  unfoldable pub moves_from : List (Step F) → Option (System F L J T) → List Move
  moves_from steps none = []
  moves_from [] (some s) = []
  moves_from (t ∷ steps) (some s) = step_move t s ∷ moves_from steps (step fl rl sc json timer t s)

  -- The moves of a run.
  unfoldable pub run_moves : List (Step F) → System F L J T → List Move
  unfolding moves_from
  run_moves steps s = moves_from steps (some s)

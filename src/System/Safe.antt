-- ===== src/System/Safe.antt =====
-- Runs of the whole program and the invariant of the balancer.
use azoth_balancer.Prelude.{
  ◌≤◌, true, arith, Bool, ℕ, ◌≡◌, List, [], ◌∷◌, Option, Text, nth, none, some, get_or, Sat,
  Sat-value, Result, inl, inr,
}
use azoth_balancer.Float.{Float}
use azoth_balancer.Limiter.{RateLimiter, RefusalKeeps}
use azoth_balancer.Metrics.{Registry}
use azoth_balancer.Config.{Config, BalancerConfig}
use azoth_balancer.Config.Finalize.{FileRead, finalize, default_config}
use azoth_balancer.Balancer.{Client, new}
use azoth_balancer.Balancer.Invariant.{Inv}
use azoth_balancer.Balancer.Start.{client_settings, can_start, new-Started}
use azoth_balancer.Background.{Timer}
use azoth_balancer.Background.Kept.{end_round-Inv, poll_updater-Inv}
use azoth_balancer.Forwarder.{StatusCodes}
use azoth_balancer.Reload.Phases.{Pending}
use azoth_balancer.Reload.Begun.{begin_reload-safe}
use azoth_balancer.Reload.Finished.{IsSound, finish_reload-Inv}
use azoth_balancer.Server.{Json}
use azoth_balancer.Server.Request.{Request, Input}
use azoth_balancer.Server.Request.Kept.{arrive-Inv, advance-Inv}
use azoth_balancer.System.{
  System, start, Step, request_arrives, request_advances, reload_begins, reload_ends, checker_wakes,
  round_ends, updater_wakes, signal_sent, tasks_aborted, advance_at, begin_at, end_at, reload_begun,
  step, run,
}

-- What a reload under way is going to write.
abbrev pub SoundReload : {F L : Type 0} → Option (Pending F L) → Type 0
SoundReload none = Unit {0}
SoundReload (some p) = IsSound p

abbrev pub InvHolds : {F L J T : Type 0} → System F L J T → Type 0
InvHolds s = Inv s.balancer × SoundReload s.reloading

module _ {F L J T : Type 0} (fl : Float F) (rl : RateLimiter L) (keeps : RefusalKeeps rl)
    (sc : StatusCodes) (json : Json J) (timer : Timer T) where
  advance_at-InvHolds :
      (s : System F L J T) (place : ℕ) (input : Input) (found : Option (Request J))
      → InvHolds s
      → InvHolds (advance_at fl rl sc json timer s place input found)
  unfolding advance_at
  advance_at-InvHolds s place input none inv = inv
  advance_at-InvHolds s place input (some request) inv =
      (advance-Inv fl rl keeps sc json s.balancer s.permits request input inv.0, inv.1)

  begin_at-InvHolds :
      (can_build : Client → Bool) (read_to_string : Text → FileRead)
      (from_toml : Text → Result Text (Config F)) (now : ℕ) (s : System F L J T)
      (reloading : Option (Pending F L))
      → InvHolds s
      → Sat
          (begin_at fl rl sc json timer can_build read_to_string from_toml now s reloading)
          InvHolds
  unfolding begin_at reload_begun
  begin_at-InvHolds can_build read_to_string from_toml now s (some p) inv = inv
  begin_at-InvHolds can_build read_to_string from_toml now s none inv =
      elim (begin_reload-safe fl rl can_build s.balancer now read_to_string from_toml inv.0) [
        | inl (e, failed) ↦ rw (failed, begin_at) inv
        | inr (p, b', done, begun) ↦ rw (done, begin_at) (begun.inv, begun.sound)
      ]

  end_at-InvHolds :
      (now : ℕ) (s : System F L J T) (reloading : Option (Pending F L))
      → InvHolds s
      → SoundReload reloading
      → InvHolds (end_at fl rl sc json timer now s reloading)
  unfolding end_at
  end_at-InvHolds now s none inv sound = inv
  end_at-InvHolds now s (some p) inv sound = (finish_reload-Inv s.balancer p now inv.0 sound, tt)

  pub step-InvHolds :
      (t : Step F) (s : System F L J T) → InvHolds s → Sat (step fl rl sc json timer t s) InvHolds
  unfolding step
  step-InvHolds (request_arrives body) s inv = (arrive-Inv J s.balancer body inv.0, inv.1)
  step-InvHolds (request_advances place input) s inv =
      advance_at-InvHolds s place input (nth place s.requests) inv
  step-InvHolds (reload_begins can_build read_to_string from_toml now) s inv =
      begin_at-InvHolds can_build read_to_string from_toml now s s.reloading inv
  step-InvHolds (reload_ends now) s inv = end_at-InvHolds now s s.reloading inv inv.1
  step-InvHolds (checker_wakes ticked) s inv = inv
  step-InvHolds (round_ends now answers) s inv =
      (end_round-Inv fl sc s.balancer inv.0 now answers s.checker, inv.1)
  step-InvHolds (updater_wakes ticked now) s inv =
      (poll_updater-Inv s.balancer inv.0 now s.signalled ticked s.updater, inv.1)
  step-InvHolds signal_sent s inv = inv
  step-InvHolds tasks_aborted s inv = inv

  -- From a balancer with the invariant, no sequence of steps panics, and the invariant holds after
  -- it.
  pub run-InvHolds :
      (steps : List (Step F)) (s : System F L J T)
      → InvHolds s
      → Sat (run fl rl sc json timer steps s) InvHolds
  unfolding run
  run-InvHolds [] s inv = inv
  run-InvHolds (t ∷ steps) s inv =
      let (s', stepped, inv') = Sat-value (step fl rl sc json timer t s) (step-InvHolds t s inv) in
      rw (stepped, run) (run-InvHolds steps s' inv')

  -- If the configuration can be finalized, the HTTP client built with its settings, its concurrency
  -- is not more than a semaphore can hold, and the limiter takes nothing on a refusal, the balancer
  -- starts, and any interleaving of requests, the two parts of reloads, rounds of health checks,
  -- ticks of the background tasks and the shutdown, with any input, goes through without a failing
  -- `unwrap` or `expect` outside the background tasks, but for that on the HTTP client of a reload,
  -- which leaves the program as it was, and leaves the invariant: distinct URLs, a limiter for each
  -- endpoint, a client that agrees with the recorded settings, and what a reload under way is going
  -- to write has distinct URLs and a limiter for each endpoint too. Instants are taken without bound,
  -- so the overflow of the clock plus a cooldown is not among the panics.
  pub new-run-safe :
      (can_build : Client → Bool) (max_permits : ℕ) (config : Option (Config F))
      (config_path : Text) (now : ℕ) (registry : Registry) (c : Config F) (cfg : BalancerConfig F)
      → finalize fl (get_or config default_config) ≡ Result.ok c
      → c.balancer ≡ some cfg
      → can_build (client_settings cfg) ≡ true
      → get_or cfg.max_concurrency 0 ≤ max_permits
      → Sat (new fl rl can_build max_permits config config_path now registry) (λ b.
        (steps : List (Step F)) → Sat (run fl rl sc json timer steps (start timer b)) InvHolds)
  unfolding start
  new-run-safe can_build max_permits config config_path now registry c cfg finalized hb built fits =
      let ready : can_start can_build max_permits cfg ≡ true = ground (arith, built, fits) in
      let (b, returns, s) =
        Sat-value (new fl rl can_build max_permits config config_path now registry) (
          new-Started fl rl can_build max_permits config config_path now registry c cfg finalized hb
            ready) in
      rw returns (λ steps. run-InvHolds steps (start timer b) (s.inv, tt))

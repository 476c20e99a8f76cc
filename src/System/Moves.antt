-- ===== src/System/Moves.antt =====
-- What a step of a run does to the background tasks and to the shutdown signal.
use azoth_balancer.Prelude.{
  ℕ, ◌≡◌, refl, Bool, true, false, List, Option, Sat, nth, Option-cases, inl, inr,
}
use azoth_balancer.Float.{Float}
use azoth_balancer.Limiter.{RateLimiter, RefusalKeeps}
use azoth_balancer.Balancer.{LoadBalancer}
use azoth_balancer.Background.{Timer}
use azoth_balancer.Background.Signal.{
  IsEnded, IsResting, abort-IsEnded, abort-IsResting, poll_checker-exits, poll_checker-IsResting,
  poll_checker-IsEnded, end_round-IsResting, end_round-IsEnded, poll_updater-exits,
  poll_updater-IsEnded,
}
use azoth_balancer.Forwarder.{StatusCodes}
use azoth_balancer.Reload.Phases.{Pending}
use azoth_balancer.Server.{Json}
use azoth_balancer.Server.Request.{Request}
use azoth_balancer.System.{
  System, Step, request_arrives, request_advances, reload_begins, reload_ends, checker_wakes,
  round_ends, updater_wakes, signal_sent, tasks_aborted, advance_at, step,
}
use azoth_balancer.System.Safe.{InvHolds}
use azoth_balancer.System.Runs.{begins-rest, end_at-rest}

module _ {F : Type 0} where
  abbrev pub is_signal : Step F → Bool
  is_signal signal_sent = true
  is_signal t = false

  abbrev pub is_round_end : Step F → Bool
  is_round_end (round_ends now answers) = true
  is_round_end t = false

  abbrev pub is_checker_wake : Step F → Bool
  is_checker_wake (checker_wakes ticked) = true
  is_checker_wake t = false

  abbrev pub is_updater_wake : Step F → Bool
  is_updater_wake (updater_wakes ticked now) = true
  is_updater_wake t = false

-- What a step does to the tasks and to the signal.
pub record Moved {F L J T : Type 0} (t : Step F) (s s' : System F L J T) : Type 0 where
  pub sends : is_signal t ≡ true → s'.signalled ≡ true
  pub keeps_signal : s.signalled ≡ true → s'.signalled ≡ true
  pub rests : is_round_end t ≡ true → IsResting s'.checker
  pub keeps_resting : s.signalled ≡ true → IsResting s.checker → IsResting s'.checker
  pub exits :
      is_checker_wake t ≡ true → s.signalled ≡ true → IsResting s.checker → IsEnded s'.checker
  pub keeps_ended : IsEnded s.checker → IsEnded s'.checker
  pub updater_exits : is_updater_wake t ≡ true → s.signalled ≡ true → IsEnded s'.updater
  pub keeps_updater_ended : IsEnded s.updater → IsEnded s'.updater

module _ {F L J T : Type 0} (s : System F L J T) where
  -- A step that is none of the tasks' and that leaves them.
  other_step :
      (t : Step F) (b : LoadBalancer F L) (requests : List (Request J)) (permits : ℕ)
      (reloading : Option (Pending F L))
      → is_signal t ≡ false
      → is_round_end t ≡ false
      → is_checker_wake t ≡ false
      → is_updater_wake t ≡ false
      → Moved t s
          (record s { balancer = b; requests = requests; permits = permits; reloading = reloading })
  other_step t b requests permits reloading a r c u = record {
    sends = λ q. cc;
    keeps_signal = λ h. h;
    rests = λ q. cc;
    keeps_resting = λ g h. h;
    exits = λ q g h. cc;
    keeps_ended = λ h. h;
    updater_exits = λ q g. cc;
    keeps_updater_ended = λ h. h;
  }

module _ {F L J T : Type 0} (fl : Float F) (rl : RateLimiter L) (keeps : RefusalKeeps rl)
    (sc : StatusCodes) (json : Json J) (timer : Timer T) where
  pub step-Moved :
      (t : Step F) (s : System F L J T)
      → InvHolds s
      → Sat (step fl rl sc json timer t s) (Moved t s)
  unfolding step advance_at
  step-Moved (request_arrives body) s inv =
      other_step s _ _ _ s.permits s.reloading refl refl refl refl
  step-Moved (request_advances place input) s inv = elim (Option-cases (nth place s.requests)) [
    | inl nothing ↦
        rw (nothing, advance_at)
          (other_step s (request_advances place input) s.balancer s.requests s.permits s.reloading
            refl refl refl refl)
    | inr (request, found) ↦
        rw (found, advance_at) (other_step s _ _ _ _ s.reloading refl refl refl refl)
  ]
  step-Moved (reload_begins can_build read_to_string from_toml now) s inv =
      let (b, r, done) =
        begins-rest fl rl keeps sc json timer can_build read_to_string from_toml now s inv in
      rw (done, step) (other_step s _ b s.requests s.permits r refl refl refl refl)
  step-Moved (reload_ends now) s inv =
      let (b, r, done) = end_at-rest fl rl keeps sc json timer now s s.reloading in
      rw done (other_step s (reload_ends now) b s.requests s.permits r refl refl refl refl)
  step-Moved (checker_wakes ticked) s inv = record {
    sends = λ q. cc;
    keeps_signal = λ h. h;
    rests = λ q. cc;
    keeps_resting = λ g h. rw g (poll_checker-IsResting timer s.balancer ticked s.checker h);
    exits = λ q g h. rw g (poll_checker-exits timer s.balancer ticked s.checker h);
    keeps_ended = poll_checker-IsEnded timer s.balancer s.signalled ticked s.checker;
    updater_exits = λ q g. cc;
    keeps_updater_ended = λ h. h;
  }
  step-Moved (round_ends now answers) s inv = record {
    sends = λ q. cc;
    keeps_signal = λ h. h;
    rests = λ q. end_round-IsResting fl sc s.balancer now answers s.checker;
    keeps_resting = λ g h. end_round-IsResting fl sc s.balancer now answers s.checker;
    exits = λ q g h. cc;
    keeps_ended = end_round-IsEnded fl sc s.balancer now answers s.checker;
    updater_exits = λ q g. cc;
    keeps_updater_ended = λ h. h;
  }
  step-Moved (updater_wakes ticked now) s inv = record {
    sends = λ q. cc;
    keeps_signal = λ h. h;
    rests = λ q. cc;
    keeps_resting = λ g h. h;
    exits = λ q g h. cc;
    keeps_ended = λ h. h;
    updater_exits = λ q g. rw g (poll_updater-exits s.balancer ticked now s.updater);
    keeps_updater_ended = poll_updater-IsEnded s.balancer ticked now s.signalled s.updater;
  }
  step-Moved signal_sent s inv = record {
    sends = λ q. refl;
    keeps_signal = λ h. refl;
    rests = λ q. cc;
    keeps_resting = λ g h. h;
    exits = λ q g h. cc;
    keeps_ended = λ h. h;
    updater_exits = λ q g. cc;
    keeps_updater_ended = λ h. h;
  }
  step-Moved tasks_aborted s inv = record {
    sends = λ q. cc;
    keeps_signal = λ h. h;
    rests = λ q. cc;
    keeps_resting = λ g h. abort-IsResting s.checker;
    exits = λ q g h. cc;
    keeps_ended = λ h. abort-IsEnded s.checker;
    updater_exits = λ q g. cc;
    keeps_updater_ended = λ h. abort-IsEnded s.updater;
  }

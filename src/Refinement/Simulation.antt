-- ===== src/Refinement/Simulation.antt =====
-- Every run of the program is a run of the abstract machine.
use azoth_balancer.Prelude.{
  Bool, ◌≡◌, refl, sym, ap, ◌∙◌, List, [], ◌∷◌, map, Option, none, some, Sat, Sat-value, Sat-both,
  subst, Result, nth, find, ℕ, Text, Option-cases, inl, inr,
}
use azoth_balancer.Float.{Float}
use azoth_balancer.Limiter.{RateLimiter, RefusalKeeps}
use azoth_balancer.Balancer.{Client, LoadBalancer, has_url}
use azoth_balancer.Balancer.Invariant.{Inv}
use azoth_balancer.Background.{Timer}
use azoth_balancer.Forwarder.{StatusCodes}
use azoth_balancer.Config.{Config}
use azoth_balancer.Config.Finalize.{FileRead}
use azoth_balancer.Endpoint.{RpcEndpoint}
use azoth_balancer.Reload.{install}
use azoth_balancer.Reload.Phases.{Pending, share_metrics, finish_reload}
use azoth_balancer.Reload.Begun.{begin_reload-safe}
use azoth_balancer.Server.{Json}
use azoth_balancer.System.{
  System, start, Step, request_arrives, request_advances, reload_begins, reload_ends, checker_wakes,
  round_ends, updater_wakes, signal_sent, tasks_aborted, advance_at, begin_at, end_at, reload_begun,
  step, run,
}
use azoth_balancer.System.Safe.{InvHolds, step-InvHolds}
use azoth_balancer.Refinement.{seen, view, act, Observed, switch_to, move, moves}
use azoth_balancer.Refinement.Operations.{view-KeepsState}
use azoth_balancer.Refinement.Requests.{
  view-arrive, view-advance, view-end_round, view-poll_updater,
}
use azoth_balancer.Refinement.Observing.{
  view_pending, observe, observed, turn_act, begin_move_at, step_move, moves_from, run_moves,
}

view-share_metrics :
    (current eps : List RpcEndpoint) → view (map (share_metrics current) eps) ≡ view eps
unfolding share_metrics
view-share_metrics current [] = refl
view-share_metrics current (e ∷ eps) = elim (Option-cases (find (has_url e.url) current)) [
  | inl new ↦ rw (new, share_metrics) (ap (◌∷◌ (seen e)) (view-share_metrics current eps))
  | inr (old, found) ↦
      rw (found, share_metrics) (ap (◌∷◌ (seen e)) (view-share_metrics current eps))
]

module _ {F L J T : Type 0} (fl : Float F) (rl : RateLimiter L) (keeps : RefusalKeeps rl)
    (sc : StatusCodes) (json : Json J) (timer : Timer T) where
  observe-begin_at :
      (can_build : Client → Bool) (read_to_string : Text → FileRead)
      (from_toml : Text → Result Text (Config F)) (now : ℕ) (s : System F L J T)
      (reloading : Option (Pending F L))
      → InvHolds s
      → Sat (begin_at fl rl sc json timer can_build read_to_string from_toml now s reloading) (λ s'.
        observe s'
        ≡ move
            (begin_move_at fl rl sc json timer can_build read_to_string from_toml now s reloading)
            (observe s))
  unfolding begin_at reload_begun begin_move_at move act
  observe-begin_at can_build read_to_string from_toml now s (some p) inv = refl
  observe-begin_at can_build read_to_string from_toml now s none inv =
      elim (begin_reload-safe fl rl can_build s.balancer now read_to_string from_toml inv.0) [
        | inl (e, failed) ↦ rw (failed, begin_at) refl
        | inr (p, b', done, begun) ↦
            rw (done, begin_at)
              (cc (
                ap view begun.same_endpoints,
                view-KeepsState s.balancer.endpoints p.endpoints begun.keeps_state,
              ))
      ]

  observe-end_at :
      (now : ℕ) (s : System F L J T) (reloading : Option (Pending F L))
      → observe (end_at fl rl sc json timer now s reloading)
        ≡ switch_to (view_pending reloading) (observe s)
  unfolding end_at switch_to finish_reload install
  observe-end_at now s none = refl
  observe-end_at now s (some p) =
      ap (λ v. record { served = v; coming = none })
        (view-share_metrics s.balancer.endpoints p.endpoints)

  observe-step :
      (t : Step F) (s : System F L J T)
      → InvHolds s
      → Sat
          (step fl rl sc json timer t s)
          (λ s'. observe s' ≡ move (step_move fl rl sc json timer t s) (observe s))
  unfolding step step_move act move advance_at turn_act
  observe-step (request_arrives body) s inv =
      ap (observed (view_pending s.reloading)) (view-arrive J s.balancer body)
  observe-step (request_advances place input) s inv = elim (Option-cases (nth place s.requests)) [
    | inl nothing ↦ rw (nothing, advance_at, turn_act) refl
    | inr (request, found) ↦
        rw (found, advance_at, turn_act)
          (ap (observed (view_pending s.reloading))
            (view-advance fl rl sc json s.balancer s.permits request input))
  ]
  observe-step (reload_begins can_build read_to_string from_toml now) s inv =
      observe-begin_at can_build read_to_string from_toml now s s.reloading inv
  observe-step (reload_ends now) s inv = observe-end_at now s s.reloading
  observe-step (checker_wakes ticked) s inv = refl
  observe-step (round_ends now answers) s inv =
      ap (observed (view_pending s.reloading))
        (view-end_round fl sc s.balancer now answers s.checker)
  observe-step (updater_wakes ticked now) s inv =
      ap (observed (view_pending s.reloading))
        (view-poll_updater s.balancer now s.signalled ticked s.updater)
  observe-step signal_sent s inv = refl
  observe-step tasks_aborted s inv = refl

  moves-step :
      (t : Step F) (steps : List (Step F)) (s s' : System F L J T) (o : Observed)
      → step fl rl sc json timer t s ≡ some s'
      → moves (run_moves fl rl sc json timer (t ∷ steps) s) o
        ≡ moves
            (run_moves fl rl sc json timer steps s')
            (move (step_move fl rl sc json timer t s) o)
  unfolding run_moves moves_from moves
  moves-step t steps s s' o h =
      ap
        (λ x.
          moves (moves_from fl rl sc json timer steps x)
            (move (step_move fl rl sc json timer t s) o))
        h

  -- A step and the rest of the run.
  run-observe-step :
      (t : Step F) (steps : List (Step F)) (s s' : System F L J T)
      → step fl rl sc json timer t s ≡ some s'
      → observe s' ≡ move (step_move fl rl sc json timer t s) (observe s)
      → Sat
          (run fl rl sc json timer steps s')
          (λ s''. observe s'' ≡ moves (run_moves fl rl sc json timer steps s') (observe s'))
      → Sat
          (run fl rl sc json timer (t ∷ steps) s)
          (λ s''. observe s'' ≡ moves (run_moves fl rl sc json timer (t ∷ steps) s) (observe s))
  unfolding run
  run-observe-step t steps s s' stepped seen rest =
      rw (stepped, run)
        (subst (λ o. Sat (run fl rl sc json timer steps s') (λ s''. observe s'' ≡ o))
          (ap (moves (run_moves fl rl sc json timer steps s')) seen
            ∙ sym (moves-step t steps s s' (observe s) stepped))
          rest)

  run-observe :
      (steps : List (Step F)) (s : System F L J T)
      → InvHolds s
      → Sat
          (run fl rl sc json timer steps s)
          (λ s'. observe s' ≡ moves (run_moves fl rl sc json timer steps s) (observe s))
  unfolding run moves run_moves moves_from
  run-observe [] s inv = refl
  run-observe (t ∷ steps) s inv =
      let (s', stepped, (inv', seen)) =
        Sat-value (step fl rl sc json timer t s) (
          Sat-both _ _ _ (step-InvHolds fl rl keeps sc json timer t s inv)
            (observe-step t s inv)) in
      run-observe-step t steps s s' stepped seen (run-observe steps s' inv')

  -- From a start with the invariant, and with a limiter that takes nothing on a refusal, every run
  -- goes through, and what is observed after it is what an abstract machine makes of the start: a
  -- request that fails takes its own endpoint down, the results of a round are written one by one,
  -- a reload plans to keep what is known of each URL that stays and to take a new one for healthy,
  -- and later switches to that plan, whatever was written in between; no other step changes which
  -- URLs are served and which are healthy.
  pub run-refines :
      (b : LoadBalancer F L)
      → Inv b
      → (steps : List (Step F))
      → Sat (run fl rl sc json timer steps (start timer b)) (λ s.
        observe s
        ≡ moves
            (run_moves fl rl sc json timer steps (start timer b))
            (record { served = view b.endpoints; coming = none }))
  unfolding start
  run-refines b inv steps = run-observe steps (start timer b) (inv, tt)

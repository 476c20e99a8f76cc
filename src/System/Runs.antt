-- ===== src/System/Runs.antt =====
-- Inductions on the steps of a run.
use azoth_balancer.Prelude.{
  ℕ, ◌≡◌, refl, Bool, true, List, [], ◌∷◌, Option, none, some, Text, Sat, Sat-value, Sat-both,
  Result, Bool-cases, inl, inr, if◌then◌else◌,
}
use azoth_balancer.Float.{Float}
use azoth_balancer.Limiter.{RateLimiter, RefusalKeeps}
use azoth_balancer.Config.{Config}
use azoth_balancer.Config.Finalize.{FileRead}
use azoth_balancer.Background.{Timer}
use azoth_balancer.Balancer.{Client, LoadBalancer}
use azoth_balancer.Forwarder.{StatusCodes}
use azoth_balancer.Reload.Phases.{Pending, finish_reload}
use azoth_balancer.Reload.Begun.{begin_reload-safe}
use azoth_balancer.Server.{Json}
use azoth_balancer.System.{System, Step, reload_begins, begin_at, end_at, reload_begun, step, run}
use azoth_balancer.System.Safe.{InvHolds, step-InvHolds}

-- The steps after the first one that passes a test.
abbrev pub after_first : {F : Type 0} → (Step F → Bool) → List (Step F) → Option (List (Step F))
after_first p [] = none
after_first p (t ∷ steps) = if p t then some steps else after_first p steps

module _ {F L J T : Type 0} (fl : Float F) (rl : RateLimiter L) (keeps : RefusalKeeps rl)
    (sc : StatusCodes) (json : Json J) (timer : Timer T) where
  -- A reload changes the balancer and what is under way of it.
  begin_at-rest :
      (can_build : Client → Bool) (read_to_string : Text → FileRead)
      (from_toml : Text → Result Text (Config F)) (now : ℕ) (s : System F L J T)
      (reloading : Option (Pending F L))
      → InvHolds s
      → (b : LoadBalancer F L) × (r : Option (Pending F L)) × (begin_at fl rl sc json timer
            can_build read_to_string from_toml now s reloading
          ≡ some (record s { balancer = b; reloading = r }))
  unfolding begin_at reload_begun
  begin_at-rest can_build read_to_string from_toml now s (some p) inv =
      (s.balancer, s.reloading, refl)
  begin_at-rest can_build read_to_string from_toml now s none inv =
      elim (begin_reload-safe fl rl can_build s.balancer now read_to_string from_toml inv.0) [
        | inl (e, failed) ↦ (s.balancer, s.reloading, rw (failed, begin_at) refl)
        | inr (p, b', done, begun) ↦ (b', some p, rw (done, begin_at) refl)
      ]

  pub begins-rest :
      (can_build : Client → Bool) (read_to_string : Text → FileRead)
      (from_toml : Text → Result Text (Config F)) (now : ℕ) (s : System F L J T)
      → InvHolds s
      → (b : LoadBalancer F L) × (r : Option (Pending F L)) × (step fl rl sc json timer
            (reload_begins can_build read_to_string from_toml now)
            s
          ≡ some (record s { balancer = b; reloading = r }))
  unfolding step
  begins-rest can_build read_to_string from_toml now s inv =
      begin_at-rest can_build read_to_string from_toml now s s.reloading inv

  pub end_at-rest :
      (now : ℕ) (s : System F L J T) (reloading : Option (Pending F L))
      → (b : LoadBalancer F L) × (r : Option (Pending F L)) × (end_at fl rl sc json timer now s
            reloading
          ≡ record s { balancer = b; reloading = r })
  unfolding end_at
  end_at-rest now s none = (s.balancer, s.reloading, refl)
  end_at-rest now s (some p) = (finish_reload s.balancer p now, none, refl)

  -- What every step keeps holds after a run.
  pub run-keeps :
      (P : System F L J T → Type 0)
      → ((t : Step F) (s : System F L J T)
          → InvHolds s
          → P s
          → Sat (step fl rl sc json timer t s) P)
      → (steps : List (Step F)) (s : System F L J T) → InvHolds s
      → P s
      → Sat (run fl rl sc json timer steps s) P
  unfolding run
  run-keeps P keep [] s inv h = h
  run-keeps P keep (t ∷ steps) s inv h =
      let (s', stepped, (inv', h')) =
        Sat-value (step fl rl sc json timer t s)
          (Sat-both _ _ _ (step-InvHolds fl rl keeps sc json timer t s inv) (keep t s inv h)) in
      rw (stepped, run) (run-keeps P keep steps s' inv' h')

  -- A step that passes a test leads from `P` to `Q`, and what follows it from `Q` to `R`.
  pub run-then :
      (p : Step F → Bool) (P Q R : System F L J T → Type 0) (G : List (Step F) → Type 0)
      → ((t : Step F) (s : System F L J T)
          → InvHolds s
          → P s
          → Sat (step fl rl sc json timer t s) P)
      → ((t : Step F) (s : System F L J T)
          → p t ≡ true
          → InvHolds s
          → P s
          → Sat (step fl rl sc json timer t s) Q)
      → ((rest : List (Step F)) (s : System F L J T)
          → InvHolds s
          → Q s
          → G rest
          → Sat (run fl rl sc json timer rest s) R)
      → (steps : List (Step F)) (s : System F L J T) → InvHolds s
      → P s
      → Sat (after_first p steps) G
      → Sat (run fl rl sc json timer steps s) R
  unfolding run
  run-then p P Q R G keep hit continue [] s inv h reached = elim reached [ ]
  run-then p P Q R G keep hit continue (t ∷ steps) s inv h reached = elim (Bool-cases (p t)) [
    | inl here ↦
        let (s', stepped, (inv', h')) =
          Sat-value (step fl rl sc json timer t s) (
            Sat-both _ _ _ (step-InvHolds fl rl keeps sc json timer t s inv)
              (hit t s here inv h)) in
        rw (stepped, run) (continue steps s' inv' h' (rw here at reached))
    | inr later ↦
        let (s', stepped, (inv', h')) =
          Sat-value (step fl rl sc json timer t s)
            (Sat-both _ _ _ (step-InvHolds fl rl keeps sc json timer t s inv) (keep t s inv h)) in
        rw (stepped, run)
          (run-then p P Q R G keep hit continue steps s' inv' h' (rw later at reached))
  ]

-- ===== src/System/Permits.antt =====
-- The permits of the semaphore in a run.
use azoth_balancer.Prelude.{
  ℕ, zero, suc, ◌+◌, ◌≡◌, arith, List, [], ◌∷◌, ◌++◌, some, nth, set_nth, Sat, Option-cases, inl,
  inr,
}
use azoth_balancer.Float.{Float}
use azoth_balancer.Limiter.{RateLimiter, RefusalKeeps}
use azoth_balancer.Balancer.{LoadBalancer}
use azoth_balancer.Balancer.Invariant.{Inv}
use azoth_balancer.Background.{Timer}
use azoth_balancer.Forwarder.{StatusCodes}
use azoth_balancer.Server.{Json}
use azoth_balancer.Server.Request.{Request, Input, advance, arrive}
use azoth_balancer.Server.Request.Permits.{held, arrive-held, advance-balance}
use azoth_balancer.System.{
  System, start, Step, request_arrives, request_advances, reload_begins, reload_ends, checker_wakes,
  round_ends, updater_wakes, signal_sent, tasks_aborted, advance_at, step, run,
}
use azoth_balancer.System.Safe.{InvHolds}
use azoth_balancer.System.Runs.{begins-rest, end_at-rest, run-keeps}

-- The permits that all requests hold.
abbrev pub in_flight : {J : Type 0} → List (Request J) → ℕ
in_flight [] = 0
in_flight (request ∷ requests) = held request + in_flight requests

module _ {J : Type 0} where
  in_flight-append :
      (requests : List (Request J)) (request : Request J)
      → in_flight (requests ++ request ∷ []) ≡ in_flight requests + held request
  in_flight-append [] request = omega arith
  in_flight-append (r ∷ requests) request = omega (arith, in_flight-append requests request)

  in_flight-set_nth :
      (place : ℕ) (requests : List (Request J)) (old new : Request J)
      → nth place requests ≡ some old
      → in_flight (set_nth place new requests) + held old ≡ in_flight requests + held new
  in_flight-set_nth place [] old new h = cc h
  in_flight-set_nth zero (r ∷ requests) old new h =
      let e : held r ≡ held old = cc h in omega (arith, e)
  in_flight-set_nth (suc place) (r ∷ requests) old new h =
      omega (arith, in_flight-set_nth place requests old new h)

-- The permits that are free and those that are held make up the whole of the semaphore.
abbrev pub Balanced : {F L J T : Type 0} → ℕ → System F L J T → Type 0
Balanced total s = s.permits + in_flight s.requests ≡ total

module _ {F L J T : Type 0} (fl : Float F) (rl : RateLimiter L) (keeps : RefusalKeeps rl)
    (sc : StatusCodes) (json : Json J) (timer : Timer T) (total : ℕ) where
  advance_at-Balanced :
      (s : System F L J T) (place : ℕ) (input : Input)
      → Balanced total s
      → Balanced total (advance_at fl rl sc json timer s place input (nth place s.requests))
  unfolding advance_at
  advance_at-Balanced s place input h = elim (Option-cases (nth place s.requests)) [
    | inl nothing ↦ rw (nothing, advance_at) h
    | inr (request, found) ↦
        let t = advance fl rl sc json s.balancer s.permits request input in
        rw (found, advance_at)
          (omega (
            arith,
            h,
            advance-balance fl rl sc json s.balancer s.permits request input,
            in_flight-set_nth place s.requests request t.request found,
          ))
  ]

  step-Balanced :
      (t : Step F) (s : System F L J T)
      → InvHolds s
      → Balanced total s
      → Sat (step fl rl sc json timer t s) (Balanced total)
  unfolding step
  step-Balanced (request_arrives body) s inv h =
      let request = (arrive {J = J} s.balancer body).0 in
      omega (arith, h, in_flight-append s.requests request, arrive-held J s.balancer body)
  step-Balanced (request_advances place input) s inv h = advance_at-Balanced s place input h
  step-Balanced (reload_begins can_build read_to_string from_toml now) s inv h =
      let (b, r, done) =
        begins-rest fl rl keeps sc json timer can_build read_to_string from_toml now s inv in
      rw (done, step) h
  step-Balanced (reload_ends now) s inv h =
      let (b, r, done) = end_at-rest fl rl keeps sc json timer now s s.reloading in rw done h
  step-Balanced (checker_wakes ticked) s inv h = h
  step-Balanced (round_ends now answers) s inv h = h
  step-Balanced (updater_wakes ticked now) s inv h = h
  step-Balanced signal_sent s inv h = h
  step-Balanced tasks_aborted s inv h = h

module _ {F L J T : Type 0} (fl : Float F) (rl : RateLimiter L) (keeps : RefusalKeeps rl)
    (sc : StatusCodes) (json : Json J) (timer : Timer T) where
  -- From a start with the invariant, and with a limiter that takes nothing on a refusal, any run
  -- goes through, and after it the permits that are free and those that the requests under way hold
  -- add up to the configured concurrency: no permit is lost, and no more requests are sent at once.
  pub run-permits :
      (b : LoadBalancer F L)
      → Inv b
      → (steps : List (Step F))
      → Sat
          (run fl rl sc json timer steps (start timer b))
          (λ s. s.permits + in_flight s.requests ≡ b.concurrency_limiter)
  unfolding start
  run-permits b inv steps =
      run-keeps fl rl keeps sc json timer (Balanced b.concurrency_limiter)
        (step-Balanced fl rl keeps sc json timer b.concurrency_limiter) steps (start timer b)
        (inv, tt) (omega arith)

-- ===== src/Background/Interval.antt =====
-- The interval of the health checks: when the checker panics, and which interval it runs at.
use azoth_balancer.Prelude.{
  ◌⊎◌, ℕ, ◌≤◌, ◌≡◌, ◌↔◌, refl, sym, true, false, none, some, Given, arith, ◌==◌, inl, inr,
  Option-cases, Bool-cases,
}
use azoth_balancer.Balancer.{LoadBalancer}
use azoth_balancer.Background.{
  Timer, Task, live, panicked, Checker, waiting, checking, start_checker, checker_tick,
  poll_checker, select, on_branch,
}

-- What tokio documents: `interval` panics exactly on a period of zero.
pub record Documented {T : Type 0} (timer : Timer T) : Type 0 where
  pub zero_panics : timer.interval 0 ≡ none
  pub positive_runs : (secs : ℕ) → 1 ≤ secs → Given (timer.interval secs)

-- A timer of an interval, as it was made or after its reset.
abbrev pub IsTimer : {T : Type 0} → Timer T → ℕ → T → Type 0
IsTimer {T} timer secs ticker =
    (made : T) × (timer.interval secs ≡ some made) × ((ticker ≡ made) ⊎ (ticker ≡ timer.reset made))

-- The timer of the task is one of its current interval.
abbrev pub Timed : {T : Type 0} → Timer T → Task (Checker T) → Type 0
Timed timer (live (waiting current_interval ticker)) = IsTimer timer current_interval ticker
Timed timer (live (checking current_interval ticker timeout_secs)) =
    IsTimer timer current_interval ticker
Timed timer Task.exited = Unit {0}
Timed timer panicked = Unit {0}
Timed timer Task.aborted = Unit {0}

-- A round is under way at the interval that is set.
abbrev pub AtInterval : {F L T : Type 0} → LoadBalancer F L → Task (Checker T) → Type 0
AtInterval b (live (checking current_interval ticker timeout_secs)) =
    (current_interval ≡ b.health_check_interval_secs) × (timeout_secs ≡ b.health_check_timeout_secs)
AtInterval b task = ⊥

module _ {F L T : Type 0} (timer : Timer T) (doc : Documented timer) (b : LoadBalancer F L) where
  interval-panics : (secs : ℕ) → timer.interval secs ≡ none ↔ (secs ≡ 0)
  interval-panics secs = (
    λ h. elim (Bool-cases (secs == 0)) [
      | inl zero ↦ ground arith
      | inr positive ↦ absurd (rw h at (doc.positive_runs secs (ground (arith, positive))))
    ],
    λ zero. rw zero doc.zero_panics,
  )

  start-panics : start_checker timer b ≡ panicked ↔ (b.health_check_interval_secs ≡ 0)
  unfolding start_checker
  start-panics = elim (Option-cases (timer.interval b.health_check_interval_secs)) [
    | inl nothing ↦ (λ h. (interval-panics _).0 nothing, λ h. rw (nothing, start_checker) refl)
    | inr (ticker, given) ↦
        (λ h. cc (rw (given, start_checker) at h), λ zero. cc ((interval-panics _).1 zero))
  ]

  -- A tick goes to a round at the interval that is set, or panics where that is zero.
  tick-panics :
      (current_interval : ℕ) (ticker : T)
      → IsTimer timer current_interval ticker
      → b.health_check_interval_secs ≡ 0
      → checker_tick timer b current_interval ticker ≡ panicked
  unfolding checker_tick
  tick-panics current_interval ticker timed zero =
      elim (Bool-cases (b.health_check_interval_secs == current_interval)) [
        | inl same ↦
            let e : b.health_check_interval_secs ≡ current_interval = ground (arith, same) in
            let (made, returns, _) = timed in cc (e, zero, returns, doc.zero_panics)
        | inr changed ↦ rw (changed, checker_tick) (rw ((interval-panics _).1 zero) refl)
      ]

  tick-AtInterval :
      (current_interval : ℕ) (ticker : T)
      → IsTimer timer current_interval ticker
      → 1 ≤ b.health_check_interval_secs
      → AtInterval b (checker_tick timer b current_interval ticker)
        × Timed timer (checker_tick timer b current_interval ticker)
  unfolding checker_tick
  tick-AtInterval current_interval ticker timed positive =
      elim (Bool-cases (b.health_check_interval_secs == current_interval)) [
        | inl same ↦
            let e : b.health_check_interval_secs ≡ current_interval = ground (arith, same) in
            rw (same, checker_tick) ((sym e, refl), timed)
        | inr changed ↦ elim (Option-cases (timer.interval b.health_check_interval_secs)) [
          | inl nothing ↦ absurd (rw nothing at (doc.positive_runs _ positive))
          | inr (ticker', given) ↦
              rw (changed, checker_tick) (rw given ((refl, refl), (ticker', given, inr refl)))
        ]
      ]

  tick-panics_only :
      (current_interval : ℕ) (ticker : T)
      → IsTimer timer current_interval ticker
      → checker_tick timer b current_interval ticker ≡ panicked
      → b.health_check_interval_secs ≡ 0
  tick-panics_only current_interval ticker timed h =
      elim (Bool-cases (b.health_check_interval_secs == 0)) [
        | inl zero ↦ ground (arith, zero)
        | inr positive ↦
            absurd
              (rw h at (tick-AtInterval current_interval ticker timed (ground (arith, positive))).0)
      ]

  -- With a timer that panics exactly on a period of zero, the health checker panics at its start,
  -- and at a tick that no signal precedes, exactly if the interval that is set is zero. A tick with
  -- a positive interval starts a round with the timeout that is set, on a timer of that interval.
  pub checker-interval :
      (current_interval : ℕ) (ticker : T)
      → IsTimer timer current_interval ticker
      → (start_checker timer b ≡ panicked ↔ (b.health_check_interval_secs ≡ 0))
        × (poll_checker timer b false true (live (waiting current_interval ticker)) ≡ panicked
            ↔ (b.health_check_interval_secs ≡ 0))
        × (1 ≤ b.health_check_interval_secs
            → AtInterval b
                (poll_checker timer b false true (live (waiting current_interval ticker)))
              × Timed timer
                  (poll_checker timer b false true (live (waiting current_interval ticker))))
  unfolding poll_checker on_branch select
  checker-interval current_interval ticker timed = (
    start-panics,
    (tick-panics_only current_interval ticker timed, tick-panics current_interval ticker timed),
    tick-AtInterval current_interval ticker timed,
  )

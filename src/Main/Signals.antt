-- ===== src/Main/Signals.antt =====
-- The signals and the kind of shutdown that they ask for.
use azoth_balancer.Prelude.{
  ℕ, ◌+◌, ◌≤◌, ◌<◌, ◌≡◌, ◌↔◌, ◌⊎◌, refl, arith, true, false, List, [], ◌∷◌, All, ltb, Bool-cases,
  inl, inr, Result, Text, get_or,
}
use azoth_balancer.Main.{Signal, ctrl_c, terminate, is_forced, shutdown_signal, end_tasks}
use azoth_balancer.Main.Program.{end_main}
use azoth_balancer.Shutdown.{TaskEnd}
use azoth_balancer.Shutdown.Ending.{ReturnedIn, graceful_shutdown_iff}

abbrev pub time : Signal → ℕ
time (ctrl_c at) = at
time (terminate at) = at

-- The signals come in the order of their times.
abbrev pub Ordered : List Signal → Type 0
Ordered [] = Unit
Ordered (s ∷ signals) = All (λ t. time s ≤ time t) signals × Ordered signals

-- Some Ctrl+C comes before a deadline.
abbrev pub PressedBefore : ℕ → List Signal → Type 0
PressedBefore deadline [] = ⊥
PressedBefore deadline (ctrl_c at ∷ signals) = (at < deadline) ⊎ PressedBefore deadline signals
PressedBefore deadline (terminate at ∷ signals) = PressedBefore deadline signals

late :
    (deadline at : ℕ) (signals : List Signal)
    → deadline ≤ at
    → All (λ t. at ≤ time t) signals
    → PressedBefore deadline signals
    → ⊥
late deadline at [] h later p = p
late deadline at (ctrl_c t ∷ signals) h later (inl early) = omega (arith, h, later.0, early)
late deadline at (ctrl_c t ∷ signals) h later (inr p) = late deadline at signals h later.1 p
late deadline at (terminate t ∷ signals) h later p = late deadline at signals h later.1 p

is_forced_iff :
    (first : ℕ) (signals : List Signal)
    → Ordered signals
    → (is_forced first signals ≡ true) ↔ PressedBefore (first + 10) signals
unfolding is_forced
is_forced_iff first [] ordered = (λ h. cc h, λ p. elim p [ ])
is_forced_iff first (ctrl_c at ∷ signals) ordered = (
  λ h. inl (ground (arith, h)),
  λ p. elim p [
    | inl early ↦ ground (arith, early)
    | inr later ↦ elim (Bool-cases (ltb at (first + 10))) [
      | inl early ↦ early
      | inr past ↦ absurd (late (first + 10) at signals (ground (arith, past)) ordered.0 later)
    ]
  ],
)
is_forced_iff first (terminate at ∷ signals) ordered = is_forced_iff first signals ordered.1

-- A first Ctrl+C, and another one within ten seconds.
abbrev pub IsForced : List Signal → Type 0
IsForced [] = ⊥
IsForced (ctrl_c at ∷ signals) = PressedBefore (at + 10) signals
IsForced (terminate at ∷ signals) = ⊥

shutdown_signal-IsForced :
    (signals : List Signal)
    → Ordered signals
    → ((get_or (shutdown_signal signals) false ≡ true) × IsForced signals)
      ⊎ ((get_or (shutdown_signal signals) false ≡ false) × (¬ IsForced signals))
unfolding shutdown_signal
shutdown_signal-IsForced [] ordered = inr (refl, λ forced. forced)
shutdown_signal-IsForced (terminate at ∷ signals) ordered = inr (refl, λ forced. forced)
shutdown_signal-IsForced (ctrl_c at ∷ signals) ordered =
    let (to, from) = is_forced_iff at signals ordered.1 in
    elim (Bool-cases (is_forced at signals)) [
      | inl forced ↦ inl (forced, to forced)
      | inr waited ↦ inr (waited, λ p. cc (waited, from p))
    ]

-- With signals that come in the order of their times, and whatever the result of the server, the
-- program returns without an error. If the first signal is a Ctrl+C and another one comes less than
-- ten seconds after it, all tasks are aborted; else the tasks are shut down, which succeeds exactly
-- if all return within 30 seconds.
pub end_main-IsForced :
    (signals : List Signal) (server : Result Text (Unit {0})) (tasks : List TaskEnd)
    → Ordered signals
    → ((end_main signals server tasks).0 ≡ Result.ok tt)
      × ((IsForced signals × ((end_main signals server tasks).1.aborted ≡ tasks))
          ⊎ ((¬ IsForced signals)
              × (((end_main signals server tasks).1.result ≡ Result.ok tt)
                  ↔ All (ReturnedIn 30) tasks)))
unfolding end_main end_tasks
end_main-IsForced signals server tasks ordered = (
  refl,
  elim (shutdown_signal-IsForced signals ordered) [
    | inl (set, forced) ↦ inl (forced, rw (set, end_tasks) refl)
    | inr (unset, unforced) ↦
        inr (unforced, rw (unset, end_tasks) (graceful_shutdown_iff tasks 30).0)
  ],
)

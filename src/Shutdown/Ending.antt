-- ===== src/Shutdown/Ending.antt =====
-- When a shutdown is clean.
use azoth_balancer.Prelude.{
  ℕ, ◌≤◌, ◌≡◌, ◌↔◌, refl, List, [], ◌∷◌, arith, ltb, All, Bool-cases, inl, inr, false, Result,
}
use azoth_balancer.Shutdown.{TaskEnd, returned, failed, running, join_all, graceful_shutdown}

-- The task returned within the time limit.
abbrev pub ReturnedIn : ℕ → TaskEnd → Type 0
ReturnedIn limit (returned after) = after ≤ limit
ReturnedIn limit (failed after e) = ⊥
ReturnedIn limit running = ⊥

join_all-ok :
    (limit : ℕ) (tasks : List TaskEnd)
    → (join_all limit tasks).result ≡ Result.ok tt
    → All (ReturnedIn limit) tasks
unfolding join_all
join_all-ok limit [] h = tt
join_all-ok limit (returned after ∷ tasks) h = elim (Bool-cases (ltb limit after)) [
  | inl late ↦ cc (rw late at h)
  | inr early ↦ (ground (arith, early), join_all-ok limit tasks (rw early at h))
]
join_all-ok limit (failed after e ∷ tasks) h = elim (Bool-cases (ltb limit after)) [
  | inl late ↦ cc (rw late at h)
  | inr early ↦ cc (rw early at h)
]
join_all-ok limit (running ∷ tasks) h = cc h

returned-join_all :
    (limit : ℕ) (tasks : List TaskEnd)
    → All (ReturnedIn limit) tasks
    → ((join_all limit tasks).result ≡ Result.ok tt) × ((join_all limit tasks).aborted ≡ [])
unfolding join_all
returned-join_all limit [] h = (refl, refl)
returned-join_all limit (returned after ∷ tasks) h =
    let early : ltb limit after ≡ false = ground (arith, h.0) in
    rw early (returned-join_all limit tasks h.1)
returned-join_all limit (failed after e ∷ tasks) h = elim h.0 [ ]
returned-join_all limit (running ∷ tasks) h = elim h.0 [ ]

-- A graceful shutdown succeeds exactly when every task returns within the time limit, and then no
-- task is aborted.
pub graceful_shutdown_iff :
    (tasks : List TaskEnd) (limit : ℕ)
    → (((graceful_shutdown tasks limit).result ≡ Result.ok tt) ↔ All (ReturnedIn limit) tasks)
      × (All (ReturnedIn limit) tasks → (graceful_shutdown tasks limit).aborted ≡ [])
unfolding graceful_shutdown
graceful_shutdown_iff tasks limit = (
  (join_all-ok limit tasks, λ h. (returned-join_all limit tasks h).0),
  λ h. (returned-join_all limit tasks h).1,
)

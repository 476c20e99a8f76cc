-- ===== src/Locks/Progress.antt =====
-- Threads that run sections over the locks of the balancer always come to their end.
use azoth_balancer.Prelude.{
  ℕ, zero, suc, ◌+◌, ◌≤◌, ◌≡◌, ◌⊎◌, refl, arith, List, [], ◌∷◌, ◌++◌, map, some, All, nth, set_nth,
  inl, inr, length, ap,
}
use azoth_balancer.Locks.{Lock, Mode, Call, ask, take, release, Section}
use azoth_balancer.Locks.Threads.{
  Policy, ParkingLot, Thread, Ended, rank, holders, perform, perform_at, interleave, spawn,
  calls_left,
}
use azoth_balancer.Locks.Sections.{spawn-Nested}
use azoth_balancer.Locks.Order.{rank_lt}
use azoth_balancer.Locks.Steps.{
  IsNested, CanStep, All-nth, perform_at-Nested, interleave-Nested, interleave-append,
}
use azoth_balancer.Locks.Waiting.{holders-cases, waiting-nth, waiting-cons}

Call-cases :
    (rest : List Call) → (rest ≡ []) ⊎ ((c : Call) × (after : List Call) × (rest ≡ c ∷ after))
Call-cases [] = inl refl
Call-cases (c ∷ after) = inr (c, after, refl)

-- All calls are made, or some thread has one left.
some_call :
    (ts : List Thread)
    → All (λ t. t.rest ≡ []) ts
      ⊎ ((i : ℕ) × (t : Thread) × (c : Call) × (after : List Call) × (nth i ts ≡ some t)
          × (t.rest ≡ c ∷ after))
some_call [] = inl tt
some_call (t ∷ ts) = elim (Call-cases t.rest) [
  | inr (c, after, e) ↦ inr (0, t, c, after, refl, e)
  | inl ended ↦ elim (some_call ts) [
    | inl all ↦ inl (ended, all)
    | inr (i, u, c, after, at, e) ↦ inr (suc i, u, c, after, at, e)
  ]
]

-- A thread with no call left holds no guard.
All-Ended : (ts : List Thread) → All (λ t. t.rest ≡ []) ts → All IsNested ts → All Ended ts
All-Ended [] ended nested = tt
All-Ended (t ∷ ts) ended nested = ((ended.0, rw ended.0 at nested.0), All-Ended ts ended.1 nested.1)

calls_left-Ended : (ts : List Thread) → All Ended ts → calls_left ts ≡ 0
calls_left-Ended [] h = refl
calls_left-Ended (t ∷ ts) h = omega (arith, ap length h.0.0, calls_left-Ended ts h.1)

spawn_all-Nested : (tasks : List (List Section)) → All IsNested (map spawn tasks)
spawn_all-Nested [] = tt
spawn_all-Nested (ss ∷ tasks) = (spawn-Nested ss, spawn_all-Nested tasks)

module _ (p : Policy) where
  -- A thread has ended, waits for a lock, or goes on.
  perform-cases :
      (ts : List Thread) (held : List (Lock × Mode)) (rest : List Call)
      → (rest ≡ [])
        ⊎ (((m : Mode) × (l : Lock) × (after : List Call) × (rest ≡ take m l ∷ after))
            ⊎ ((t : Thread) × (perform p ts held rest ≡ some t)))
  unfolding perform
  perform-cases ts held [] = inl refl
  perform-cases ts held (take m l ∷ rest) = inr (inl (m, l, rest, refl))
  perform-cases ts held (ask m l ∷ rest) = inr (inr (_, refl))
  perform-cases ts held (release l ∷ rest) = inr (inr (_, refl))

  CanStep-perform :
      (i : ℕ) (t t' : Thread) (ts : List Thread)
      → nth i ts ≡ some t
      → perform p ts t.held t.rest ≡ some t'
      → CanStep p ts
  unfolding perform_at
  CanStep-perform i t t' ts at moved = (i, set_nth i t' ts, rw (at, moved))

  -- One of those that ask for a free lock is let in.
  CanStep-free :
      ParkingLot p
      → (ts : List Thread) (i : ℕ) (t : Thread) (m : Mode) (l : Lock) (after : List Call)
      → nth i ts ≡ some t
      → t.rest ≡ take m l ∷ after
      → holders l ts ≡ []
      → CanStep p ts
  unfolding perform
  CanStep-free lot ts i t m l after at asks free =
      let (m0, ms, wait) = waiting-cons l i t m after ts at asks in
      let (k, m', chosen, granted) = lot.serves m0 ms in
      let (j, u, after', at', asks') = waiting-nth l k m' ts (rw wait chosen) in
      let u' = record u { held = (l, m') ∷ u.held; rest = after' } in
      CanStep-perform j u u' ts at' (rw (asks', perform) (rw (free, wait) (rw granted)))

  -- From a thread that waits for a lock along those that hold it to one that goes on: the places of
  -- the locks grow.
  chase :
      ParkingLot p
      → (n : ℕ) (ts : List Thread) (i : ℕ) (t : Thread) (m : Mode) (l : Lock) (after : List Call)
      → All IsNested ts
      → nth i ts ≡ some t
      → t.rest ≡ take m l ∷ after
      → 15 ≤ rank l + n
      → CanStep p ts
  chase lot zero ts i t m l after all at asks bound = absurd (omega (arith, rank_lt l, bound))
  chase lot (suc n) ts i t m l after all at asks bound = elim (holders-cases l ts) [
    | inl free ↦ CanStep-free lot ts i t m l after at asks free
    | inr (j, u, at', holds) ↦
        let nested = All-nth IsNested j u ts at' all in
        elim (perform-cases ts u.held u.rest) [
          | inl ended ↦ absurd (omega (arith, holds 0 (rw (rw ended at nested) tt)))
          | inr (inl (m', l', after', asks')) ↦
              let (below, _) = rw asks' at nested in
              chase lot n ts j u m' l' after' all at' asks'
                (omega (arith, holds (rank l') below, bound))
          | inr (inr (u', moved)) ↦ CanStep-perform j u u' ts at' moved
        ]
  ]

  -- Threads that nest their guards have all ended, or one of them goes on.
  Ended-CanStep : ParkingLot p → (ts : List Thread) → All IsNested ts → All Ended ts ⊎ CanStep p ts
  Ended-CanStep lot ts all = elim (some_call ts) [
    | inl ended ↦ inl (All-Ended ts ended all)
    | inr (i, t, c, after, at, e) ↦ elim (perform-cases ts t.held t.rest) [
      | inl ended ↦ absurd (cc (e, ended))
      | inr (inl (m, l, after', asks)) ↦
          inr (chase lot 15 ts i t m l after' all at asks (omega arith))
      | inr (inr (t', moved)) ↦ inr (CanStep-perform i t t' ts at moved)
    ]
  ]

  -- A schedule that ends them.
  abbrev Ends : List Thread → ℕ → Type 0
  Ends ts n =
      (more : List ℕ) × (us : List Thread) × (interleave p more ts ≡ some us)
      × All Ended us
      × (length more ≡ n)

  nested-Ends :
      ParkingLot p → (n : ℕ) (ts : List Thread) → All IsNested ts → calls_left ts ≡ n → Ends ts n
  unfolding interleave
  nested-Ends lot zero ts all left = elim (Ended-CanStep lot ts all) [
    | inl ended ↦ ([], ts, refl, ended, refl)
    | inr (i, us, moved) ↦ absurd (omega (arith, left, (perform_at-Nested p i ts us moved all).1))
  ]
  nested-Ends lot (suc n) ts all left = elim (Ended-CanStep lot ts all) [
    | inl ended ↦ absurd (omega (arith, left, calls_left-Ended ts ended))
    | inr (i, us, moved) ↦
        let (all', less) = perform_at-Nested p i ts us moved all in
        let (more, vs, e, ended, len) = nested-Ends lot n us all' (omega (arith, left, less)) in
        (i ∷ more, vs, rw moved e, ended, ap suc len)
  ]

  -- Let tasks run any sections of the balancer but the status report, over locks that keep what
  -- parking_lot documents. Whatever calls the threads have made so far, they are in no deadlock: a
  -- schedule leads on to the end, where all calls are made and no guard is held. The two schedules
  -- together have as many calls as the tasks, so no schedule goes on for longer.
  pub sections-end :
      ParkingLot p
      → (tasks : List (List Section)) (schedule : List ℕ) (ts : List Thread)
      → interleave p schedule (map spawn tasks) ≡ some ts
      → (more : List ℕ) × (us : List Thread) × (interleave p (schedule ++ more) (map spawn tasks)
          ≡ some us)
        × All Ended us
        × (length schedule + length more ≡ calls_left (map spawn tasks))
  sections-end lot tasks schedule ts e =
      let (all, left) =
        interleave-Nested p schedule (map spawn tasks) ts e (spawn_all-Nested tasks) in
      let (more, us, e', ended, len) = nested-Ends lot (calls_left ts) ts all refl in
      (
        more,
        us,
        interleave-append p schedule more (map spawn tasks) ts us e e',
        ended,
        omega (arith, left, len),
      )

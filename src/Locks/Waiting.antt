-- ===== src/Locks/Waiting.antt =====
-- Who holds a lock and who waits for it, as threads.
use azoth_balancer.Prelude.{
  ℕ, zero, suc, ◌<◌, ◌≡◌, ◌⊎◌, refl, List, [], ◌∷◌, some, All, nth, Bool-cases, inl, inr,
}
use azoth_balancer.Locks.{Lock, Mode, Call, ask, take, release}
use azoth_balancer.Locks.Threads.{Thread, rank, lock_eq, modes_of, holders, asks_for, waiting}
use azoth_balancer.Locks.Nesting.{lock_eq_refl}
use azoth_balancer.Locks.Order.{lock_eq-rank, lock_eq_sound}

-- A bound on the places of the guards of a thread that is a bound on the place of a lock too.
abbrev pub HoldsAt : Lock → List (Lock × Mode) → Type 0
HoldsAt l held = (k : ℕ) → All (λ h. rank h.0 < k) held → rank l < k

modes_of-cases : (l : Lock) (held : List (Lock × Mode)) → (modes_of l held ≡ []) ⊎ HoldsAt l held
unfolding modes_of
modes_of-cases l [] = inl refl
modes_of-cases l ((l', m) ∷ held) = elim (Bool-cases (lock_eq l' l)) [
  | inl same ↦ inr (λ k below. rw (← lock_eq-rank l' l same) below.0)
  | inr other ↦ elim (modes_of-cases l held) [
    | inl none_held ↦ inl (rw (other, none_held))
    | inr found ↦ inr (λ k below. found k below.1)
  ]
]

-- A lock is free, or a thread holds a guard of it.
pub holders-cases :
    (l : Lock) (ts : List Thread)
    → (holders l ts ≡ []) ⊎ ((i : ℕ) × (t : Thread) × (nth i ts ≡ some t) × HoldsAt l t.held)
unfolding holders
holders-cases l [] = inl refl
holders-cases l (t ∷ ts) = elim (modes_of-cases l t.held) [
  | inr found ↦ inr (0, t, refl, found)
  | inl without ↦ elim (holders-cases l ts) [
    | inl free ↦ inl (rw (without, free))
    | inr (i, u, at, found) ↦ inr (suc i, u, at, found)
  ]
]

asks_for-cases :
    (l : Lock) (rest : List Call)
    → (asks_for l rest ≡ [])
      ⊎ ((m : Mode) × (after : List Call) × (rest ≡ take m l ∷ after) × (asks_for l rest ≡ m ∷ []))
unfolding asks_for
asks_for-cases l [] = inl refl
asks_for-cases l (ask m l' ∷ rest) = inl refl
asks_for-cases l (release l' ∷ rest) = inl refl
asks_for-cases l (take m l' ∷ rest) = elim (Bool-cases (lock_eq l' l)) [
  | inl same ↦ inr (m, rest, rw (lock_eq_sound l' l same), rw same)
  | inr other ↦ inl (rw other)
]

-- Each mode that is asked for is that of a thread.
pub waiting-nth :
    (l : Lock) (k : ℕ) (m : Mode) (ts : List Thread)
    → nth k (waiting l ts) ≡ some m
    → (i : ℕ) × (t : Thread) × (after : List Call) × (nth i ts ≡ some t)
      × (t.rest ≡ take m l ∷ after)
unfolding waiting
waiting-nth l k m [] e = absurd (cc e)
waiting-nth l zero m (t ∷ ts) e = elim (asks_for-cases l t.rest) [
  | inl silent ↦
      let (i, u, after, at, asks) = waiting-nth l zero m ts (rw silent at e) in
      (suc i, u, after, at, asks)
  | inr (m', after, asks, shown) ↦
      let same : m' ≡ m = cc (rw shown at e) in (0, t, after, refl, rw (← same) asks)
]
waiting-nth l (suc k) m (t ∷ ts) e = elim (asks_for-cases l t.rest) [
  | inl silent ↦
      let (i, u, after, at, asks) = waiting-nth l (suc k) m ts (rw silent at e) in
      (suc i, u, after, at, asks)
  | inr (m', after, asks, shown) ↦
      let (i, u, after', at, asks') = waiting-nth l k m ts (rw shown at e) in
      (suc i, u, after', at, asks')
]

-- A lock that a thread asks for is waited for.
pub waiting-cons :
    (l : Lock) (i : ℕ) (t : Thread) (m : Mode) (after : List Call) (ts : List Thread)
    → nth i ts ≡ some t
    → t.rest ≡ take m l ∷ after
    → (m0 : Mode) × (ms : List Mode) × (waiting l ts ≡ m0 ∷ ms)
unfolding waiting
waiting-cons l i t m after [] at e = absurd (cc at)
waiting-cons l zero t m after (u ∷ ts) at e =
    let here : u ≡ t = cc at in (m, waiting l ts, rw (here, e, asks_for) (rw (lock_eq_refl l)))
waiting-cons l (suc i) t m after (u ∷ ts) at e =
    let (m0, ms, some_wait) = waiting-cons l i t m after ts at e in
    elim (asks_for-cases l u.rest) [
      | inl silent ↦ (m0, ms, rw (silent, some_wait))
      | inr (m', after', asks, shown) ↦ (m', waiting l ts, rw shown)
    ]

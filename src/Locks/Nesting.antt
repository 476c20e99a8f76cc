-- ===== src/Locks/Nesting.antt =====
-- The order in which a section nests its guards: each lock comes after those that are held.
use azoth_balancer.Prelude.{
  ℕ, suc, ◌≤◌, ◌<◌, ◌≡◌, arith, true, List, [], ◌∷◌, ◌++◌, All, All-mono, text_eq_refl,
}
use mathlib.Core.List.{append_assoc}
use azoth_balancer.Locks.{Lock, Mode, Call, ask, take, release, guarded}
use azoth_balancer.Locks.Threads.{rank, url_of, lock_eq, forget}

pub lock_eq_refl : (l : Lock) → lock_eq l l ≡ true
unfolding lock_eq
lock_eq_refl l = ground (arith, text_eq_refl (url_of l))

-- What is left nests its guards, and drops all of them.
abbrev pub Nested : List (Lock × Mode) → List Call → Type 0
Nested held [] = held ≡ []
Nested held (ask m l ∷ rest) = Nested held rest
Nested held (take m l ∷ rest) = All (λ h. rank h.0 < rank l) held × Nested ((l, m) ∷ held) rest
Nested held (release l ∷ rest) = Nested (forget l held) rest

-- Calls that may stand under any guards of locks before the k-th.
abbrev pub Under : ℕ → List Call → Type 0
Under k body =
    (held : List (Lock × Mode)) (rest : List Call)
    → All (λ h. rank h.0 < k) held
    → Nested held rest
    → Nested held (body ++ rest)

pub Under-nil : (k : ℕ) → Under k []
Under-nil k held rest low n = n

pub Under-append : (k : ℕ) (a b : List Call) → Under k a → Under k b → Under k (a ++ b)
Under-append k a b ua ub held rest low n =
    rw append_assoc (ua held (b ++ rest) low (ub held rest low n))

pub Under-guarded :
    (k : ℕ) (m : Mode) (l : Lock) (body : List Call)
    → k ≤ rank l
    → Under (suc (rank l)) body
    → Under k (guarded m l body)
unfolding forget
Under-guarded k m l body le u held rest low n = (
  All-mono (λ h lt. omega (arith, lt, le)) held low,
  rw append_assoc (
      u ((l, m) ∷ held) (release l ∷ rest)
        (omega arith, All-mono (λ h lt. omega (arith, lt, le)) held low) (rw (lock_eq_refl l) n)),
)

pub Under-field : (k : ℕ) (m : Mode) (l : Lock) → k ≤ rank l → Under k (guarded m l [])
Under-field k m l le = Under-guarded k m l [] le (Under-nil (suc (rank l)))

-- Calls that take fields one after the other.
abbrev pub Fields : Type 0
Fields = List (Mode × Lock)

abbrev pub take_fields : Fields → List Call
take_fields [] = []
take_fields ((m, l) ∷ []) = guarded m l []
take_fields ((m, l) ∷ f ∷ fs) = guarded m l [] ++ take_fields (f ∷ fs)

pub Under-take_fields :
    (k : ℕ) (fs : Fields) → All (λ f. k ≤ rank f.1) fs → Under k (take_fields fs)
Under-take_fields k [] h = Under-nil k
Under-take_fields k ((m, l) ∷ []) h = Under-field k m l h.0
Under-take_fields k ((m, l) ∷ f ∷ fs) h =
    Under-append k (guarded m l []) (take_fields (f ∷ fs)) (Under-field k m l h.0)
      (Under-take_fields k (f ∷ fs) h.1)

-- ===== src/Locks/Steps.antt =====
-- A call of a thread takes one of its calls and keeps the nesting.
use azoth_balancer.Prelude.{
  ℕ, zero, suc, ◌+◌, ◌≡◌, refl, arith, List, [], ◌∷◌, ◌++◌, some, All, nth, set_nth, Sat,
  Bool-cases, inl, inr, ap, sym, subst, Option-cases, length,
}
use azoth_balancer.Locks.{Lock, Mode, Call, ask, take, release}
use azoth_balancer.Locks.Threads.{
  Policy, Thread, holders, waiting, perform, perform_at, interleave, calls_left,
}
use azoth_balancer.Locks.Nesting.{Nested}

abbrev pub IsNested : Thread → Type 0
IsNested t = Nested t.held t.rest

All-set_nth :
    (P : Thread → Type 0) (i : ℕ) (t : Thread) (ts : List Thread)
    → P t
    → All P ts
    → All P (set_nth i t ts)
All-set_nth P i t [] h all = all
All-set_nth P zero t (x ∷ ts) h all = (h, all.1)
All-set_nth P (suc i) t (x ∷ ts) h all = (all.0, All-set_nth P i t ts h all.1)

pub All-nth :
    (P : Thread → Type 0) (i : ℕ) (t : Thread) (ts : List Thread)
    → nth i ts ≡ some t
    → All P ts
    → P t
All-nth P i t [] e all = cc e
All-nth P zero t (x ∷ ts) e all = ground (arith, all.0)
All-nth P (suc i) t (x ∷ ts) e all = All-nth P i t ts e all.1

calls_left-set_nth :
    (i : ℕ) (t t' : Thread) (ts : List Thread)
    → nth i ts ≡ some t
    → length t.rest ≡ suc (length t'.rest)
    → calls_left ts ≡ suc (calls_left (set_nth i t' ts))
calls_left-set_nth i t t' [] e h = cc e
calls_left-set_nth zero t t' (x ∷ ts) e h = ground arith
calls_left-set_nth (suc i) t t' (x ∷ ts) e h = omega (arith, calls_left-set_nth i t t' ts e h)

-- What holds of the thread that is computed holds of the result.
next :
    {before t : Thread} (rest : List Call)
    → some before ≡ some t
    → IsNested before × (length rest ≡ length before.rest)
    → IsNested t × (suc (length rest) ≡ suc (length t.rest))
next rest e h =
    let (n, same) = subst (λ o. Sat o (λ x. IsNested x × (length rest ≡ length x.rest))) e h in
    (n, ap suc same)

module _ (p : Policy) where
  abbrev pub CanStep : List Thread → Type 0
  CanStep ts = (i : ℕ) × (us : List Thread) × (perform_at p i ts ≡ some us)

  -- A call is one of those that are left, and keeps the nesting.
  perform-Nested :
      (ts : List Thread) (held : List (Lock × Mode)) (rest : List Call) (t : Thread)
      → perform p ts held rest ≡ some t
      → Nested held rest
      → IsNested t × (length rest ≡ suc (length t.rest))
  unfolding perform
  perform-Nested ts held [] t e n = cc e
  perform-Nested ts held (ask m l ∷ rest) t e n = next rest e (n, refl)
  perform-Nested ts held (take m l ∷ rest) t e n =
      elim (Bool-cases (p.lets_in (holders l ts) (waiting l ts) m)) [
        | inl free ↦ next rest (rw free at e) (n.1, refl)
        | inr shut ↦ absurd (cc (rw shut at e))
      ]
  perform-Nested ts held (release l ∷ rest) t e n = next rest e (n, refl)

  pub perform_at-Nested :
      (i : ℕ) (ts us : List Thread)
      → perform_at p i ts ≡ some us
      → All IsNested ts
      → All IsNested us × (calls_left ts ≡ suc (calls_left us))
  unfolding perform_at
  perform_at-Nested i ts us e all = elim (Option-cases (nth i ts)) [
    | inl out ↦ absurd (cc (rw out at e))
    | inr (t, at) ↦ elim (Option-cases (perform p ts t.held t.rest)) [
      | inl blocked ↦ absurd (cc (rw (at, blocked) at e))
      | inr (t', moved) ↦
          let (n, less) =
            perform-Nested ts t.held t.rest t' moved (All-nth IsNested i t ts at all) in
          subst (λ o. Sat o (λ vs. All IsNested vs × (calls_left ts ≡ suc (calls_left vs))))
            (rw (at, moved) at e)
            (All-set_nth IsNested i t' ts n all, calls_left-set_nth i t t' ts at less)
    ]
  ]

  pub interleave-Nested :
      (schedule : List ℕ) (ts us : List Thread)
      → interleave p schedule ts ≡ some us
      → All IsNested ts
      → All IsNested us × (calls_left ts ≡ length schedule + calls_left us)
  unfolding interleave
  interleave-Nested [] ts us e all =
      subst (λ o. Sat o (λ vs. All IsNested vs × (calls_left ts ≡ 0 + calls_left vs))) e
        (all, omega arith)
  interleave-Nested (i ∷ schedule) ts us e all = elim (Option-cases (perform_at p i ts)) [
    | inl blocked ↦ absurd (cc (rw blocked at e))
    | inr (vs, moved) ↦
        let (n, one) = perform_at-Nested i ts vs moved all in
        let (n', more) = interleave-Nested schedule vs us (rw moved at e) n in
        (n', omega (arith, one, more))
  ]

  -- A schedule after another one.
  pub interleave-append :
      (first second : List ℕ) (ts us vs : List Thread)
      → interleave p first ts ≡ some us
      → interleave p second us ≡ some vs
      → interleave p (first ++ second) ts ≡ some vs
  unfolding interleave
  interleave-append [] second ts us vs e f =
      subst (λ o. Sat o (λ x. interleave p second x ≡ some vs)) (sym e) f
  interleave-append (i ∷ first) second ts us vs e f = elim (Option-cases (perform_at p i ts)) [
    | inl blocked ↦ absurd (cc (rw blocked at e))
    | inr (ws, moved) ↦ rw moved (interleave-append first second ws us vs (rw moved at e) f)
  ]

-- ===== src/Prelude/Sort.antt =====
-- `slice::sort_by`: the stable sort by a comparator, as an insertion sort.
use Prim.Native.Nat.{Ordering}
use mathlib.Core.Path.{◌≡◌}
use mathlib.Core.Bool.{Bool, true, false}
use mathlib.Core.List.{List, [], ◌∷◌, ◌++◌}
use mathlib.Core.List.{Perm}
use mathlib.Core.List.Perm
use mathlib.Core.Option.{some}
use native.Mathlib.Omega.{arith}
use azoth_balancer.Prelude.Tests.{if◌then◌else◌, Bool-cases}
use azoth_balancer.Prelude.Lists.{All, All-mono, All-append, find}
use mathlib.Core.Logic.{inl, inr}

abbrev pub is_gt : Ordering → Bool
is_gt Ordering.gt = true
is_gt Ordering.eq = false
is_gt Ordering.lt = false

-- `Ordering::then_with`; the second comparison is a pure function of the two entries
abbrev pub then_with : Ordering → Ordering → Ordering
then_with Ordering.eq o = o
then_with Ordering.lt o = Ordering.lt
then_with Ordering.gt o = Ordering.gt

module _ {ℓ} {A : Type ℓ} (cmp : A → A → Ordering) where
  -- an entry goes in front of those that it does not exceed, equal ones included
  unfoldable pub insert_by : A → List A → List A
  insert_by x [] = x ∷ []
  insert_by x (y ∷ ys) = if is_gt (cmp x y) then y ∷ insert_by x ys else x ∷ y ∷ ys

  unfoldable pub sort_by : List A → List A
  unfolding insert_by
  sort_by [] = []
  sort_by (x ∷ xs) = insert_by x (sort_by xs)

  abbrev pub IsSortedBy : List A → Type ℓ
  IsSortedBy [] = Unit
  IsSortedBy (x ∷ xs) = All (λ y. is_gt (cmp x y) ≡ false) xs × IsSortedBy xs

module _ {ℓ κ} {A : Type ℓ} (cmp : A → A → Ordering) (P : A → Type κ) where
  All-insert_by : (x : A) (xs : List A) → P x → All P xs → All P (insert_by cmp x xs)
  unfolding insert_by
  All-insert_by x [] px h = (px, tt)
  All-insert_by x (y ∷ ys) px h = ground (arith, All-insert_by x ys px h.1)

  All-insert_by_inv : (x : A) (xs : List A) → All P (insert_by cmp x xs) → P x × All P xs
  unfolding insert_by
  All-insert_by_inv x [] h = (h.0, tt)
  All-insert_by_inv x (y ∷ ys) h = ground (arith, All-insert_by_inv x ys)

  pub All-sort_by : (xs : List A) → All P xs → All P (sort_by cmp xs)
  unfolding sort_by
  All-sort_by [] h = tt
  All-sort_by (x ∷ xs) h = All-insert_by x (sort_by cmp xs) h.0 (All-sort_by xs h.1)

  pub All-sort_by_inv : (xs : List A) → All P (sort_by cmp xs) → All P xs
  unfolding sort_by
  All-sort_by_inv [] h = tt
  All-sort_by_inv (x ∷ xs) h =
      let (px, rest) = All-insert_by_inv x (sort_by cmp xs) h in (px, All-sort_by_inv xs rest)

module _ {ℓ} {A : Type ℓ} (cmp : A → A → Ordering)
    (trans : (a b c : A)
      → is_gt (cmp a b) ≡ false
      → is_gt (cmp b c) ≡ false
      → is_gt (cmp a c) ≡ false)
    (flip : (a b : A) → is_gt (cmp a b) ≡ true → is_gt (cmp b a) ≡ false) where
  insert_by-IsSortedBy :
      (x : A) (xs : List A) → IsSortedBy cmp xs → IsSortedBy cmp (insert_by cmp x xs)
  unfolding insert_by
  insert_by-IsSortedBy x [] h = (tt, tt)
  insert_by-IsSortedBy x (y ∷ ys) h = elim (Bool-cases (is_gt (cmp x y))) [
    | inl after ↦ rw after (
      All-insert_by cmp (λ z. is_gt (cmp y z) ≡ false) x ys (flip x y after) h.0,
      insert_by-IsSortedBy x ys h.1,
    )
    | inr before ↦ rw before ((before, All-mono (λ z. trans x y z before) ys h.0), h)
  ]

  pub sort_by-IsSortedBy : (xs : List A) → IsSortedBy cmp (sort_by cmp xs)
  unfolding sort_by
  sort_by-IsSortedBy [] = tt
  sort_by-IsSortedBy (x ∷ xs) = insert_by-IsSortedBy x (sort_by cmp xs) (sort_by-IsSortedBy xs)

module _ {ℓ} {A : Type ℓ} (cmp : A → A → Ordering) where
  insert_by-Perm : (x : A) (xs : List A) → Perm (insert_by cmp x xs) (x ∷ xs)
  unfolding insert_by
  insert_by-Perm x [] = Perm.refl (x ∷ [])
  insert_by-Perm x (y ∷ ys) = elim (Bool-cases (is_gt (cmp x y))) [
    | inl after ↦ rw after (Perm.trans (Perm.cons y (insert_by-Perm x ys)) (Perm.swap x y ys))
    | inr before ↦ rw before (Perm.refl (x ∷ y ∷ ys))
  ]

  pub sort_by-Perm : (xs : List A) → Perm (sort_by cmp xs) xs
  unfolding sort_by
  sort_by-Perm [] = Perm.refl []
  sort_by-Perm (x ∷ xs) =
      Perm.trans (insert_by-Perm x (sort_by cmp xs)) (Perm.cons x (sort_by-Perm xs))

  pub IsSortedBy-append :
      (xs ys : List A)
      → IsSortedBy cmp xs
      → IsSortedBy cmp ys
      → All (λ x. All (λ y. is_gt (cmp x y) ≡ false) ys) xs
      → IsSortedBy cmp (xs ++ ys)
  IsSortedBy-append [] ys sx sy across = sy
  IsSortedBy-append (x ∷ xs) ys sx sy across = (
    All-append (λ y. is_gt (cmp x y) ≡ false) xs ys sx.0 across.0,
    IsSortedBy-append xs ys sx.1 sy across.1,
  )

  -- In a sorted list the first entry that passes a test comes before the others that pass it.
  pub find-IsSortedBy :
      ((a : A) → is_gt (cmp a a) ≡ false)
      → (p : A → Bool) (xs : List A) (e : A) → IsSortedBy cmp xs
      → find p xs ≡ some e
      → All (λ x. p x ≡ true → is_gt (cmp e x) ≡ false) xs
  find-IsSortedBy irrefl p [] e s h = tt
  find-IsSortedBy irrefl p (y ∷ ys) e s h = elim (Bool-cases (p y)) [
    | inl hit ↦
        let here : y ≡ e = ground arith in
        (λ _. rw here (irrefl e), All-mono (λ x q _. rw here at q) ys s.0)
    | inr miss ↦ (λ q. cc, find-IsSortedBy irrefl p ys e s.1 (rw miss at h))
  ]

-- ===== src/Prelude/Updates.antt =====
-- What a search finds after a write to the first entry of a kind.
use mathlib.Core.Path.{◌≡◌, refl}
use mathlib.Core.Bool.{Bool, true, false}
use mathlib.Core.Option.{none, some}
use mathlib.Core.List.{List, [], ◌∷◌}
use native.Mathlib.Omega.{arith}
use azoth_balancer.Prelude.Lists.{find, update_first}

module _ {ℓ} {A : Type ℓ} (p : A → Bool) (f : A → A) where
  pub find-update_first :
      (xs : List A) (x : A)
      → find p xs ≡ some x
      → p (f x) ≡ true
      → find p (update_first p f xs) ≡ some (f x)
  unfolding update_first
  find-update_first [] x h q = ground arith
  find-update_first (y ∷ ys) x h q = ground (arith, find-update_first ys x)

  pub find-update_first_other :
      (q : A → Bool) (xs : List A)
      → ((x : A) → p x ≡ true → q x ≡ false)
      → ((x : A) → p x ≡ true → q (f x) ≡ false)
      → find q (update_first p f xs) ≡ find q xs
  unfolding update_first
  find-update_first_other q [] apart apart' = refl
  find-update_first_other q (y ∷ ys) apart apart' =
      ground (arith, apart y, apart' y, find-update_first_other q ys apart apart')

  pub update_first-none : (xs : List A) → find p xs ≡ none → update_first p f xs ≡ xs
  unfolding update_first
  update_first-none [] h = refl
  update_first-none (y ∷ ys) h = ground (arith, update_first-none ys)

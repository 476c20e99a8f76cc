-- ===== src/Prelude/Panics.antt =====
-- Code that may panic (`unwrap`, `expect`, a division by zero): `none` is a panic.
use mathlib.Core.Option.{Option, none, some}
use mathlib.Core.Bool.{Bool, true, false}
use mathlib.Core.List.{List, [], ◌∷◌}

infixl 5 ◌>>=◌
abbrev pub ◌>>=◌ {ℓ κ} : {A : Type ℓ} {B : Type κ} → Option A → (A → Option B) → Option B
none >>= f = none
some a >>= f = f a

-- `for` over a list whose body may panic, collecting the results.
abbrev pub collect {ℓ κ} : {A : Type ℓ} {B : Type κ} → (A → Option B) → List A → Option (List B)
collect f [] = some []
collect f (x ∷ xs) = do y ← f x; ys ← collect f xs; some (y ∷ ys)

-- A panic unless a condition holds.
abbrev pub ensure : Bool → Option (Unit {0})
ensure true = some tt
ensure false = none

-- ===== src/Prelude/Results.antt =====
-- Fallible computations, and what `expect` and `unwrap` leave of them.
use mathlib.Core.Option.{Option, none, some}
use mathlib.Core.Path.{◌≡◌, refl}
use mathlib.Core.Logic.{◌⊎◌, inl, inr}

pub data Result {ℓ κ} (E : Type κ) (A : Type ℓ) : Type (ℓ ⊔ κ) where
  ok : A → Result E A
  err : E → Result E A

-- `map_err`, which `?` applies through `From`
abbrev pub map_err {ℓ κ ρ} :
    {E : Type κ} {D : Type ρ} {A : Type ℓ} → (E → D) → Result E A → Result D A
map_err f (ok a) = ok a
map_err f (err e) = err (f e)

infixl 5 ◌>>=◌
abbrev pub ◌>>=◌ {ℓ κ ρ} :
    {E : Type ρ} {A : Type ℓ} {B : Type κ} → Result E A → (A → Result E B) → Result E B
ok a >>= f = f a
err e >>= f = err e

-- `unwrap_or`
abbrev pub get_or {ℓ} : {A : Type ℓ} → Option A → A → A
get_or (some a) d = a
get_or none d = d

-- `or`
abbrev pub or_some {ℓ} : {A : Type ℓ} → Option A → A → Option A
or_some (some a) d = some a
or_some none d = some d

pub Result-cases {ℓ κ} :
    {E : Type κ} {A : Type ℓ} (r : Result E A)
    → ((a : A) × (r ≡ Result.ok a)) ⊎ ((e : E) × (r ≡ Result.err e))
Result-cases (ok a) = inl (a, refl)
Result-cases (err e) = inr (e, refl)

-- There is a value, and it satisfies a predicate.
abbrev pub Sat {ℓ} : {A : Type ℓ} → Option A → (A → Type 0) → Type 0
Sat none P = ⊥
Sat (some a) P = P a

abbrev pub Given {ℓ} : {A : Type ℓ} → Option A → Type 0
Given o = Sat o (λ _. Unit {0})

pub or_some-Given {ℓ} : {A : Type ℓ} (o : Option A) (d : A) → Given (or_some o d)
or_some-Given none d = tt
or_some-Given (some a) d = tt

-- The value of an option that satisfies a predicate.
pub Sat-value {ℓ} :
    {A : Type ℓ} {P : A → Type 0} (o : Option A) → Sat o P → (a : A) × (o ≡ some a) × P a
Sat-value none h = elim h [ ]
Sat-value (some a) h = (a, refl, h)

pub Sat-both {ℓ} :
    {A : Type ℓ} (P Q : A → Type 0) (o : Option A) → Sat o P → Sat o Q → Sat o (λ a. P a × Q a)
Sat-both P Q none p q = p
Sat-both P Q (some a) p q = (p, q)

pub Sat-mono {ℓ} :
    {A : Type ℓ} (P Q : A → Type 0) (o : Option A) → Sat o P → ((a : A) → P a → Q a) → Sat o Q
Sat-mono P Q none p f = p
Sat-mono P Q (some a) p f = f a p

-- ===== src/Forwarder/Body.antt =====
-- `response_has_error` of src/forwarder.rs: the scan of a response body, given as its bytes.
use azoth_balancer.Prelude.{
  ◌≤◌, ℕ, ◌≡◌, ◌≢◌, ◌⊎◌, refl, sym, ap, ◌∙◌, Bool, true, false, not, [], ◌∷◌, ◌++◌, Option, none,
  some, arith, Text, codes, length, Option-cases, Bool-cases, inl, inr, if◌then◌else◌,
}
use azoth_balancer.Config.Urls.{is_whitespace, starts_with, drop, trim_start}

abbrev pub error_key : Text
error_key = codes "\"error\":"

-- What follows the first window that equals the key.
unfoldable pub after_key : Text → Text → Option Text
after_key key [] = none
after_key key (c ∷ bytes) =
    if starts_with key (c ∷ bytes)
    then some (drop (length key) (c ∷ bytes))
    else after_key key bytes

unfoldable pub response_has_error : Text → Bool
response_has_error bytes = elim (after_key error_key bytes) [
  | none ↦ false
  | some value ↦ not (starts_with (codes "null") (trim_start is_whitespace value))
]

none_fits : (c : ℕ) (p : Text) → starts_with (c ∷ p) [] ≢ true
unfolding starts_with
none_fits c p h = cc

same_head :
    (c d : ℕ) (p s : Text) → starts_with (c ∷ p) (d ∷ s) ≡ true → (c ≡ d) × (starts_with p s ≡ true)
unfolding starts_with
same_head c d p s h = ground arith

starts_with-drop : (p s : Text) → starts_with p s ≡ true → s ≡ p ++ drop (length p) s
starts_with-drop [] s h = refl
starts_with-drop (c ∷ p) [] h = absurd (none_fits c p h)
starts_with-drop (c ∷ p) (d ∷ s) h =
    let (same, rest) = same_head c d p s h in
    ap (◌∷◌ d) (starts_with-drop p s rest) ∙ ap (λ x. x ∷ p ++ drop (length p) s) (sym same)

starts_with-append : (p s : Text) → starts_with p (p ++ s) ≡ true
unfolding starts_with
starts_with-append [] s = refl
starts_with-append (c ∷ p) s = ground (arith, starts_with-append p s)

-- Where the key is not at the front, its first place in the rest is its first place.
later_first :
    (key bytes before : Text) (c : ℕ)
    → starts_with key (c ∷ bytes) ≡ false
    → ((other rest : Text) → bytes ≡ other ++ key ++ rest → length before ≤ length other)
    → (other rest : Text) → c ∷ bytes ≡ other ++ key ++ rest
    → length (c ∷ before) ≤ length other
later_first key bytes before c later first [] rest split =
    let here : starts_with key (c ∷ bytes) ≡ true =
      ap (starts_with key) split ∙ starts_with-append key rest in
    cc (here, later)
later_first key bytes before c later first (x ∷ other) rest split =
    omega (arith, first other rest (cc split))

after_key-found :
    (key bytes value : Text)
    → after_key key bytes ≡ some value
    → (before : Text) × (bytes ≡ before ++ key ++ value)
      × ((other rest : Text) → bytes ≡ other ++ key ++ rest → length before ≤ length other)
unfolding after_key
after_key-found key [] value h = cc
after_key-found key (c ∷ bytes) value h = elim (Bool-cases (starts_with key (c ∷ bytes))) [
  | inl here ↦ (
    [],
    starts_with-drop key (c ∷ bytes) here ∙ ap (λ v. key ++ v) (cc (rw here at h)),
    λ other rest split. omega arith,
  )
  | inr later ↦
      let (before, split, first) = after_key-found key bytes value (rw later at h) in
      (c ∷ before, ap (◌∷◌ c) split, later_first key bytes before c later first)
]

after_key-none :
    (key bytes : Text)
    → key ≢ []
    → after_key key bytes ≡ none
    → (before value : Text) → bytes ≢ before ++ key ++ value
unfolding after_key
after_key-none [] bytes ne h before value split = ne refl
after_key-none (k ∷ key) [] ne h [] value split = cc
after_key-none (k ∷ key) [] ne h (x ∷ before) value split = cc
after_key-none (k ∷ key) (c ∷ bytes) ne h [] value split =
    let here : starts_with (k ∷ key) (c ∷ bytes) ≡ true =
      ap (starts_with (k ∷ key)) split ∙ starts_with-append (k ∷ key) value in
    cc (rw here at h)
after_key-none (k ∷ key) (c ∷ bytes) ne h (x ∷ before) value split =
    elim (Bool-cases (starts_with (k ∷ key) (c ∷ bytes))) [
      | inl here ↦ cc (rw here at h)
      | inr later ↦ after_key-none (k ∷ key) bytes ne (rw later at h) before value (cc split)
    ]

-- A body reports an error exactly when it has the key `"error":` and what follows the first place
-- of the key, less white space, does not begin with `null`. A body without the key reports none.
pub response_has_error_lem :
    (bytes : Text)
    → ((before : Text) × (value : Text) × (bytes ≡ before ++ error_key ++ value)
        × ((other rest : Text) → bytes ≡ other ++ error_key ++ rest → length before ≤ length other)
        × (response_has_error bytes
            ≡ not (starts_with (codes "null") (trim_start is_whitespace value))))
      ⊎ (((before value : Text) → bytes ≢ before ++ error_key ++ value)
          × (response_has_error bytes ≡ false))
unfolding response_has_error
response_has_error_lem bytes = elim (Option-cases (after_key error_key bytes)) [
  | inr (value, found) ↦
      let (before, split, first) = after_key-found error_key bytes value found in
      inl (before, value, split, first, rw (found, response_has_error) refl)
  | inl missing ↦
      inr
        (after_key-none error_key bytes (λ e. cc e) missing, rw (missing, response_has_error) refl)
]

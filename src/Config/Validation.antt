-- ===== src/Config/Validation.antt =====
-- What `validate_and_dedupe_endpoints` lets through, and what it does not lose.
use azoth_balancer.Prelude.{
  subst, ◌≡◌, ◌≢◌, ◌↔◌, refl, sym, Bool, true, false, ◌||◌, List, [], ◌∷◌, none, some, arith, Text,
  codes, text_eq, text_eq_iff, text_eq_refl, any, All, All-mono, Result, inl, inr, Bool-cases,
  Option-cases,
}
use azoth_balancer.Config.{
  EndpointConfig, config_error, sanitize, keep_valid, validate_and_dedupe_endpoints,
}
use azoth_balancer.Config.Sanitized.{sanitize-IsValid, IsValid}

-- No two endpoints have one URL.
abbrev pub Distinct : List EndpointConfig → Type 0
Distinct [] = Unit
Distinct (e ∷ es) = All (λ x. x.url ≢ e.url) es × Distinct es

module _ (seen : List Text) (e : EndpointConfig) (es : List EndpointConfig) where
  keep_valid-none : sanitize e ≡ none → keep_valid seen (e ∷ es) ≡ keep_valid seen es
  unfolding keep_valid
  keep_valid-none h = rw (h, keep_valid)

  keep_valid_old :
      (v : EndpointConfig)
      → sanitize e ≡ some v
      → any (text_eq v.url) seen ≡ true
      → keep_valid seen (e ∷ es) ≡ keep_valid seen es
  unfolding keep_valid
  keep_valid_old v h old = rw (h, keep_valid, old)

  keep_valid_new :
      (v : EndpointConfig)
      → sanitize e ≡ some v
      → any (text_eq v.url) seen ≡ false
      → keep_valid seen (e ∷ es) ≡ v ∷ keep_valid (v.url ∷ seen) es
  unfolding keep_valid
  keep_valid_new v h new = rw (h, keep_valid, new)

keep_valid-Distinct :
    (seen : List Text) (es : List EndpointConfig)
    → All (λ v. IsValid v × (any (text_eq v.url) seen ≡ false)) (keep_valid seen es)
      × Distinct (keep_valid seen es)
unfolding keep_valid
keep_valid-Distinct seen [] = (tt, tt)
keep_valid-Distinct seen (e ∷ es) = elim (Option-cases (sanitize e)) [
  | inl dropped ↦ rw (keep_valid-none seen e es dropped) (keep_valid-Distinct seen es)
  | inr (v, kept) ↦ elim (Bool-cases (any (text_eq v.url) seen)) [
    | inl old ↦ rw (keep_valid_old seen e es v kept old) (keep_valid-Distinct seen es)
    | inr new ↦
        let (fresh, distinct) = keep_valid-Distinct (v.url ∷ seen) es in
        rw (keep_valid_new seen e es v kept new) (
          (
            (sanitize-IsValid e v kept, new),
            All-mono (λ u q. (q.0, ground (arith, q.1))) (keep_valid (v.url ∷ seen) es) fresh,
          ),
          (
            All-mono (λ u q. ground (arith, q.1, text_eq_iff u.url v.url))
                (keep_valid (v.url ∷ seen) es) fresh,
            distinct,
          ),
        )
  ]
]

-- Some endpoint of the list has the URL.
abbrev pub has_url : Text → List EndpointConfig → Bool
has_url url = any (λ u. text_eq u.url url)

-- Every input that passes by itself is found by its URL in the output or among those seen.
abbrev Covers : List Text → List EndpointConfig → List EndpointConfig → Type 0
Covers seen out = All (λ e.
    (v : EndpointConfig)
    → sanitize e ≡ some v
    → (has_url v.url out || any (text_eq v.url) seen) ≡ true)

keep_valid-Covers :
    (seen : List Text) (es : List EndpointConfig) → Covers seen (keep_valid seen es) es
keep_valid-Covers seen [] = tt
keep_valid-Covers seen (e ∷ es) = elim (Option-cases (sanitize e)) [
  | inl dropped ↦
      subst (λ out. Covers seen out (e ∷ es)) (sym (keep_valid-none seen e es dropped))
        (λ v q. cc, keep_valid-Covers seen es)
  | inr (w, kept) ↦ elim (Bool-cases (any (text_eq w.url) seen)) [
    | inl old ↦
        subst (λ out. Covers seen out (e ∷ es)) (sym (keep_valid_old seen e es w kept old))
          (λ v q. ground (arith, old), keep_valid-Covers seen es)
    | inr new ↦
        subst (λ out. Covers seen out (e ∷ es)) (sym (keep_valid_new seen e es w kept new))
          (
            λ v q. ground (arith, text_eq_refl w.url),
            All-mono
                (λ x q v s. ground (arith, q v s, text_eq_iff v.url w.url, text_eq_iff w.url v.url))
                es (keep_valid-Covers (w.url ∷ seen) es),
          )
  ]
]

keep_valid-empty :
    (seen : List Text) (es : List EndpointConfig)
    → All (λ e. sanitize e ≡ none) es
    → keep_valid seen es ≡ []
unfolding keep_valid
keep_valid-empty seen [] h = refl
keep_valid-empty seen (e ∷ es) h = rw (keep_valid-none seen e es h.0) (keep_valid-empty seen es h.1)

-- If the validation succeeds, there is an endpoint, all are valid with canonical URLs, no two have
-- the same URL, and every input that passes the checks by itself is there by its URL.
pub validate_sound :
    (es vs : List EndpointConfig)
    → validate_and_dedupe_endpoints es ≡ Result.ok vs
    → (vs ≢ [])
      × All IsValid vs
      × Distinct vs
      × All (λ e. (v : EndpointConfig) → sanitize e ≡ some v → has_url v.url vs ≡ true) es
unfolding validate_and_dedupe_endpoints
validate_sound es vs h =
    let here : keep_valid [] es ≡ vs = ground arith in
    let (valid, distinct) = keep_valid-Distinct [] es in
    rw (← here) (
      λ q. ground (arith, q),
      All-mono (λ v q. q.0) (keep_valid [] es) valid,
      distinct,
      All-mono (λ e q v s. ground (arith, q v s)) es (keep_valid-Covers [] es),
    )

-- The validation fails exactly when no input passes the checks by itself.
pub validate-fails :
    (es : List EndpointConfig)
    → (validate_and_dedupe_endpoints es
        ≡ Result.err (config_error (codes "No valid endpoints configured")))
      ↔ All (λ e. sanitize e ≡ none) es
unfolding validate_and_dedupe_endpoints
validate-fails es = (
  λ h.
      let none_kept : keep_valid [] es ≡ [] = ground (arith, h) in
      All-mono (λ e q. uncovered e (rw none_kept at q)) es (keep_valid-Covers [] es),
  λ h. rw (keep_valid-empty [] es h),
)
  where
    uncovered :
        (e : EndpointConfig)
        → ((v : EndpointConfig) → sanitize e ≡ some v → (has_url v.url [] || false) ≡ true)
        → sanitize e ≡ none
    uncovered e q = elim (Option-cases (sanitize e)) [
      | inl dropped ↦ dropped
      | inr (v, kept) ↦ cc (q v kept)
    ]

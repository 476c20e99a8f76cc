-- ===== src/Config/Sanitized.antt =====
-- What the checks of one endpoint in src/config.rs leave: a valid endpoint with a canonical URL.
use azoth_balancer.Prelude.{
  subst, ℕ, ◌≤◌, ◌≡◌, refl, Bool, true, false, ◌||◌, ◌∷◌, ◌++◌, some, arith, Text, codes, any,
  length, All, All-append, inl, inr, ◌⊎◌, Bool-cases,
}
use azoth_balancer.Config.Urls.{
  trim, trim_end, has_scheme, drop, byte_len, is_control, is_whitespace, is_slash, canonicalize,
  starts_with,
}
use azoth_balancer.Config.Urls.Laws.{
  All-trim_end, All-drop, trim_end_idem, byte_len-trim_end-le, byte_len-append, byte_len-has_scheme,
  any-All,
}
use azoth_balancer.Config.{
  EndpointConfig, max_url_len, max_rate_limit, max_burst_size, is_rejected, sanitize,
}

abbrev pub is_blank : ℕ → Bool
is_blank c = is_control c || is_whitespace c

-- A URL as the rest of the program gets it.
pub record IsCanonical (url : Text) : Type 0 where
  pub scheme : (starts_with (codes "http:") url ≡ true) ⊎ (starts_with (codes "https:") url ≡ true)
  pub printable : All (λ c. is_blank c ≡ false) url
  pub no_slash : trim_end is_slash url ≡ url
  pub short : byte_len url ≤ max_url_len

pub record IsValid (e : EndpointConfig) : Type 0 where
  pub url_canonical : IsCanonical e.url
  pub rate_pos : 1 ≤ e.rate_limit_per_sec
  pub rate_bound : e.rate_limit_per_sec ≤ max_rate_limit
  pub burst_pos : 1 ≤ e.burst_size
  pub burst_bound : e.burst_size ≤ max_burst_size

-- The checks that a trimmed endpoint passed.
pub record Passed (e : EndpointConfig) : Type 0 where
  pub schemed :
      (has_scheme (codes "http://") e.url ≡ true)
      ⊎ ((has_scheme (codes "http://") e.url ≡ false)
          × (has_scheme (codes "https://") e.url ≡ true))
  pub short : byte_len e.url ≤ max_url_len
  pub printable : any is_blank e.url ≡ false
  pub rate_pos : 1 ≤ e.rate_limit_per_sec
  pub rate_bound : e.rate_limit_per_sec ≤ max_rate_limit
  pub burst_pos : 1 ≤ e.burst_size
  pub burst_bound : e.burst_size ≤ max_burst_size

pub is_rejected-Passed : (e : EndpointConfig) → is_rejected e ≡ false → Passed e
unfolding is_rejected
is_rejected-Passed e h = ground arith

-- Stripping slashes stops at the colon of the scheme.
http_colon :
    (t : Text) → starts_with (codes "http:") (trim_end is_slash (codes "http:" ++ t)) ≡ true
unfolding trim_end starts_with
http_colon t = ground arith

https_colon :
    (t : Text) → starts_with (codes "https:") (trim_end is_slash (codes "https:" ++ t)) ≡ true
unfolding trim_end starts_with
https_colon t = ground arith

-- Replacing a scheme by its lower case and stripping the slashes gives a canonical URL.
module _ (e : EndpointConfig) (h : Passed e) (scheme : Text) where
  stripped : Text
  stripped = trim_end is_slash (scheme ++ drop (length scheme) e.url)

  stripped-IsCanonical :
      has_scheme scheme e.url ≡ true
      → All (λ c. is_blank c ≡ false) scheme
      → byte_len scheme ≡ length scheme
      → (starts_with (codes "http:") stripped ≡ true)
        ⊎ (starts_with (codes "https:") stripped ≡ true)
      → IsCanonical stripped
  unfolding stripped
  stripped-IsCanonical has plain ascii start =
      let tail = drop (length scheme) e.url in
      record {
        scheme = start;
        printable = All-trim_end _ is_slash (scheme ++ tail) (
            All-append _ scheme tail plain
              (All-drop _ (length scheme) e.url (any-All is_blank e.url h.printable)));
        no_slash = trim_end_idem is_slash (scheme ++ tail);
        short = omega (
          arith,
          h.short,
          byte_len-trim_end-le is_slash (scheme ++ tail),
          byte_len-append scheme tail,
          byte_len-has_scheme scheme e.url has,
        );
      }

pub canonicalize-IsCanonical : (e : EndpointConfig) → Passed e → IsCanonical (canonicalize e.url)
unfolding canonicalize stripped is_control is_whitespace byte_len
canonicalize-IsCanonical e h = elim h.schemed [
  | inl http ↦ rw http (
      stripped-IsCanonical e h (codes "http://") http (any-All is_blank (codes "http://") refl) refl
        (inl (http_colon (b'/' ∷ b'/' ∷ drop 7 e.url))))
  | inr (not_http, https) ↦
      rw (not_http, https)
        (stripped-IsCanonical e h (codes "https://") https
          (any-All is_blank (codes "https://") refl) refl
          (inr (https_colon (b'/' ∷ b'/' ∷ drop 8 e.url))))
]

pub sanitize-IsValid : (e v : EndpointConfig) → sanitize e ≡ some v → IsValid v
unfolding sanitize
sanitize-IsValid e v h = elim (Bool-cases (is_rejected (record e { url = trim e.url }))) [
  | inl bad ↦ cc (rw bad at h)
  | inr good ↦
      let passed = is_rejected-Passed (record e { url = trim e.url }) good in
      let here : record e { url = canonicalize (trim e.url) } ≡ v = cc (rw good at h) in
      subst IsValid here (record {
        url_canonical = canonicalize-IsCanonical (record e { url = trim e.url }) passed;
        rate_pos = passed.rate_pos;
        rate_bound = passed.rate_bound;
        burst_pos = passed.burst_pos;
        burst_bound = passed.burst_bound;
      })
]

-- ===== src/Config/Canonical.antt =====
-- Validating a validated endpoint again, and the URLs of which nothing but the scheme is left.
use azoth_balancer.Prelude.{
  ℕ, zero, suc, ◌≤◌, ◌≡◌, ◌≢◌, refl, ◌∙◌, sym, ap, subst, true, false, [], ◌∷◌, ◌++◌, Option, none,
  some, arith, Text, codes, is_empty, All, All-mono, All-append, inl, inr, ◌⊎◌, Bool-cases,
}
use azoth_balancer.Config.Urls.{
  trim, trim_end, has_scheme, drop, byte_len, is_control, is_whitespace, is_slash, canonicalize,
}
use azoth_balancer.Config.Urls.Laws.{trim_keep, trim_end_idem, All-any, any-All}
use azoth_balancer.Config.{
  EndpointConfig, is_rejected, sanitize, max_url_len, max_rate_limit, max_burst_size,
}
use azoth_balancer.Config.Sanitized.{
  is_blank, IsValid, Passed, is_rejected-Passed, sanitize-IsValid,
}

abbrev pub slashes : ℕ → Text
slashes zero = []
slashes (suc k) = b'/' ∷ slashes k

-- The shapes of a canonical URL: a scheme with something behind its slashes, or a bare scheme.
record HasHost (url : Text) : Type 0 where
  schemed :
      (has_scheme (codes "http://") url ≡ true)
      ⊎ ((has_scheme (codes "http://") url ≡ false) × (has_scheme (codes "https://") url ≡ true))
  canonical : canonicalize url ≡ url

http_shape :
    (t : Text)
    → (trim_end is_slash (codes "http://" ++ t) ≡ codes "http:")
      ⊎ (trim_end is_slash (codes "http://" ++ t) ≡ codes "http://" ++ trim_end is_slash t)
unfolding trim_end
http_shape t = ground arith

https_shape :
    (t : Text)
    → (trim_end is_slash (codes "https://" ++ t) ≡ codes "https:")
      ⊎ (trim_end is_slash (codes "https://" ++ t) ≡ codes "https://" ++ trim_end is_slash t)
unfolding trim_end
https_shape t = ground arith

http_host :
    (t : Text)
    → trim_end is_slash (codes "http://" ++ t) ≡ codes "http://" ++ t
    → HasHost (codes "http://" ++ t)
unfolding canonicalize
http_host t h = record { schemed = inl refl; canonical = h }

https_host :
    (t : Text)
    → trim_end is_slash (codes "https://" ++ t) ≡ codes "https://" ++ t
    → HasHost (codes "https://" ++ t)
unfolding canonicalize
https_host t h = record { schemed = inr (refl, refl); canonical = h }

http_HasHost :
    (t : Text)
    → trim_end is_slash (codes "http://" ++ t) ≢ codes "http:"
    → HasHost (trim_end is_slash (codes "http://" ++ t))
http_HasHost t ne = elim (http_shape t) [
  | inl bare ↦ absurd (ne bare)
  | inr host ↦ subst HasHost (sym host) (
      http_host (trim_end is_slash t)
        (ap (trim_end is_slash) (sym host) ∙ trim_end_idem is_slash (codes "http://" ++ t) ∙ host))
]

https_HasHost :
    (t : Text)
    → trim_end is_slash (codes "https://" ++ t) ≢ codes "https:"
    → HasHost (trim_end is_slash (codes "https://" ++ t))
https_HasHost t ne = elim (https_shape t) [
  | inl bare ↦ absurd (ne bare)
  | inr host ↦ subst HasHost (sym host) (
      https_host (trim_end is_slash t)
        (ap (trim_end is_slash) (sym host) ∙ trim_end_idem is_slash (codes "https://" ++ t) ∙ host))
]

canonicalize-HasHost :
    (e : EndpointConfig)
    → Passed e
    → canonicalize e.url ≢ codes "http:"
    → canonicalize e.url ≢ codes "https:"
    → HasHost (canonicalize e.url)
unfolding canonicalize
canonicalize-HasHost e h = elim h.schemed [
  | inl http ↦ rw http (λ n m. http_HasHost (drop 7 e.url) n)
  | inr (not_http, https) ↦ rw (not_http, https) (λ n m. https_HasHost (drop 8 e.url) m)
]

HasHost-nonempty : (url : Text) → HasHost url → is_empty url ≡ false
unfolding has_scheme
HasHost-nonempty [] h = ground arith
HasHost-nonempty (c ∷ s) h = refl

not-is_blank :
    (url : Text) → All (λ c. is_blank c ≡ false) url → All (λ c. is_whitespace c ≡ false) url
not-is_blank url = All-mono (λ c q. ground (arith, q)) url

accepted : (v : EndpointConfig) → IsValid v → HasHost v.url → is_rejected v ≡ false
unfolding is_rejected
accepted v valid host = ground (
  arith,
  HasHost-nonempty v.url host,
  All-any is_blank v.url valid.url_canonical.printable,
  host.schemed,
  valid.url_canonical.short,
)

sanitize_keep :
    (v : EndpointConfig)
    → trim v.url ≡ v.url
    → is_rejected v ≡ false
    → canonicalize v.url ≡ v.url
    → sanitize v ≡ some v
unfolding sanitize
sanitize_keep v t ok c = rw (t, ok, c)

slashes-printable : (k : ℕ) → All (λ c. is_blank c ≡ false) (slashes k)
unfolding is_control is_whitespace
slashes-printable zero = tt
slashes-printable (suc k) = (refl, slashes-printable k)

trim_end-slashes : (k : ℕ) → trim_end is_slash (slashes k) ≡ []
unfolding trim_end
trim_end-slashes zero = refl
trim_end-slashes (suc k) = rw (trim_end-slashes k)

byte_len-slashes : (k : ℕ) → byte_len (slashes k) ≡ k
unfolding byte_len
byte_len-slashes zero = refl
byte_len-slashes (suc k) = omega (arith, byte_len-slashes k)

bare_https : (k : ℕ) → canonicalize (codes "https://" ++ slashes k) ≡ codes "https:"
unfolding canonicalize
bare_https k = rw (trim_end-slashes k)

bare_https-printable : (k : ℕ) → All (λ c. is_blank c ≡ false) (codes "https://" ++ slashes k)
unfolding is_control is_whitespace
bare_https-printable k =
    All-append (λ c. is_blank c ≡ false) (codes "https://") (slashes k)
      (any-All is_blank (codes "https://") refl) (slashes-printable k)

bare_https-short : (k : ℕ) → k ≤ 2040 → byte_len (codes "https://" ++ slashes k) ≤ max_url_len
unfolding byte_len
bare_https-short k h = omega (arith, byte_len-slashes k)

Passed-accepted : (e : EndpointConfig) → Passed e → is_empty e.url ≡ false → is_rejected e ≡ false
unfolding is_rejected
Passed-accepted e h nonempty = ground (arith, h.schemed)

-- A URL of a scheme and slashes alone passes, and what is left of it is the scheme and its colon.
pub sanitize_no_host :
    (e : EndpointConfig) (k : ℕ)
    → e.url ≡ codes "https://" ++ slashes k
    → k ≤ 2040
    → (1 ≤ e.rate_limit_per_sec) × (e.rate_limit_per_sec ≤ max_rate_limit)
    → (1 ≤ e.burst_size) × (e.burst_size ≤ max_burst_size)
    → sanitize e ≡ some (record e { url = codes "https:" })
unfolding sanitize has_scheme
sanitize_no_host e k u few rate burst =
    let trimmed =
      trim_keep e.url
        (rw u (not-is_blank (codes "https://" ++ slashes k) (bare_https-printable k))) in
    let passed : Passed e = record {
      schemed = rw u (inr (refl, refl));
      short = rw u (bare_https-short k few);
      printable = rw u (All-any is_blank (codes "https://" ++ slashes k) (bare_https-printable k));
      rate_pos = rate.0;
      rate_bound = rate.1;
      burst_pos = burst.0;
      burst_bound = burst.1;
    } in
    rw (trimmed, Passed-accepted e passed (rw u))
      (ap (λ url. some (record e { url = url })) (ap canonicalize u ∙ bare_https k))

-- An endpoint that passed the validation passes it again unchanged, unless nothing is left of its
-- URL but the scheme.
pub sanitize_idem :
    (e v : EndpointConfig)
    → sanitize e ≡ some v
    → v.url ≢ codes "http:"
    → v.url ≢ codes "https:"
    → sanitize v ≡ some v
unfolding sanitize
sanitize_idem e v h n m = elim (Bool-cases (is_rejected trimmed)) [
  | inl bad ↦ cc (rw bad at h)
  | inr good ↦
      let here : canonicalize trimmed.url ≡ v.url = ap (url_of v.url) (rw good at h) in
      let host = canonicalize-HasHost trimmed (is_rejected-Passed trimmed good) in
      let has_host : HasHost v.url = subst HasHost here (host (rw here n) (rw here m)) in
      let valid = sanitize-IsValid e v h in
      sanitize_keep v (trim_keep v.url (not-is_blank v.url valid.url_canonical.printable))
        (accepted v valid has_host) has_host.canonical
]
  where
    trimmed : EndpointConfig
    trimmed = record e { url = trim e.url }

    url_of : Text → Option EndpointConfig → Text
    url_of d (some x) = x.url
    url_of d none = d

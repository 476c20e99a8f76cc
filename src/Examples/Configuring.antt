-- ===== src/Examples/Configuring.antt =====
-- The validation, the finalizing and the start at concrete configurations.
use azoth_balancer.Prelude.{
  get_or, ◌⊎◌, ◌<◌, false, ℕ, ◌≡◌, ◌≢◌, ◌↔◌, refl, arith, List, [], ◌∷◌, none, some, codes, text_eq,
  text_ne, true, All, Result,
}
use azoth_balancer.Config.{
  BalancerConfig, EndpointConfig, Config, sanitize, is_rejected, keep_valid,
  validate_and_dedupe_endpoints,
}
use azoth_balancer.Config.Urls.{
  is_whitespace, is_control, to_lower, starts_with, has_scheme, trim_start, trim_end, trim,
  byte_len, canonicalize,
}
use azoth_balancer.Config.Sanitized.{IsValid}
use azoth_balancer.Config.Validation.{Distinct, has_url, validate_sound}
use azoth_balancer.Config.Canonical.{sanitize_no_host, sanitize_idem}
use azoth_balancer.Config.Finalize.{finalize, finalize_server, finalize_balancer, default_balancer}
use azoth_balancer.Config.Finalize.Complete.{IsReady, IsComplete, finalize-IsComplete}
use azoth_balancer.Balancer.{new}
use azoth_balancer.Balancer.Start.{client_settings, new-panics}
use azoth_balancer.Examples.{all_build, permits_64, tenths, tokens, url_a, example_config}

-- The same URL twice, once with a slash and spaces, and one without a scheme.
abbrev given : List EndpointConfig
given =
    example_config (codes " http://a/ ")
    ∷ example_config url_a
    ∷ example_config (codes "ftp://c")
    ∷ []

abbrev pub kept : List EndpointConfig
kept = example_config url_a ∷ []

keeps_one : validate_and_dedupe_endpoints given ≡ Result.ok kept
unfolding validate_and_dedupe_endpoints keep_valid sanitize is_rejected canonicalize trim trim_start
    trim_end has_scheme starts_with to_lower byte_len is_control is_whitespace text_eq
keeps_one = refl

sanitized : sanitize (example_config (codes " http://a/ ")) ≡ some (example_config url_a)
unfolding sanitize is_rejected canonicalize trim trim_start trim_end has_scheme starts_with to_lower
    byte_len is_control is_whitespace text_eq
sanitized = refl

validate-sound_example :
    (kept ≢ [])
    × All IsValid kept
    × Distinct kept
    × All (λ e. (v : EndpointConfig) → sanitize e ≡ some v → has_url v.url kept ≡ true) given
validate-sound_example = validate_sound given kept keeps_one

-- What is kept can be reloaded.
pub kept-IsReady : All IsReady kept
kept-IsReady =
    let (nonempty, valid, distinct, covered) = validate_sound given kept keeps_one in
    (record { valid = valid.0; weighted = tt }, tt)

sanitize_no_host_example :
    sanitize (example_config (codes "https:///")) ≡ some (example_config (codes "https:"))
sanitize_no_host_example =
    sanitize_no_host (example_config (codes "https:///")) 1 refl (omega arith)
      (omega arith, omega arith) (omega arith, omega arith)

http_text : url_a ≢ codes "http:"
unfolding text_eq
http_text = text_ne url_a (codes "http:") refl

https_text : url_a ≢ codes "https:"
unfolding text_eq
https_text = text_ne url_a (codes "https:") refl

sanitize_idem_example : sanitize (example_config url_a) ≡ some (example_config url_a)
sanitize_idem_example =
    sanitize_idem (example_config (codes " http://a/ ")) (example_config url_a) sanitized http_text
      https_text

abbrev pub written : Config ℕ
written = record {
  server = none;
  balancer = some (record default_balancer { endpoints = some given });
}

-- What finalizing makes of it.
abbrev pub finalized_balancer : BalancerConfig ℕ
finalized_balancer =
    finalize_balancer tenths (record default_balancer { endpoints = some given }) kept

abbrev pub finalized : Config ℕ
finalized = record {
  server = some (finalize_server (record { bind_addr = none }));
  balancer = some finalized_balancer;
}

pub finalizes : finalize tenths written ≡ Result.ok finalized
unfolding finalize
finalizes = rw (keeps_one, finalize) refl

finalize-IsComplete_example : IsComplete finalized
finalize-IsComplete_example = finalize-IsComplete tenths written finalized finalizes

new-panics_example :
    (new tenths tokens all_build permits_64 (some written) (codes "config.toml") 0 [] ≡ none) ↔ (
      All (λ e. sanitize e ≡ none) given
      ⊎ ((c : Config ℕ) × (cfg : BalancerConfig ℕ) × (finalize tenths written ≡ Result.ok c)
          × (c.balancer ≡ some cfg)
          × ((all_build (client_settings cfg) ≡ false)
              ⊎ (permits_64 < get_or cfg.max_concurrency 0))))
new-panics_example =
    new-panics tenths tokens all_build permits_64 (some written) (codes "config.toml") 0 []

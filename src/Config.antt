-- ===== src/Config.antt =====
-- src/config.rs: the configuration, its defaults, its validation and the canonical URLs.
pub mod Urls
pub mod Finalize
pub mod Sanitized
pub mod Validation
pub mod Canonical
use azoth_balancer.Prelude.{
  ℕ, Bool, true, false, not, ◌&&◌, ◌||◌, List, [], ◌∷◌, ◌++◌, map, Option, none, some, max, Text,
  codes, text_eq, ltb, ◌==◌, any, is_empty, Result, get_or, or_some, if◌then◌else◌,
}
use azoth_balancer.Float.{Float}
use Urls.{trim, has_scheme, byte_len, is_control, is_whitespace, canonicalize}

pub data ConfigError : Type 0 where
  config_error : Text → ConfigError

pub record ServerConfig : Type 0 where
  pub bind_addr : Option Text

pub record EndpointConfig : Type 0 where
  pub url : Text
  pub rate_limit_per_sec : ℕ
  pub burst_size : ℕ
  pub weight : Option ℕ

pub record BalancerConfig (F : Type 0) : Type 0 where
  pub health_check_interval_secs : Option ℕ
  pub health_check_timeout_secs : Option ℕ
  pub base_cooldown_secs : Option ℕ
  pub max_cooldown_secs : Option ℕ
  pub latency_smoothing_factor : Option F
  pub endpoints : Option (List EndpointConfig)
  pub max_batch_size : Option ℕ
  pub max_concurrency : Option ℕ
  pub connect_timeout_ms : Option ℕ
  pub timeout_secs : Option ℕ
  pub pool_idle_timeout_secs : Option ℕ
  pub pool_max_idle_per_host : Option ℕ

pub record Config (F : Type 0) : Type 0 where
  pub server : Option ServerConfig
  pub balancer : Option (BalancerConfig F)

abbrev pub default_burst_size : ℕ
default_burst_size = 25

abbrev pub default_bind_addr : Text
default_bind_addr = codes "0.0.0.0:8549"

abbrev pub default_health_check_interval_secs : ℕ
default_health_check_interval_secs = 30

abbrev pub default_health_check_timeout_secs : ℕ
default_health_check_timeout_secs = 5

abbrev pub default_base_cooldown_secs : ℕ
default_base_cooldown_secs = 3

abbrev pub default_max_cooldown_secs : ℕ
default_max_cooldown_secs = 60

abbrev pub default_endpoint_rate_limit : ℕ
default_endpoint_rate_limit = 20

abbrev pub default_endpoint_weight : ℕ
default_endpoint_weight = 20

abbrev pub default_max_batch_size : ℕ
default_max_batch_size = 100

abbrev pub default_connect_timeout_ms : ℕ
default_connect_timeout_ms = 500

abbrev pub default_timeout_secs : ℕ
default_timeout_secs = 5

abbrev pub default_pool_idle_timeout_secs : ℕ
default_pool_idle_timeout_secs = 20

abbrev pub default_pool_max_idle_per_host : ℕ
default_pool_max_idle_per_host = 50

abbrev pub default_max_concurrency : ℕ
default_max_concurrency = 50

abbrev pub default_endpoints : List Text
default_endpoints =
    codes "https://arbitrum-one.blastapi.io/0bbf5840-7702-4ae8-8d06-c081e6089381"
    ∷ codes "https://arbitrum.blockpi.network/v1/rpc/47d30766a0860ce4418ede1ab9b65b6fa8e63133"
    ∷ codes
        "https://rpc.ankr.com/arbitrum/432820e33bd905ed5a2f63eca52792fb302e1ce6c025bb591c6d2e588f52e3ee"
    ∷ codes "https://arbitrum.drpc.org/"
    ∷ []

unfoldable pub get_default_endpoints : List EndpointConfig
get_default_endpoints =
    map
      (λ s. record {
        url = s;
        rate_limit_per_sec = default_endpoint_rate_limit;
        burst_size = default_burst_size;
        weight = some default_endpoint_weight;
      })
      default_endpoints

abbrev pub max_url_len : ℕ
max_url_len = 2048

abbrev pub max_rate_limit : ℕ
max_rate_limit = 100_000

abbrev pub max_burst_size : ℕ
max_burst_size = 10_000

-- The checks that follow the trimming, in the order of the code.
unfoldable pub is_rejected : EndpointConfig → Bool
is_rejected e =
    is_empty e.url
    || (not (has_scheme (codes "http://") e.url) && not (has_scheme (codes "https://") e.url))
    || ltb max_url_len (byte_len e.url)
    || any (λ c. is_control c || is_whitespace c) e.url
    || (e.rate_limit_per_sec == 0 || ltb max_rate_limit e.rate_limit_per_sec)
    || (e.burst_size == 0 || ltb max_burst_size e.burst_size)

-- The closure of `filter_map`, up to the set of URLs seen.
unfoldable pub sanitize : EndpointConfig → Option EndpointConfig
unfolding is_rejected
sanitize e =
    let trimmed = record e { url = trim e.url } in
    if is_rejected trimmed then none else some (record trimmed { url = canonicalize trimmed.url })

-- The whole `filter_map`, with the URLs seen so far.
unfoldable pub keep_valid : List Text → List EndpointConfig → List EndpointConfig
keep_valid seen [] = []
keep_valid seen (e ∷ es) = elim (sanitize e) [
  | none ↦ keep_valid seen es
  | some valid ↦
      let rest = valid ∷ keep_valid (valid.url ∷ seen) es in
      let skipped = keep_valid seen es in if any (text_eq valid.url) seen then skipped else rest
]

unfoldable pub validate_and_dedupe_endpoints :
    List EndpointConfig → Result ConfigError (List EndpointConfig)
validate_and_dedupe_endpoints endpoints =
    let validated_endpoints = keep_valid [] endpoints in
    if is_empty validated_endpoints
    then Result.err (config_error (codes "No valid endpoints configured"))
    else Result.ok validated_endpoints

-- ===== src/Metrics/Registration.antt =====
-- src/utils/metrics.rs: the statics are lazy, so each metric is registered at its first use, and an
-- error of the registration is a panic. The registry of the crate prometheus is an interface.
use azoth_balancer.Prelude.{
  ℕ, ◌≡◌, Bool, true, false, not, ◌&&◌, ◌||◌, List, [], ◌∷◌, Option, some, Text, text_eq, any,
  is_empty, leb, ltb, ◌==◌, Sat, if◌then◌else◌, ◌>>=◌,
}
use azoth_balancer.Metrics.{
  Metric, index, Event, inc, inc_rank, dec, set, observe, init, remove, Registry,
}
use azoth_balancer.Metrics.Descriptors.{Kind, histogram_vec, Descriptor, descriptor}

-- `[a-zA-Z_][a-zA-Z0-9_]*`
abbrev is_start : ℕ → Bool
is_start c = (leb b'a' c && leb c b'z') || ((leb b'A' c && leb c b'Z') || c == b'_')

abbrev all_of : (ℕ → Bool) → Text → Bool
all_of p [] = true
all_of p (c ∷ t) = p c && all_of p t

is_name : Text → Bool
is_name [] = false
is_name (c ∷ t) = is_start c && all_of (λ d. is_start d || (leb b'0' d && leb d b'9')) t

abbrev are_names : List Text → Bool
are_names [] = true
are_names (t ∷ ts) = is_name t && (not (any (λ u. text_eq u t) ts) && are_names ts)

abbrev is_increasing : List ℕ → Bool
is_increasing (x ∷ y ∷ xs) = ltb x y && is_increasing (y ∷ xs)
is_increasing xs = true

abbrev has_buckets : Kind → Bool
has_buckets (histogram_vec buckets) = is_increasing buckets
has_buckets kind = true

-- What prometheus asks of a metric: valid and distinct names, a help text, and buckets that grow.
unfoldable pub is_valid : Descriptor → Bool
unfolding is_name
is_valid d = is_name d.name && (not (is_empty d.help) && (are_names d.labels && has_buckets d.kind))

-- `none` is an error.
pub record Prometheus (R : Type 0) : Type 0 where
  pub register : R → Descriptor → Option R

abbrev pub has_name : Text → List Text → Bool
has_name name names = any (λ n. text_eq n name) names

-- Documented of `Registry::register`: a valid metric is taken unless its name is in use.
pub record Registers {R : Type 0} (p : Prometheus R) : Type 0 where
  pub names : R → List Text
  pub accepts :
      (r : R) (d : Descriptor)
      → is_valid d ≡ true
      → has_name d.name (names r) ≡ false
      → Sat (p.register r d) (λ r'. names r' ≡ d.name ∷ names r)

-- The statics of the process: those that are forced, and the registry.
pub record Statics (R : Type 0) : Type 0 where
  pub forced : List Metric
  pub registry : R

abbrev pub unforced : {R : Type 0} → R → Statics R
unforced r = record { forced = []; registry = r }

abbrev pub is_forced : List Metric → Metric → Bool
is_forced forced m = any (λ m'. index m' == index m) forced

abbrev pub metric_of : Event → Metric
metric_of (inc m label) = m
metric_of (inc_rank m label rank) = m
metric_of (dec m) = m
metric_of (set m label n) = m
metric_of (observe m label) = m
metric_of (init m label) = m
metric_of (remove m label) = m

module _ {R : Type 0} (p : Prometheus R) where
  -- `LazyLock::deref`; the `unwrap` of a registration that fails is `none`.
  unfoldable pub force : Statics R → Metric → Option (Statics R)
  force s m = if is_forced s.forced m then some s else do
    r ← p.register s.registry (descriptor m)
    some (record { forced = m ∷ s.forced; registry = r })

  -- A history of the metrics, newest first.
  unfoldable pub use_all : Statics R → Registry → Option (Statics R)
  use_all s [] = some s
  use_all s (e ∷ earlier) = do s' ← use_all s earlier; force s' (metric_of e)

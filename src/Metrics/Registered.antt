-- ===== src/Metrics/Registered.antt =====
-- The metrics have valid and distinct names, so their registrations go through.
use azoth_balancer.Prelude.{
  ◌≡◌, refl, ap, ◌∙◌, arith, true, false, List, [], ◌∷◌, ◌++◌, map, Option, some, Text, text_eq,
  text_eq_iff, find, ◌==◌, ==_iff, Bool-cases, inl, inr, Sat, Sat-value, All, All-mono,
}
use azoth_balancer.Metrics.{
  Metric, rpc_requests_total, rpc_requests_method, rpc_requests_succeeded, rpc_requests_failed,
  request_timeouts, batch_size_exceeded, upstream_rate_limited_total, healthcheck_failed,
  cooldowns_triggered, cooldown_seconds_gauge, healthy_endpoints, total_endpoints,
  concurrency_active_permits, endpoint_rate_limit_deferred, all_endpoints_rate_limited,
  priority_endpoint_selected, request_latency_per_endpoint, health_check_latency, index, Registry,
}
use azoth_balancer.Metrics.Descriptors.{descriptor}
use azoth_balancer.Metrics.Registration.{
  is_valid, Prometheus, Registers, has_name, Statics, unforced, is_forced, metric_of, force,
  use_all,
}

-- The metric with a name.
metrics : List Metric
metrics =
    rpc_requests_total ∷ rpc_requests_method ∷ rpc_requests_succeeded ∷ rpc_requests_failed
    ∷ request_timeouts ∷ batch_size_exceeded ∷ upstream_rate_limited_total ∷ healthcheck_failed
    ∷ cooldowns_triggered ∷ cooldown_seconds_gauge ∷ healthy_endpoints ∷ total_endpoints
    ∷ concurrency_active_permits ∷ endpoint_rate_limit_deferred ∷ all_endpoints_rate_limited
    ∷ priority_endpoint_selected ∷ request_latency_per_endpoint ∷ health_check_latency ∷ []

metric_named : Text → Option Metric
metric_named name = find (λ m. text_eq (descriptor m).name name) metrics

metric_named_lem : (m : Metric) → metric_named (descriptor m).name ≡ some m
unfolding metric_named metrics descriptor text_eq
metric_named_lem rpc_requests_total = refl
metric_named_lem rpc_requests_method = refl
metric_named_lem rpc_requests_succeeded = refl
metric_named_lem rpc_requests_failed = refl
metric_named_lem request_timeouts = refl
metric_named_lem batch_size_exceeded = refl
metric_named_lem upstream_rate_limited_total = refl
metric_named_lem healthcheck_failed = refl
metric_named_lem cooldowns_triggered = refl
metric_named_lem cooldown_seconds_gauge = refl
metric_named_lem healthy_endpoints = refl
metric_named_lem total_endpoints = refl
metric_named_lem concurrency_active_permits = refl
metric_named_lem endpoint_rate_limit_deferred = refl
metric_named_lem all_endpoints_rate_limited = refl
metric_named_lem priority_endpoint_selected = refl
metric_named_lem request_latency_per_endpoint = refl
metric_named_lem health_check_latency = refl

descriptor-is_valid : (m : Metric) → is_valid (descriptor m) ≡ true
unfolding is_valid descriptor text_eq
descriptor-is_valid rpc_requests_total = refl
descriptor-is_valid rpc_requests_method = refl
descriptor-is_valid rpc_requests_succeeded = refl
descriptor-is_valid rpc_requests_failed = refl
descriptor-is_valid request_timeouts = refl
descriptor-is_valid batch_size_exceeded = refl
descriptor-is_valid upstream_rate_limited_total = refl
descriptor-is_valid healthcheck_failed = refl
descriptor-is_valid cooldowns_triggered = refl
descriptor-is_valid cooldown_seconds_gauge = refl
descriptor-is_valid healthy_endpoints = refl
descriptor-is_valid total_endpoints = refl
descriptor-is_valid concurrency_active_permits = refl
descriptor-is_valid endpoint_rate_limit_deferred = refl
descriptor-is_valid all_endpoints_rate_limited = refl
descriptor-is_valid priority_endpoint_selected = refl
descriptor-is_valid request_latency_per_endpoint = refl
descriptor-is_valid health_check_latency = refl

names_differ :
    (m m' : Metric)
    → (index m' == index m) ≡ false
    → text_eq (descriptor m').name (descriptor m).name ≡ false
names_differ m m' other = elim (Bool-cases (text_eq (descriptor m').name (descriptor m).name)) [
  | inr differ ↦ differ
  | inl same ↦
      let e = (text_eq_iff (descriptor m').name (descriptor m).name).0 same in
      let one : m' ≡ m = cc (metric_named_lem m', metric_named_lem m, e) in
      absurd (cc (other, (==_iff (index m') (index m)).1 (ap index one)))
]

abbrev pub name_of : Metric → Text
name_of m = (descriptor m).name

module _ {R : Type 0} (p : Prometheus R) (reg : Registers p) (others : List Text) where
  -- The registry has the names that it had at the start, and those of the metrics that are forced.
  abbrev pub Keeps : Statics R → Type 0
  Keeps s = reg.names s.registry ≡ map name_of s.forced ++ others

  abbrev pub Unused : Type 0
  Unused = (m : Metric) → has_name (descriptor m).name others ≡ false

  fresh :
      (forced : List Metric) (m : Metric)
      → Unused
      → is_forced forced m ≡ false
      → has_name (descriptor m).name (map name_of forced ++ others) ≡ false
  fresh [] m unused h = unused m
  fresh (m' ∷ forced) m unused h = elim (Bool-cases (index m' == index m)) [
    | inl same ↦ absurd (cc (rw same at h))
    | inr other ↦ rw (names_differ m m' other) (fresh forced m unused (rw other at h))
  ]

  force-Keeps :
      (s : Statics R) (m : Metric)
      → Unused
      → Keeps s
      → Sat (force p s m) (λ s'.
        Keeps s'
        × (is_forced s'.forced m ≡ true)
        × ((m0 : Metric) → is_forced s.forced m0 ≡ true → is_forced s'.forced m0 ≡ true))
  unfolding force
  force-Keeps s m unused keeps = elim (Bool-cases (is_forced s.forced m)) [
    | inl old ↦ rw old (keeps, old, λ m0 h. h)
    | inr new ↦
        let (r, done, named) = Sat-value (p.register s.registry (descriptor m)) (
          reg.accepts s.registry (descriptor m) (descriptor-is_valid m)
            (rw keeps (fresh s.forced m unused new))) in
        rw (new, done)
          (
            named ∙ ap (◌∷◌ (name_of m)) keeps,
            rw ((==_iff (index m) (index m)).1 refl) refl,
            λ m0 h. ground (arith, h),
          )
  ]

  -- Whatever the history of the metrics, all registrations go through, from a registry that does not
  -- use their names and with none forced, given that prometheus takes a valid metric unless its name
  -- is in use: each metric of the history is forced, and the registry has one more name for each
  -- metric that is, and the names that it had.
  pub use_all-Registered :
      (r : R) (history : Registry)
      → Unused
      → reg.names r ≡ others
      → Sat (use_all p (unforced r) history) (λ s'.
        (reg.names s'.registry ≡ map name_of s'.forced ++ others)
        × All (λ e. is_forced s'.forced (metric_of e) ≡ true) history)
  unfolding use_all
  use_all-Registered r [] unused named = (named, tt)
  use_all-Registered r (e ∷ earlier) unused named =
      let (s, done, (keeps, all)) =
        Sat-value (use_all p (unforced r) earlier) (use_all-Registered r earlier unused named) in
      let (s', forced, (keeps', now, old)) =
        Sat-value (force p s (metric_of e)) (force-Keeps s (metric_of e) unused keeps) in
      rw (done, forced)
        (keeps', (now, All-mono (λ e0 before. old (metric_of e0) before) earlier all))

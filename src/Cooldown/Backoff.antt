-- ===== src/Cooldown/Backoff.antt =====
-- The length of a cooldown as a function of the attempts, and what it means for availability.
use native.Mathlib.Nat.{pow-suc, pow-le-pow_right}
use azoth_balancer.Prelude.{
  ℕ, zero, suc, ◌+◌, ◌*◌, ◌-◌, ◌^◌, ◌≤◌, ◌<◌, ◌≡◌, refl, arith, min, wrap_u64, u64_max, u32_max,
  false, ltb,
}
use azoth_balancer.Metrics.{Registry}
use azoth_balancer.Endpoint.{RpcEndpoint, nanos_per_sec, is_in_cooldown, is_available}
use azoth_balancer.Cooldown.{cooldown_duration, trigger_cooldown}

pow_mono : (a b : ℕ) → a ≤ b → 2 ^ a ≤ 2 ^ b
pow_mono a b h = pow-le-pow_right (omega arith) h

-- Below 64 attempts the power does not wrap.
pow-lt : (k : ℕ) → k < 64 → wrap_u64 (2 ^ k) ≡ 2 ^ k
pow-lt k h = omega (arith, pow_mono k 63 (omega arith))

-- From 64 on a power is a multiple of the modulus.
pow_multiple : (k : ℕ) → (q : ℕ) × (2 ^ (64 + k) ≡ q * 2 ^ 64)
pow_multiple zero = (1, refl)
pow_multiple (suc k) =
    let (q, e) = pow_multiple k in
    let shift : 64 + suc k ≡ suc (64 + k) = omega arith in
    (q * 2, rw (shift, pow-suc, e) (omega arith))

pow-wraps : (k : ℕ) → 64 ≤ k → wrap_u64 (2 ^ k) ≡ 0
pow-wraps k h =
    let (q, e) = pow_multiple (k - 64) in
    let back : k ≡ 64 + (k - 64) = omega arith in rw back (rw e (omega arith))

-- Below 64 attempts the cooldown is base * 2 ^ attempts seconds, capped at the maximum; from 64
-- attempts on the power has wrapped to 0 and there is no cooldown.
pub cooldown_duration_lem :
    (base top attempts : ℕ)
    → top ≤ u64_max
    → (attempts < 64 → cooldown_duration base top attempts ≡ min (base * 2 ^ attempts) top)
      × (64 ≤ attempts → cooldown_duration base top attempts ≡ 0)
unfolding cooldown_duration
cooldown_duration_lem base top attempts fits = (
  λ below. rw (pow-lt attempts below) (omega arith),
  λ above. rw (pow-wraps attempts above) (omega arith),
)

-- More attempts never give a shorter cooldown, as long as there are fewer than 64.
pub cooldown_duration_mono :
    (base top a b : ℕ)
    → top ≤ u64_max
    → a ≤ b
    → b < 64
    → cooldown_duration base top a ≤ cooldown_duration base top b
cooldown_duration_mono base top a b fits le below =
    rw
      (
        (cooldown_duration_lem base top a fits).0 (omega arith),
        (cooldown_duration_lem base top b fits).0 below,
      )
      (grind (arith, pow_mono a b le))

module _ (ep : RpcEndpoint) (base top now : ℕ) (registry : Registry) (fits : top ≤ u64_max) where
  -- A cooldown that is not among the first 63 since the last recovery does not begin: the endpoint
  -- is in no cooldown at any instant from the call on.
  pub trigger_cooldown_lost :
      (t : ℕ)
      → 63 ≤ ep.cooldown_attempts
      → now ≤ t
      → is_in_cooldown (trigger_cooldown ep base top now registry).0 t ≡ false
  unfolding is_in_cooldown trigger_cooldown
  trigger_cooldown_lost t many later = ground (
    arith,
    (cooldown_duration_lem base top (min (ep.cooldown_attempts + 1) u32_max) fits).1 (omega arith),
  )

  -- One of the first 63 cooldowns lasts min (base * 2 ^ attempts) max seconds exactly: the endpoint
  -- is in cooldown before that instant and not from it on, and so unavailable before it.
  pub trigger_cooldown_exact :
      (t : ℕ)
      → ep.cooldown_attempts < 63
      → let over = now + min (base * 2 ^ (ep.cooldown_attempts + 1)) top * nanos_per_sec in
        (is_in_cooldown (trigger_cooldown ep base top now registry).0 t ≡ ltb t over)
        × (t < over → is_available (trigger_cooldown ep base top now registry).0 t ≡ false)
  unfolding is_in_cooldown is_available trigger_cooldown
  trigger_cooldown_exact t few = ground (
    arith,
    (cooldown_duration_lem base top (min (ep.cooldown_attempts + 1) u32_max) fits).0 (omega arith),
  )

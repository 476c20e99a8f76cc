-- ===== src/Cooldown.antt =====
-- src/utils/cooldown.rs: exponential backoff of an endpoint. One reading of the clock serves a
-- whole operation. `2u64.pow` is taken as the release profile computes it, which has no overflow
-- checks; a debug build panics where the power wraps. An instant is a number without bound: the
-- panic of `Instant::now() + Duration` on an overflow, which needs a cooldown near i64::MAX seconds,
-- is left out.
pub mod Backoff
use azoth_balancer.Prelude.{
  ℕ, ◌+◌, ◌*◌, ◌^◌, List, [], ◌∷◌, Option, some, min, saturating_add, saturating_mul, u32_max,
  u64_max, wrap_u64,
}
use azoth_balancer.Metrics.{Registry, set, cooldown_seconds_gauge}
use azoth_balancer.Endpoint.{RpcEndpoint, nanos_per_sec, cooldown_remaining_secs}

-- the duration that `trigger_cooldown` computes from the number of attempts
unfoldable pub cooldown_duration : (base_cooldown_secs max_cooldown_secs cooldown_attempts : ℕ) → ℕ
cooldown_duration base_cooldown_secs max_cooldown_secs cooldown_attempts =
    min (saturating_mul u64_max base_cooldown_secs (wrap_u64 (2 ^ cooldown_attempts)))
      max_cooldown_secs

unfoldable pub trigger_cooldown :
    RpcEndpoint → (base_cooldown_secs max_cooldown_secs now : ℕ) → Registry → RpcEndpoint × Registry
trigger_cooldown ep base_cooldown_secs max_cooldown_secs now registry =
    let attempts = saturating_add u32_max ep.cooldown_attempts 1 in
    let duration = cooldown_duration base_cooldown_secs max_cooldown_secs attempts in
    (
      record ep {
        cooldown_attempts = attempts;
        cooldown_until = some (now + duration * nanos_per_sec);
        last_check = now;
      },
      set cooldown_seconds_gauge ep.url duration ∷ registry,
    )

-- one tick of `cooldown_gauge_updater`, up to its call of `update_healthy_count`
unfoldable pub update_gauges : List RpcEndpoint → ℕ → Registry → Registry
update_gauges [] now registry = registry
update_gauges (ep ∷ rest) now registry =
    update_gauges rest now
      (set cooldown_seconds_gauge ep.url (cooldown_remaining_secs ep now) ∷ registry)

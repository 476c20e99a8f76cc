-- ===== src/Limiter.antt =====
-- The crate `ratelimit_meter`, which the program only calls, as an interface: the type of limiters
-- is a parameter `L`.
use azoth_balancer.Prelude.{
  ℕ, ◌*◌, ◌/◌, ◌≡◌, Bool, false, ◌||◌, Option, none, some, ◌==◌, wrap_u64, if◌then◌else◌,
}

pub record RateLimiter (L : Type 0) : Type 0 where
  -- `DirectRateLimiter::new(capacity, per_time_unit)`, the time in nanoseconds
  pub new : ℕ → ℕ → L
  -- `check_n(n)` at an instant: whether the batch of `n` cells fits, and the limiter afterwards
  pub check_n : ℕ → ℕ → L → Bool × L

-- "If (and only if) all cells in the batch can be accommodated, the decider updates the internal
-- state": a refusal takes nothing.
abbrev pub RefusalKeeps : {L : Type 0} → RateLimiter L → Type 0
RefusalKeeps {L} rl =
    (n now : ℕ) (l : L) → (rl.check_n n now l).0 ≡ false → (rl.check_n n now l).1 ≡ l

-- `create_rate_limiter` of src/config_reloader.rs. A burst or a rate of 0 panics.
unfoldable pub create_rate_limiter :
    {L : Type 0} → RateLimiter L → (burst_size rate_limit_per_sec : ℕ) → Option L
create_rate_limiter rl burst_size rate_limit_per_sec =
    if burst_size == 0 || rate_limit_per_sec == 0
    then none
    else some (rl.new burst_size (wrap_u64 (burst_size * 1_000_000_000) / rate_limit_per_sec))

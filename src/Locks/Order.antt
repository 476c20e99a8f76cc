-- ===== src/Locks/Order.antt =====
-- Locks are told apart by their place in the order of declaration and by their URL, and there are
-- fifteen places.
use azoth_balancer.Prelude.{
  ℕ, zero, suc, ◌<◌, ◌≡◌, refl, arith, true, ◌==◌, text_eq_iff, if◌then◌else◌, Text,
}
use azoth_balancer.Locks.{
  Lock, endpoints, rate_limiters, client, health_check_interval_secs, health_check_timeout_secs,
  base_cooldown_secs, max_cooldown_secs, max_batch_size, latency_smoothing_factor, config_path,
  connect_timeout_ms, timeout_secs, pool_idle_timeout_secs, pool_max_idle_per_host, limiter,
}
use azoth_balancer.Locks.Threads.{rank, url_of, lock_eq}

-- A lock by its rank and its URL.
lock_at : ℕ → Text → Lock
lock_at zero url = endpoints
lock_at (suc zero) url = rate_limiters
lock_at (suc (suc zero)) url = client
lock_at (suc (suc (suc zero))) url = health_check_interval_secs
lock_at (suc (suc (suc (suc zero)))) url = health_check_timeout_secs
lock_at (suc (suc (suc (suc (suc n))))) url =
    if n == 0
    then base_cooldown_secs
    else if n == 1
    then max_cooldown_secs
    else if n == 2
    then max_batch_size
    else if n == 3
    then latency_smoothing_factor
    else if n == 4
    then config_path
    else if n == 5
    then connect_timeout_ms
    else if n == 6
    then timeout_secs
    else if n == 7
    then pool_idle_timeout_secs
    else if n == 8
    then pool_max_idle_per_host
    else limiter url

lock_at_lem : (l : Lock) → lock_at (rank l) (url_of l) ≡ l
unfolding lock_at rank url_of
lock_at_lem endpoints = refl
lock_at_lem rate_limiters = refl
lock_at_lem client = refl
lock_at_lem health_check_interval_secs = refl
lock_at_lem health_check_timeout_secs = refl
lock_at_lem base_cooldown_secs = refl
lock_at_lem max_cooldown_secs = refl
lock_at_lem max_batch_size = refl
lock_at_lem latency_smoothing_factor = refl
lock_at_lem config_path = refl
lock_at_lem connect_timeout_ms = refl
lock_at_lem timeout_secs = refl
lock_at_lem pool_idle_timeout_secs = refl
lock_at_lem pool_max_idle_per_host = refl
lock_at_lem (limiter url) = refl

pub rank_lt : (l : Lock) → rank l < 15
unfolding rank
rank_lt endpoints = omega arith
rank_lt l = omega arith

pub lock_eq-rank : (a b : Lock) → lock_eq a b ≡ true → rank a ≡ rank b
unfolding lock_eq
lock_eq-rank a b h = ground arith

pub lock_eq_sound : (a b : Lock) → lock_eq a b ≡ true → a ≡ b
unfolding lock_eq
lock_eq_sound a b h =
    let r : rank a ≡ rank b = ground arith in
    let u : url_of a ≡ url_of b = ground (arith, text_eq_iff (url_of a) (url_of b)) in
    cc (lock_at_lem a, lock_at_lem b, r, u)

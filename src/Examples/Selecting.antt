-- ===== src/Examples/Selecting.antt =====
-- The selection and the metrics at concrete endpoints.
use azoth_balancer.Prelude.{
  ℕ, ◌+◌, ◌*◌, ◌^◌, ◌≤◌, ◌<◌, ◌≡◌, ◌↔◌, refl, arith, min, true, false, List, [], ◌∷◌, none, some,
  Text, text_eq, lookup, insert, sort_by, find, filter, is_empty, All,
}
use mathlib.Core.List.{Mem}
use azoth_balancer.Endpoint.{RpcEndpoint, is_available, is_in_cooldown}
use azoth_balancer.Endpoint.Decay.{successes, successes-penalty-le}
use azoth_balancer.Cooldown.{cooldown_duration, trigger_cooldown}
use azoth_balancer.Cooldown.Backoff.{cooldown_duration_lem, trigger_cooldown_lost}
use azoth_balancer.Strategy.{
  select_best_endpoint, try_tiers, try_candidates, reserve_tokens, check_limiter, collect_tiers,
  is_candidate, priority_cmp,
}
use azoth_balancer.Strategy.Search.{accepts, taken, priority_order, select-first}
use azoth_balancer.Strategy.Choice.{Preferred, select-best, select-none}
use azoth_balancer.Strategy.Counters.{limited, if_none, select-limited}
use azoth_balancer.Examples.{
  tenths, tenths-HalfLaws, tokens, tokens-RefusalKeeps, url_a, url_b, endpoint_a, endpoint_b,
}

abbrev both : List RpcEndpoint
both = endpoint_a ∷ endpoint_b ∷ []

abbrev limiters : List (Text × ℕ)
limiters = (url_a, 0) ∷ (url_b, 5) ∷ []

-- The heavier endpoint has no tokens left, so the other one is chosen.
chooses_b : (select_best_endpoint tokens both 2 0 limiters []).chosen ≡ some endpoint_b
unfolding select_best_endpoint try_tiers try_candidates reserve_tokens check_limiter sort_by
    priority_cmp collect_tiers is_candidate is_available is_in_cooldown lookup insert text_eq
chooses_b = refl

select-best_example :
    Mem endpoint_b both
    × (is_available endpoint_b 0 ≡ true)
    × (0 < endpoint_b.weight)
    × (accepts tokens limiters 2 0 endpoint_b ≡ true)
    × All
        (λ x.
          is_available x 0 ≡ true
          → 0 < x.weight
          → accepts tokens limiters 2 0 x ≡ true
          → Preferred endpoint_b x)
        both
select-best_example =
    select-best tokens tokens-RefusalKeeps both 2 0 limiters [] endpoint_b chooses_b

select-none_example :
    ((select_best_endpoint tokens both 6 0 limiters []).chosen ≡ none)
    ↔ All (λ x. is_available x 0 ≡ true → 0 < x.weight → accepts tokens limiters 6 0 x ≡ false) both
select-none_example = select-none tokens tokens-RefusalKeeps both 6 0 limiters []

select-first_example :
    ((select_best_endpoint tokens both 2 0 limiters []).chosen
      ≡ find (accepts tokens limiters 2 0) (priority_order both 0))
    × ((select_best_endpoint tokens both 2 0 limiters []).limiters
        ≡ taken tokens 2 0 limiters (find (accepts tokens limiters 2 0) (priority_order both 0)))
select-first_example = select-first tokens tokens-RefusalKeeps 2 0 both limiters []

select-limited_example :
    (is_empty (filter (is_candidate 0) both) ≡ true
      → (select_best_endpoint tokens both 6 0 limiters []).registry ≡ [])
    × (is_empty (filter (is_candidate 0) both) ≡ false
        → limited (select_best_endpoint tokens both 6 0 limiters []).registry
          ≡ limited [] + if_none (select_best_endpoint tokens both 6 0 limiters []).chosen)
select-limited_example = select-limited tokens 6 0 both limiters []

successes-penalty-le_example :
    (successes tenths 3
      (record endpoint_a.metrics { ema_error_penalty_ms = 8 })
      100
      1).ema_error_penalty_ms
    ≤ 1
successes-penalty-le_example =
    successes-penalty-le tenths tenths-HalfLaws 3
      (record endpoint_a.metrics { ema_error_penalty_ms = 8 }) 100 1 (omega arith) (omega arith)

cooldown_duration_lem_example :
    (4 < 64 → cooldown_duration 3 60 4 ≡ min (3 * 2 ^ 4) 60)
    × (64 ≤ 4 → cooldown_duration 3 60 4 ≡ 0)
cooldown_duration_lem_example = cooldown_duration_lem 3 60 4 (omega arith)

trigger_cooldown_lost_example :
    is_in_cooldown (trigger_cooldown (record endpoint_a { cooldown_attempts = 63 }) 3 60 5 []).0 5
    ≡ false
trigger_cooldown_lost_example =
    trigger_cooldown_lost (record endpoint_a { cooldown_attempts = 63 }) 3 60 5 [] (omega arith) 5
      (omega arith) (omega arith)

-- ===== src/Endpoint/Decay.antt =====
-- The error penalty of src/endpoint.rs over successful requests.
use azoth_balancer.Prelude.{ℕ, zero, suc, ◌+◌, ◌/◌, ◌^◌, ◌≤◌, ◌≡◌, arith, ◌∙◌, ap}
use native.Mathlib.Nat.{pow-suc}
use azoth_balancer.Float.{Float, HalfLaws}
use azoth_balancer.Endpoint.{EndpointMetrics, update_ema, update, success}

module _ {F : Type 0} (fl : Float F) (laws : HalfLaws fl) where
  decay_once : (n : ℕ) → n ≤ 2 ^ 53 → update_ema fl n 0 fl.half ≡ (n + 1) / 2
  unfolding update_ema
  decay_once n h =
      rw (update_ema, laws.half_complement)
        (ap fl.round_u64 (laws.add_nothing n) ∙ laws.round_half n h)

module _ {F : Type 0} (fl : Float F) where
  -- `k` successful requests in a row, all of one latency
  abbrev pub successes : ℕ → EndpointMetrics → ℕ → F → EndpointMetrics
  successes zero m latency_ms factor = m
  successes (suc k) m latency_ms factor =
      successes k (update fl m (success latency_ms) factor) latency_ms factor

module _ {F : Type 0} (fl : Float F) (laws : HalfLaws fl) where
  -- Successful requests halve the penalty, rounding up: a penalty of at most 2 ^ k ms, below the
  -- floats' exact range, is at most 1 ms after `k` of them.
  pub successes-penalty-le :
      (k : ℕ) (m : EndpointMetrics) (latency_ms : ℕ) (factor : F)
      → m.ema_error_penalty_ms ≤ 2 ^ k
      → m.ema_error_penalty_ms ≤ 2 ^ 53
      → (successes fl k m latency_ms factor).ema_error_penalty_ms ≤ 1
  unfolding update
  successes-penalty-le zero m latency_ms factor h b = h
  successes-penalty-le (suc k) m latency_ms factor h b =
      successes-penalty-le k (update fl m (success latency_ms) factor) latency_ms factor
        (rw penalty-success (omega (arith, pow-suc 2 k))) (rw penalty-success (omega arith))
    where
      penalty-success :
          (update fl m (success latency_ms) factor).ema_error_penalty_ms
          ≡ (m.ema_error_penalty_ms + 1) / 2
      penalty-success = decay_once fl laws m.ema_error_penalty_ms b

-- ===== src/Float.antt =====
-- The `f64` values of the program (endpoint.rs, config.rs) as an interface: the type of floats is
-- a parameter `F`, with the operations that the code applies to it. `HalfLaws` are facts of
-- IEEE 754 arithmetic at the literal 0.5 that the penalty decay relies on.
use azoth_balancer.Prelude.{ℕ, ◌+◌, ◌/◌, ◌^◌, ◌≤◌, ◌≡◌}

pub record Float (F : Type 0) : Type 0 where
  -- `n as f64`
  pub from_u64 : ℕ → F
  pub add : F → F → F
  pub sub : F → F → F
  pub mul : F → F → F
  -- `x.round() as u64`, which saturates
  pub round_u64 : F → ℕ
  -- `x.clamp(low, high)`
  pub clamp : F → F → F → F
  -- the literals 0.0, 1.0, 0.1, 0.5 and 0.8
  pub zero : F
  pub one : F
  pub tenth : F
  pub half : F
  pub four_fifths : F

pub record HalfLaws {F : Type 0} (fl : Float F) : Type 0 where
  -- 1.0 - 0.5 is 0.5, exactly
  pub half_complement : fl.sub fl.one fl.half ≡ fl.half
  -- 0.5 * 0.0 is 0.0, which adds nothing to a product of non-negative numbers
  pub add_nothing :
      (n : ℕ)
      → fl.add (fl.mul fl.half (fl.from_u64 0)) (fl.mul fl.half (fl.from_u64 n))
        ≡ fl.mul fl.half (fl.from_u64 n)
  -- integers up to 2 ^ 53 and their halves are floats, and `round` takes halves away from zero
  pub round_half :
      (n : ℕ) → n ≤ 2 ^ 53 → fl.round_u64 (fl.mul fl.half (fl.from_u64 n)) ≡ (n + 1) / 2

-- ===== src/Server/Admission.antt =====
-- Which requests are let through to an endpoint.
use azoth_balancer.Prelude.{ℕ, ◌≤◌, ◌≡◌, ◌↔◌, Bool, true, arith, Text, length, Result}
use azoth_balancer.Server.{
  Json, max_json_size, is_likely_batch, approx_batch_size, check_body, batch_of, check_size,
  check_parsed, admit,
}

module _ {J : Type 0} (json : Json J) (max_batch_size : ℕ) where
  -- What holds of a request that is let through, with its payload and the number of its parts.
  pub record Admitted (body : Text) (permit : Bool) (payload : J) (is_batch : Bool) (n : ℕ)
      : Type 0 where
    pub short : length body ≤ max_json_size
    pub few_braces : is_likely_batch body ≡ true → approx_batch_size body ≤ max_batch_size
    pub parsed : json.from_slice body ≡ Result.ok payload
    pub counted : batch_of (json.array_len payload) ≡ (is_batch, n)
    pub at_least_one : 1 ≤ n
    pub at_most : n ≤ max_batch_size
    pub permitted : permit ≡ true

  admit-Admitted :
      (body : Text) (permit : Bool) (payload : J) (is_batch : Bool) (n : ℕ)
      → admit json max_batch_size permit body ≡ Result.ok (payload, (is_batch, n))
      → Admitted body permit payload is_batch n
  unfolding admit check_parsed check_size check_body
  admit-Admitted body permit payload is_batch n h = record {
    short = ground (arith, h);
    few_braces = ground (arith, h);
    parsed = ground (arith, h);
    counted = ground (arith, h);
    at_least_one = ground (arith, h);
    at_most = ground (arith, h);
    permitted = ground (arith, h);
  }

  Admitted-admit :
      (body : Text) (permit : Bool) (payload : J) (is_batch : Bool) (n : ℕ)
      → Admitted body permit payload is_batch n
      → admit json max_batch_size permit body ≡ Result.ok (payload, (is_batch, n))
  unfolding admit check_parsed check_size check_body
  Admitted-admit body permit payload is_batch n a =
      ground
        (arith, a.short, a.few_braces, a.parsed, a.counted, a.at_least_one, a.at_most, a.permitted)

  -- A request is let through exactly when its body is at most 10 MiB and parses, it has at least
  -- one part and at most as many as a batch may have, a permit is given, and a body that begins
  -- like an array has at most that many opening braces.
  pub admit_iff :
      (body : Text) (permit : Bool) (payload : J) (is_batch : Bool) (n : ℕ)
      → (admit json max_batch_size permit body ≡ Result.ok (payload, (is_batch, n)))
        ↔ Admitted body permit payload is_batch n
  admit_iff body permit payload is_batch n =
      (admit-Admitted body permit payload is_batch n, Admitted-admit body permit payload is_batch n)

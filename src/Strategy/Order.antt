-- ===== src/Strategy/Order.antt =====
-- The comparator is a total preorder, and what it says of two endpoints.
use azoth_balancer.Prelude.{◌≤◌, ◌≡◌, Bool, true, false, arith, is_gt}
use azoth_balancer.Endpoint.{RpcEndpoint}
use azoth_balancer.Strategy.{priority_cmp}

module _ (use_cost : Bool) where
  pub priority_cmp_trans :
      (a b c : RpcEndpoint)
      → is_gt (priority_cmp use_cost a b) ≡ false
      → is_gt (priority_cmp use_cost b c) ≡ false
      → is_gt (priority_cmp use_cost a c) ≡ false
  unfolding priority_cmp
  priority_cmp_trans a b c p q = ground arith

  pub priority_cmp_flip :
      (a b : RpcEndpoint)
      → is_gt (priority_cmp use_cost a b) ≡ true
      → is_gt (priority_cmp use_cost b a) ≡ false
  unfolding priority_cmp
  priority_cmp_flip a b p = ground arith

pub priority_cmp-weight :
    (use_cost : Bool) (a b : RpcEndpoint)
    → is_gt (priority_cmp use_cost a b) ≡ false
    → b.weight ≤ a.weight
unfolding priority_cmp
priority_cmp-weight use_cost a b h = ground arith

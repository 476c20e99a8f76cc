-- ===== src/Examples/Running.antt =====
-- The operations of the running balancer at concrete states.
use azoth_balancer.Prelude.{
  length, ◌≤◌, ℕ, ◌+◌, ◌*◌, ◌^◌, ◌≡◌, ◌≢◌, ◌⊎◌, ◌↔◌, ◌++◌, not, refl, sym, arith, min, Bool, true,
  false, List, [], ◌∷◌, some, Text, codes, text_eq, text_ne, lookup, ltb, find, All, Sat, Result,
}
use azoth_balancer.Endpoint.{LoadBalancerError, RpcEndpoint, is_in_cooldown, nanos_per_sec}
use azoth_balancer.Config.{Config}
use azoth_balancer.Config.Finalize.{FileRead, not_found}
use azoth_balancer.Config.Finalize.{finalize_balancer}
use azoth_balancer.Balancer.{LoadBalancer, has_url, new, mark_unhealthy, mark_rate_limited}
use azoth_balancer.Balancer.Invariant.{Inv}
use azoth_balancer.Balancer.Marks.{mark_rate_limited_exact, mark-others}
use azoth_balancer.Forwarder.{response, forward_request}
use azoth_balancer.Forwarder.Body.{error_key, response_has_error, response_has_error_lem}
use azoth_balancer.Config.Urls.{is_whitespace, starts_with, trim_start}
use azoth_balancer.Forwarder.Counts.{Counted, as_success, as_failure, forward_request-counts}
use azoth_balancer.Health.{finish_health_checks}
use azoth_balancer.Health.Outcome.{Agrees, finish_health_checks-Agree}
use azoth_balancer.Reload.Safe.{Outcome}
use azoth_balancer.Server.{admit}
use azoth_balancer.Server.Admission.{Admitted, admit_iff}
use azoth_balancer.Shutdown.{TaskEnd, returned, running, graceful_shutdown}
use azoth_balancer.Shutdown.Ending.{ReturnedIn, graceful_shutdown_iff}
use azoth_balancer.System.{Step, start, run}
use azoth_balancer.System.Safe.{InvHolds, new-run-safe}
use azoth_balancer.Examples.{
  all_build, permits_64, pairs, periods, tenths, tokens, tokens-RefusalKeeps, http, url_a, url_b,
  endpoint_a, two_endpoints,
}
use azoth_balancer.Examples.Configuring.{finalized_balancer, written, finalized, finalizes}

a_found : find (has_url url_a) two_endpoints.endpoints ≡ some endpoint_a
unfolding text_eq
a_found = refl

b_not_a : url_b ≢ url_a
unfolding text_eq
b_not_a = text_ne url_b url_a refl

pub two_endpoints-Inv : Inv two_endpoints
unfolding lookup text_eq
two_endpoints-Inv = record {
  distinct = ((b_not_a, tt), (tt, tt));
  positive = ((omega arith, omega arith), ((omega arith, omega arith), tt));
  limited = (tt, (tt, tt));
  batch_pos = omega arith;
  connect_timeout_synced = refl;
  timeout_synced = refl;
  pool_idle_timeout_synced = refl;
  pool_max_idle_synced = refl;
}

mark_rate_limited_exact_example :
    (e : RpcEndpoint) × (find (has_url url_a) (mark_rate_limited two_endpoints url_a 5).endpoints
      ≡ some e)
    × (e.healthy ≡ true)
    × ((t : ℕ) → is_in_cooldown e t ≡ ltb t (5 + min (3 * 2 ^ (0 + 1)) 60 * nanos_per_sec))
mark_rate_limited_exact_example =
    mark_rate_limited_exact two_endpoints url_a 5 endpoint_a a_found (omega arith) (omega arith)

mark-others_example :
    (find (has_url url_b) (mark_unhealthy two_endpoints url_a 5).endpoints
      ≡ find (has_url url_b) two_endpoints.endpoints)
    × (find (has_url url_b) (mark_rate_limited two_endpoints url_a 5).endpoints
        ≡ find (has_url url_b) two_endpoints.endpoints)
mark-others_example = mark-others two_endpoints url_a 5 url_b b_not_a

-- A response with status 500.
abbrev failed_request : Result LoadBalancerError Text × LoadBalancer ℕ ℕ
failed_request =
    forward_request tenths http two_endpoints url_a (codes "eth_call") 40 5 (response 500)
      (Result.ok [])

forward_request-counts_example :
    Counted two_endpoints failed_request.1 url_a
      (as_success failed_request.0, as_failure failed_request.0)
forward_request-counts_example =
    forward_request-counts tenths http two_endpoints url_a (codes "eth_call") 40 5 (response 500)
      (Result.ok [])

-- A body whose error is null.
abbrev null_error : Text
null_error = codes "{\"error\": null}"

response_has_error_lem_example :
    ((before : Text) × (value : Text) × (null_error ≡ before ++ error_key ++ value)
      × ((other rest : Text)
          → null_error ≡ other ++ error_key ++ rest
          → length before ≤ length other)
      × (response_has_error null_error
          ≡ not (starts_with (codes "null") (trim_start is_whitespace value))))
    ⊎ (((before value : Text) → null_error ≢ before ++ error_key ++ value)
        × (response_has_error null_error ≡ false))
response_has_error_lem_example = response_has_error_lem null_error

abbrev results : List (Text × Bool)
results = (url_b, true) ∷ (url_a, false) ∷ []

finish_health_checks-Agree_example :
    All (Agrees two_endpoints (finish_health_checks tenths two_endpoints 5 9 results)) results
    × ((other : Text)
        → All (λ u. u.0 ≢ other) results
        → find (has_url other) (finish_health_checks tenths two_endpoints 5 9 results).endpoints
          ≡ find (has_url other) two_endpoints.endpoints)
finish_health_checks-Agree_example =
    finish_health_checks-Agree tenths 5 9 two_endpoints results
      (((λ q. b_not_a (sym q)), tt), (tt, tt))

-- The file is missing, so the defaults are loaded.
abbrev no_file : Text → FileRead
no_file path = not_found

abbrev no_toml : Text → Result Text (Config ℕ)
no_toml raw = Result.err raw

new-run-safe_example :
    Sat (new tenths tokens all_build permits_64 (some written) (codes "config.toml") 0 []) (λ b.
      (steps : List (Step ℕ))
      → Sat (run tenths tokens http pairs periods steps (start periods b)) InvHolds)
unfolding finalize_balancer
new-run-safe_example =
    new-run-safe tenths tokens tokens-RefusalKeeps http pairs periods all_build permits_64
      (some written) (codes "config.toml") 0 [] finalized finalized_balancer finalizes refl refl
      (omega arith)

-- Two calls in one batch.
abbrev two_calls : Text
two_calls = codes "[{},{}]"

admit_iff_example :
    (admit pairs 20 true two_calls ≡ Result.ok (two_calls, (true, 2)))
    ↔ Admitted pairs 20 two_calls true two_calls true 2
admit_iff_example = admit_iff pairs 20 two_calls true two_calls true 2

-- One task that returns in time and one that does not end.
abbrev two_tasks : List TaskEnd
two_tasks = returned 3 ∷ running ∷ []

graceful_shutdown_iff_example :
    (((graceful_shutdown two_tasks 5).result ≡ Result.ok tt) ↔ All (ReturnedIn 5) two_tasks)
    × (All (ReturnedIn 5) two_tasks → (graceful_shutdown two_tasks 5).aborted ≡ [])
graceful_shutdown_iff_example = graceful_shutdown_iff two_tasks 5

-- ===== src/Examples/Operating.antt =====
-- The report, reloads, the recovery from a rate limit and the end of the program, at concrete
-- states.
use azoth_balancer.Prelude.{
  ℕ, ◌≡◌, ◌↔◌, refl, arith, Bool, true, false, List, [], ◌∷◌, map, some, Text, Sat, Result, All,
  is_gt, lookup, insert, text_eq, find, none, ◌⊎◌,
}
use mathlib.Core.List.{Perm}
use azoth_balancer.Endpoint.{RpcEndpoint, get_total_cost}
use azoth_balancer.Balancer.{
  LoadBalancer, has_url, mark_unhealthy, mark_rate_limited, get_next_endpoint,
}
use azoth_balancer.Balancer.Recovery.{mark_rate_limited-recovers}
use azoth_balancer.Strategy.Search.{accepts}
use azoth_balancer.Config.{Config, default_bind_addr, default_endpoints}
use azoth_balancer.Config.Urls.{canonicalize}
use azoth_balancer.Config.Finalize.{
  FileRead, not_found, contents, try_load_config, finalize_balancer, constrain,
}
use azoth_balancer.Main.{handle_reload, ctrl_c, terminate, Signal}
use azoth_balancer.Main.Program.{config_arg, serves, start_main, end_main}
use azoth_balancer.Main.Outcome.{Outcome, start_main-Outcome}
use azoth_balancer.Main.Defaults.{start_main-default}
use azoth_balancer.Main.Reloading.{Answered, handle_reload-answers}
use azoth_balancer.Main.Signals.{IsForced, end_main-IsForced}
use azoth_balancer.Reload.{
  client_builds, NewSettings, new_settings, urls, reload, reloaded, rebuild_client,
  client_settings_changed, finalize_loaded,
}
use azoth_balancer.Reload.Phases.{
  Pending, begin_reload, begin_with, begin_known, begin_settings, finish_reload, shared_urls,
  same_limits,
}
use azoth_balancer.Reload.Counters.{CountersAfter, reload-counters}
use azoth_balancer.Reload.Rebuild.{
  rebuild, rebuild_one, kept_limiter, modified_urls, difference, cleanup_all,
}
use azoth_balancer.Reload.Race.{reload-loses_mark}
use azoth_balancer.Shutdown.{TaskEnd, returned}
use azoth_balancer.Shutdown.Ending.{ReturnedIn}
use azoth_balancer.Status.{priority_stat, stat_cmp, get_endpoint_priority_stats}
use azoth_balancer.Status.Ranking.{InOrder, RanksFrom, ranked, priority_stats_ranked}
use azoth_balancer.Status.Ties.{ranking-reverses-selection}
use azoth_balancer.Strategy.{priority_cmp, reserve_tokens, check_limiter}
use azoth_balancer.Examples.{
  all_build, permits_64, tenths, tokens, tokens-RefusalKeeps, url_a, url_b, endpoint_a, endpoint_b,
  two_endpoints,
}
use azoth_balancer.Examples.Configuring.{kept, written, finalizes}
use azoth_balancer.Examples.Running.{two_endpoints-Inv}

priority_stats_ranked_example :
    Perm (ranked two_endpoints 5 9) (map (priority_stat 5 9) two_endpoints.endpoints)
    × InOrder (ranked two_endpoints 5 9)
    × RanksFrom 1 (get_endpoint_priority_stats two_endpoints 5 9).endpoints
priority_stats_ranked_example = priority_stats_ranked two_endpoints 5 9

-- The first endpoint as if it had been selected later.
abbrev later_a : RpcEndpoint
later_a = record endpoint_a { metrics = record endpoint_a.metrics { last_selected = 8 } }

ranking-reverses-selection_example :
    (is_gt (stat_cmp (priority_stat 5 9 later_a) (priority_stat 5 9 endpoint_a)) ≡ true)
    × ((use_cost : Bool) → is_gt (priority_cmp use_cost endpoint_a later_a) ≡ true)
unfolding get_total_cost
ranking-reverses-selection_example =
    ranking-reverses-selection 5 9 endpoint_a later_a refl refl (omega arith) (omega arith)

-- The default settings with the first endpoint alone.
abbrev one_endpoint : NewSettings ℕ
one_endpoint = record {
  max_batch_size = 100;
  base_cooldown_secs = 3;
  max_cooldown_secs = 60;
  health_check_interval_secs = 30;
  health_check_timeout_secs = 5;
  latency_smoothing_factor = 1;
  connect_timeout_ms = 500;
  timeout_secs = 5;
  pool_idle_timeout_secs = 20;
  pool_max_idle_per_host = 50;
  endpoints_list = kept;
}

-- A file with both endpoints of the configuration; one of them is kept.
abbrev some_file : Text → FileRead
some_file path = contents path

abbrev some_toml : Text → Result Text (Config ℕ)
some_toml raw = Result.ok written

abbrev pending_a : Pending ℕ ℕ
pending_a = record {
  new = one_endpoint;
  endpoints = endpoint_a ∷ [];
  rate_limiters = (url_a, 0) ∷ [];
  shared = url_a ∷ [];
  response = reloaded two_endpoints one_endpoint [];
}

abbrev begun_a : LoadBalancer ℕ ℕ
begun_a = record (rebuild_client two_endpoints one_endpoint) {
  registry = cleanup_all (url_b ∷ []) [];
}

begins_a :
    begin_reload tenths tokens all_build some_file some_toml two_endpoints 9
    ≡ some (Result.ok pending_a, begun_a)
unfolding begin_reload begin_with begin_known begin_settings client_builds finalize_loaded
    try_load_config new_settings rebuild rebuild_one kept_limiter lookup insert text_eq
    modified_urls difference shared_urls same_limits rebuild_client client_settings_changed
    finalize_balancer constrain
begins_a = rw (finalizes) refl

a_found : find (has_url url_a) two_endpoints.endpoints ≡ some endpoint_a
unfolding text_eq
a_found = refl

reload-loses_mark_example :
    ((e : RpcEndpoint) × (find (has_url url_a) (mark_unhealthy begun_a url_a 8).endpoints ≡ some e)
      × (e.healthy ≡ false))
    × All
        (λ e. e.url ≡ url_a → e.healthy ≡ true)
        (finish_reload (mark_unhealthy begun_a url_a 8) pending_a 9).endpoints
reload-loses_mark_example =
    reload-loses_mark tenths tokens all_build two_endpoints 9 some_file some_toml pending_a begun_a
      url_a endpoint_a 8 9 two_endpoints-Inv begins_a a_found refl

b_found : find (has_url url_b) two_endpoints.endpoints ≡ some endpoint_b
unfolding text_eq
b_found = refl

-- A minute after the rate limit, to the nanosecond.
abbrev minute_later : ℕ
minute_later = 60_000_000_005

b_fits : accepts tokens two_endpoints.rate_limiters 2 minute_later endpoint_b ≡ true
unfolding accepts reserve_tokens check_limiter lookup insert text_eq
b_fits = refl

mark_rate_limited-recovers_example :
    (chosen : Text) × ((get_next_endpoint tenths tokens
        (mark_rate_limited two_endpoints url_b 5)
        2
        minute_later
        99).0
      ≡ some chosen)
mark_rate_limited-recovers_example =
    mark_rate_limited-recovers tenths tokens tokens-RefusalKeeps two_endpoints url_b 5 endpoint_b 2
      minute_later 99 b_found refl (omega arith) b_fits (omega arith)

-- The file is missing, so the defaults are loaded.
abbrev no_file : Text → FileRead
no_file path = not_found

abbrev no_toml : Text → Result Text (Config ℕ)
no_toml raw = Result.err raw

reload-counters_example :
    Sat
      (reload tenths tokens all_build no_file no_toml two_endpoints 9)
      (CountersAfter two_endpoints url_a)
reload-counters_example =
    reload-counters tenths tokens all_build two_endpoints 9 no_file no_toml url_a two_endpoints-Inv

handle_reload-answers_example :
    Sat
      (handle_reload tenths tokens all_build no_file no_toml two_endpoints 9)
      (Answered all_build two_endpoints)
handle_reload-answers_example =
    handle_reload-answers tenths tokens all_build no_file no_toml two_endpoints 9 two_endpoints-Inv

-- A second Ctrl+C six seconds after the first, and a task that returns.
abbrev pressed_twice : List Signal
pressed_twice = terminate 5 ∷ ctrl_c 9 ∷ []

abbrev one_task : List TaskEnd
one_task = returned 3 ∷ []

end_main-IsForced_example :
    ((end_main (ctrl_c 3 ∷ pressed_twice) (Result.ok tt) one_task).0 ≡ Result.ok tt)
    × ((IsForced (ctrl_c 3 ∷ pressed_twice)
          × ((end_main (ctrl_c 3 ∷ pressed_twice) (Result.ok tt) one_task).1.aborted ≡ one_task))
        ⊎ ((¬ IsForced (ctrl_c 3 ∷ pressed_twice))
            × (((end_main (ctrl_c 3 ∷ pressed_twice) (Result.ok tt) one_task).1.result
                  ≡ Result.ok tt)
                ↔ All (ReturnedIn 30) one_task)))
end_main-IsForced_example =
    end_main-IsForced (ctrl_c 3 ∷ pressed_twice) (Result.ok tt) one_task
      ((omega arith, (omega arith, tt)), ((omega arith, tt), (tt, tt)))

-- Addresses are known by their text, and every one can be bound.
abbrev any_addr : Text → Result Text Text
any_addr addr = Result.ok addr

abbrev all_free : Text → Bool
all_free addr = true

start_main-Outcome_example :
    Outcome tenths tokens any_addr all_free all_build permits_64
      (config_arg none)
      9
      []
      (try_load_config some_file some_toml (config_arg none))
      (start_main tenths tokens any_addr all_free all_build permits_64 some_file some_toml none 9
        [])
start_main-Outcome_example =
    start_main-Outcome tenths tokens any_addr all_free all_build permits_64 some_file some_toml none
      9 []

start_main-default_example :
    (b : LoadBalancer ℕ ℕ) × (start_main tenths tokens any_addr all_free all_build permits_64
        no_file no_toml none 9 []
      ≡ serves b default_bind_addr)
    × (b.bind_addr ≡ default_bind_addr)
    × (b.config_path ≡ config_arg none)
    × (urls b.endpoints ≡ map canonicalize default_endpoints)
start_main-default_example =
    start_main-default tenths tokens 9 [] any_addr all_free all_build permits_64 no_file no_toml
      none default_bind_addr refl refl refl refl (omega arith)

-- ===== src/Metrics.antt =====
-- src/utils/metrics.rs: the Prometheus metrics of the process. The registry is the history of what
-- the program did to its metrics, newest first; the value of a counter is read off it.
pub mod Descriptors
pub mod Registration
pub mod Registered
use azoth_balancer.Prelude.{ℕ, ◌+◌, ◌&&◌, List, [], ◌∷◌, Text, text_eq, ◌==◌, if◌then◌else◌}

pub data Metric : Type 0 where
  rpc_requests_total rpc_requests_method rpc_requests_succeeded rpc_requests_failed : Metric
  request_timeouts batch_size_exceeded upstream_rate_limited_total : Metric
  healthcheck_failed cooldowns_triggered cooldown_seconds_gauge : Metric
  healthy_endpoints total_endpoints concurrency_active_permits : Metric
  endpoint_rate_limit_deferred all_endpoints_rate_limited priority_endpoint_selected : Metric
  request_latency_per_endpoint health_check_latency : Metric

-- The order of declaration, to compare metrics.
abbrev pub index : Metric → ℕ
index rpc_requests_total = 0
index rpc_requests_method = 1
index rpc_requests_succeeded = 2
index rpc_requests_failed = 3
index request_timeouts = 4
index batch_size_exceeded = 5
index upstream_rate_limited_total = 6
index healthcheck_failed = 7
index cooldowns_triggered = 8
index cooldown_seconds_gauge = 9
index healthy_endpoints = 10
index total_endpoints = 11
index concurrency_active_permits = 12
index endpoint_rate_limit_deferred = 13
index all_endpoints_rate_limited = 14
index priority_endpoint_selected = 15
index request_latency_per_endpoint = 16
index health_check_latency = 17

-- One call on a metric, at the label that names the endpoint or the method (empty where there is
-- none). `rank` is the second label of PRIORITY_ENDPOINT_SELECTED.
pub data Event : Type 0 where
  inc : Metric → Text → Event
  inc_rank : Metric → Text → ℕ → Event
  dec : Metric → Event
  set : Metric → Text → ℕ → Event
  observe : Metric → Text → Event
  -- `inc_by(0)`: the counter appears, at 0
  init : Metric → Text → Event
  -- `remove_label_values`
  remove : Metric → Text → Event

abbrev pub Registry : Type 0
Registry = List Event

-- A counter that one event adds to, or that it starts again.
count_event : Metric → Text → Event → ℕ → ℕ
count_event m url (inc m' url') before =
    if index m' == index m && text_eq url' url then before + 1 else before
count_event m url (remove m' url') before =
    if index m' == index m && text_eq url' url then 0 else before
count_event m url e before = before

-- The value of a counter.
unfoldable pub counter : Metric → Text → Registry → ℕ
unfolding count_event
counter m url [] = 0
counter m url (e ∷ earlier) = count_event m url e (counter m url earlier)

-- One movement of the gauge CONCURRENCY_ACTIVE_PERMITS: how often it went up, and how often down.
move_event : Event → ℕ × ℕ → ℕ × ℕ
move_event (inc m url) (ups, downs) =
    if index m == index concurrency_active_permits then (ups + 1, downs) else (ups, downs)
move_event (dec m) (ups, downs) =
    if index m == index concurrency_active_permits then (ups, downs + 1) else (ups, downs)
move_event (inc_rank m url rank) moves = moves
move_event (set m url n) moves = moves
move_event (observe m url) moves = moves
move_event (init m url) moves = moves
move_event (remove m url) moves = moves

-- The movements of that gauge, up and down; its value is their difference.
unfoldable pub gauge_moves : Registry → ℕ × ℕ
unfolding move_event
gauge_moves [] = (0, 0)
gauge_moves (e ∷ earlier) = move_event e (gauge_moves earlier)

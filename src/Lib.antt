-- ===== src/Lib.antt =====
-- Azoth Balancer, a load balancer for JSON-RPC endpoints, as a verification library of its Rust
-- sources under src/.
--
-- The program holds one `LoadBalancer`, which its tasks share. A request selects an endpoint by
-- weight, cost and recency among those that are available and whose rate limiter lets the batch
-- through, forwards it, and feeds the outcome back into the metrics and the state of the endpoint.
-- Beside that run the health checks, a task that updates the gauges, and reloads of the
-- configuration.
--
-- Which file models which part:
-- - Endpoint: src/endpoint.rs, the errors, the metrics of an endpoint (`EndpointMetrics`) and its
--   state (`RpcEndpoint`). Endpoint/Bounds and Endpoint/Decay hold proofs.
-- - Cooldown: src/utils/cooldown.rs, `trigger_cooldown` and the tick of `cooldown_gauge_updater`.
-- - Strategy: src/strategy.rs, `select_best_endpoint` and `reserve_tokens`. Strategy/Search says
--   which endpoint the loops find, Strategy/Partition that the tiers are in one order,
--   Strategy/Choice what that means for the choice.
-- - Limiter: the interface of the crate ratelimit_meter, and `create_rate_limiter` of
--   src/config_reloader.rs.
-- - Config: src/config.rs, the configuration and its validation; Config/Urls has the text functions
--   that it uses, Config/Finalize has `finalize` and `try_load_config`.
-- - Balancer: src/balancer.rs, the state, `new` and the operations. Balancer/Invariant states what
--   holds between any two operations.
-- - Reload: src/config_reloader.rs; Reload/Rebuild has the loop that builds the new endpoints,
--   Reload/Phases the reload in two parts, the reading and the writing, Reload/Race is about another
--   task between the two.
-- - Forwarder: src/forwarder.rs, `forward_request` in its parts between the waits; Forwarder/Body
--   has `response_has_error`.
-- - Health: src/utils/health.rs, the application of the results of a round.
-- - Background: the loops of src/utils/health.rs (`health_check_loop`, `perform_health_checks`) and
--   src/utils/cooldown.rs (`cooldown_gauge_updater`), as tasks that are woken, and `abort_all` of
--   src/shutdown.rs. Background/Interval is about the timer, Background/Signal about the signal.
-- - Server: `handle_rpc` of src/main.rs as one function, with its checks of a request and its
--   responses. Server/Request has the same handler between its waits, at each of which it may be
--   dropped with its connection; this is what runs in System.
-- - Main: the reload handler of src/main.rs and its signals; Main/Program has `main` before and
--   after the serving.
-- - Shutdown: `graceful_shutdown` of src/shutdown.rs, over the endings of the tasks.
-- - Status: the status report of src/balancer.rs (`get_status`, `get_endpoint_priority_stats`).
-- - Metrics: src/utils/metrics.rs, as the history of what is done to the metrics.
--   Metrics/Descriptors has what they are registered with, Metrics/Registration their first use.
-- - Gauge: which operations move the gauge of active requests.
-- - System: the running program, with the requests under way, the permits of the semaphore, the
--   background tasks, the shutdown signal and the reload under way; its steps are those of all
--   tasks, in any order.
-- - Refinement: an abstract machine on the URLs that are served and their health, and the moves
--   that the steps of the program are seen as.
-- - Locks: which locks of the balancer each stretch of code takes and in which order, over what
--   parking_lot documents. Locks/Threads has the threads, Locks/Nesting and Locks/Sections the
--   order of the guards, Locks/Recursive the status report.
-- - Float: the f64 operations of the program, as an interface.
-- - Prelude: lists, texts, words, results and panics.
-- - Examples: concrete instances and runs.
--
-- State is passed explicitly: an operation takes the balancer and returns the new one. The locks
-- serialize the accesses, so a run is a sequence of such operations. A panic of `unwrap`, `expect`
-- or a zero divisor is `none`; where a reload cannot build its HTTP client, its result says so,
-- since the balancer is left as it was and the program goes on. Texts are lists of code points,
-- bodies lists of bytes. Instants are nanoseconds, as unbounded numbers, so the overflow of an
-- instant plus a duration, which panics, has no counterpart; one reading of the clock serves one
-- operation. Machine words keep their wrapping and saturation, as a release build computes them. No
-- definition needs fuel: every loop runs over a list.
--
-- Not modelled: logging, the routes and the handlers of src/main.rs that only print, and the
-- durations and the encoding of the metrics. The network, the JSON and TOML parsers, the file
-- system, the command line, the parser of addresses, the sockets, the HTTP client, the most permits
-- of a semaphore, the signals, the times at which a timer ticks and whom a lock lets in are
-- arguments. Between its first and its last access to the balancer a step is not
-- interrupted. A reload has two steps with those of other tasks between
-- them; that a second reload overlaps with it is left out.

pub mod Background
pub mod Balancer
pub mod Config
pub mod Cooldown
pub mod Endpoint
pub mod Examples
pub mod Float
pub mod Forwarder
pub mod Gauge
pub mod Health
pub mod Limiter
pub mod Locks
pub mod Main
pub mod Metrics
pub mod Prelude
pub mod Refinement
pub mod Reload
pub mod Server
pub mod Shutdown
pub mod Status
pub mod Strategy
pub mod System

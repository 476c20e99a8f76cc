-- ===== src/Main/Program.antt =====
-- `main` of src/main.rs before and after the serving. The command line, the address parser, the
-- sockets and the end of the web server are arguments.
use azoth_balancer.Prelude.{
  ℕ, Bool, false, List, Option, none, some, Text, codes, get_or, Result, if◌then◌else◌,
}
use azoth_balancer.Float.{Float}
use azoth_balancer.Limiter.{RateLimiter}
use azoth_balancer.Metrics.{Registry}
use azoth_balancer.Endpoint.{LoadBalancerError, config_error}
use azoth_balancer.Config.{Config, ConfigError}
use azoth_balancer.Config.Finalize.{FileRead, try_load_config}
use azoth_balancer.Balancer.{Client, LoadBalancer, new}
use azoth_balancer.Reload.{from_config_error}
use azoth_balancer.Main.{Signal, shutdown_signal, end_tasks}
use azoth_balancer.Shutdown.{TaskEnd, ShutdownResult}

-- How the start ends: with a panic, with an error that `main` returns, or with a server.
pub data Startup (F L A : Type 0) : Type 0 where
  panics : Startup F L A
  fails : LoadBalancerError → Startup F L A
  serves : LoadBalancer F L → A → Startup F L A

-- `Cli`, with the path that the command line has.
unfoldable pub config_arg : Option Text → Text
config_arg path = get_or path (codes "config.toml")

module _ {F L A : Type 0} (fl : Float F) (rl : RateLimiter L) (parse_addr : Text → Result Text A)
    (can_bind : A → Bool) (can_build : Client → Bool) (max_permits : ℕ) where
  -- `Server::bind` panics if it cannot bind the address.
  unfoldable pub bind : LoadBalancer F L → Result Text A → Startup F L A
  bind b (Result.err e) = fails (config_error e)
  bind b (Result.ok addr) = if can_bind addr then serves b addr else panics

  unfoldable pub create : Option (LoadBalancer F L) → Startup F L A
  create none = panics
  create (some b) = bind b (parse_addr b.bind_addr)

  unfoldable pub start_with :
      Text → ℕ → Registry → Result ConfigError (Option (Config F)) → Startup F L A
  start_with config_path now registry (Result.err e) = fails (from_config_error e)
  start_with config_path now registry (Result.ok cfg) =
      create (new fl rl can_build max_permits cfg config_path now registry)

  -- `main` up to the server
  unfoldable pub start_main :
      (read_to_string : Text → FileRead) (from_toml : Text → Result Text (Config F))
      → (path : Option Text) → ℕ
      → Registry
      → Startup F L A
  start_main read_to_string from_toml path now registry =
      start_with (config_arg path) now registry
        (try_load_config read_to_string from_toml (config_arg path))

-- `main` from the end of the server on: with the signals that came before, the result of the
-- server, which is only logged, and how the tasks end.
unfoldable pub end_main :
    List Signal
    → Result Text (Unit {0})
    → List TaskEnd
    → Result LoadBalancerError (Unit {0}) × ShutdownResult
end_main signals server tasks =
    (Result.ok tt, end_tasks (get_or (shutdown_signal signals) false) tasks)

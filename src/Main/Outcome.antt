-- ===== src/Main/Outcome.antt =====
-- What becomes of the start of the program.
use azoth_balancer.Prelude.{
  ◌<◌, ◌⊎◌, arith, ℕ, ◌≡◌, refl, Bool, true, false, [], Option, none, some, Text, get_or, All,
  Sat-value, Result, Result-cases, Bool-cases, inl, inr,
}
use azoth_balancer.Float.{Float}
use azoth_balancer.Limiter.{RateLimiter}
use azoth_balancer.Metrics.{Registry}
use azoth_balancer.Endpoint.{config_error}
use azoth_balancer.Config.{Config, ConfigError, BalancerConfig, sanitize, get_default_endpoints}
use azoth_balancer.Config.Finalize.{
  FileRead, try_load_config, finalize, default_config, default_balancer,
}
use azoth_balancer.Config.Finalize.Complete.{finalize-fails, finalize-error, finalize-IsComplete}
use azoth_balancer.Balancer.{Client, LoadBalancer, new}
use azoth_balancer.Balancer.Start.{
  Started, client_settings, can_start, new-Started, new-refused, new-panics,
}
use azoth_balancer.Reload.{from_config_error}
use azoth_balancer.Main.Program.{
  Startup, panics, fails, serves, config_arg, bind, create, start_with, start_main,
}

module _ {F L A : Type 0} (fl : Float F) (rl : RateLimiter L) (parse_addr : Text → Result Text A)
    (can_bind : A → Bool) (can_build : Client → Bool) (max_permits : ℕ) (config_path : Text)
    (now : ℕ) (registry : Registry) where
  -- The reason of every end of the start, with what is served.
  pub data Outcome (loaded : Result ConfigError (Option (Config F))) : Startup F L A → Type 0 where
    unreadable :
        (e : ConfigError) → loaded ≡ Result.err e → Outcome loaded (fails (from_config_error e))
    no_endpoint :
        (cfg : Option (Config F))
        → loaded ≡ Result.ok cfg
        → All
            (λ e. sanitize e ≡ none)
            (get_or
              (get_or (get_or cfg default_config).balancer default_balancer).endpoints
              get_default_endpoints)
        → Outcome loaded panics
    cannot_start :
        (cfg : Option (Config F)) (c : Config F) (balancer_cfg : BalancerConfig F)
        → loaded ≡ Result.ok cfg
        → finalize fl (get_or cfg default_config) ≡ Result.ok c
        → c.balancer ≡ some balancer_cfg
        → (can_build (client_settings balancer_cfg) ≡ false)
          ⊎ (max_permits < get_or balancer_cfg.max_concurrency 0)
        → Outcome loaded panics
    no_address :
        (cfg : Option (Config F)) (b : LoadBalancer F L) (e : Text)
        → loaded ≡ Result.ok cfg
        → new fl rl can_build max_permits cfg config_path now registry ≡ some b
        → parse_addr b.bind_addr ≡ Result.err e
        → Outcome loaded (fails (config_error e))
    not_bound :
        (cfg : Option (Config F)) (b : LoadBalancer F L) (addr : A)
        → loaded ≡ Result.ok cfg
        → new fl rl can_build max_permits cfg config_path now registry ≡ some b
        → parse_addr b.bind_addr ≡ Result.ok addr
        → can_bind addr ≡ false
        → Outcome loaded panics
    serving :
        (cfg : Option (Config F)) (c : Config F) (balancer_cfg : BalancerConfig F)
        (b : LoadBalancer F L) (addr : A)
        → loaded ≡ Result.ok cfg
        → finalize fl (get_or cfg default_config) ≡ Result.ok c
        → c.balancer ≡ some balancer_cfg
        → new fl rl can_build max_permits cfg config_path now registry ≡ some b
        → Started (get_or balancer_cfg.endpoints []) b
        → parse_addr b.bind_addr ≡ Result.ok addr
        → can_bind addr ≡ true
        → Outcome loaded (serves b addr)

  bind-Outcome :
      (cfg : Option (Config F)) (c : Config F) (balancer_cfg : BalancerConfig F)
      (b : LoadBalancer F L)
      → finalize fl (get_or cfg default_config) ≡ Result.ok c
      → c.balancer ≡ some balancer_cfg
      → new fl rl can_build max_permits cfg config_path now registry ≡ some b
      → Started (get_or balancer_cfg.endpoints []) b
      → Outcome
          (Result.ok cfg)
          (bind fl rl parse_addr can_bind can_build max_permits b (parse_addr b.bind_addr))
  unfolding bind
  bind-Outcome cfg c balancer_cfg b finalized given made started =
      elim (Result-cases (parse_addr b.bind_addr)) [
        | inr (e, bad) ↦ rw (bad, bind) (no_address cfg b e refl made bad)
        | inl (addr, parsed) ↦ elim (Bool-cases (can_bind addr)) [
          | inl free ↦
              rw (parsed, bind, free)
                (serving cfg c balancer_cfg b addr refl finalized given made started parsed free)
          | inr taken ↦ rw (parsed, bind, taken) (not_bound cfg b addr refl made parsed taken)
        ]
      ]

  create-Outcome :
      (cfg : Option (Config F)) (c : Config F) (balancer_cfg : BalancerConfig F)
      → finalize fl (get_or cfg default_config) ≡ Result.ok c
      → c.balancer ≡ some balancer_cfg
      → Outcome (Result.ok cfg) (
          create fl rl parse_addr can_bind can_build max_permits
            (new fl rl can_build max_permits cfg config_path now registry))
  unfolding create
  create-Outcome cfg c balancer_cfg finalized given =
      elim (Bool-cases (can_start can_build max_permits balancer_cfg)) [
        | inl ready ↦
            let (b, made, started) =
              Sat-value (new fl rl can_build max_permits cfg config_path now registry) (
                new-Started fl rl can_build max_permits cfg config_path now registry c balancer_cfg
                  finalized given ready) in
            rw (made, create) (bind-Outcome cfg c balancer_cfg b finalized given made started)
        | inr unready ↦
            rw
              (
                new-refused fl rl can_build max_permits cfg config_path now registry c balancer_cfg
                    finalized given unready,
                create,
              )
              (cannot_start cfg c balancer_cfg refl finalized given (ground (arith, unready)))
      ]

  start_with-Outcome :
      (loaded : Result ConfigError (Option (Config F)))
      → Outcome loaded (
          start_with fl rl parse_addr can_bind can_build max_permits config_path now registry
            loaded)
  unfolding start_with create
  start_with-Outcome (Result.err e) = unreadable e refl
  start_with-Outcome (Result.ok cfg) =
      elim (Result-cases (finalize fl (get_or cfg default_config))) [
        | inr (e, failed) ↦
            let none_left =
              (finalize-fails fl (get_or cfg default_config)).0
                (finalize-error fl (get_or cfg default_config) e failed) in
            rw
              (
                (new-panics fl rl can_build max_permits cfg config_path now registry).1
                    (inl none_left),
                create,
              )
              (no_endpoint cfg refl none_left)
        | inl (c, finalized) ↦
            let complete = finalize-IsComplete fl (get_or cfg default_config) c finalized in
            let (balancer_cfg, given, _) = Sat-value c.balancer complete.1 in
            create-Outcome cfg c balancer_cfg finalized given
      ]

module _ {F L A : Type 0} (fl : Float F) (rl : RateLimiter L) (parse_addr : Text → Result Text A)
    (can_bind : A → Bool) (can_build : Client → Bool) (max_permits : ℕ)
    (read_to_string : Text → FileRead) (from_toml : Text → Result Text (Config F))
    (path : Option Text) (now : ℕ) (registry : Registry) where
  -- The start of the program ends in one of six ways: it fails with the error of the configuration
  -- file, panics since no configured endpoint passes the checks by itself, panics since the HTTP
  -- client cannot be built or the concurrency is more than a semaphore can hold, fails with the
  -- error of the address that the balancer has, panics since that address cannot be bound, or
  -- serves on that address a balancer that has the invariant and the endpoints of the finalized
  -- configuration, all of them available.
  pub start_main-Outcome :
      Outcome fl rl parse_addr can_bind can_build max_permits
        (config_arg path)
        now
        registry
        (try_load_config read_to_string from_toml (config_arg path))
        (start_main fl rl parse_addr can_bind can_build max_permits read_to_string from_toml path
          now registry)
  unfolding start_main
  start_main-Outcome =
      start_with-Outcome fl rl parse_addr can_bind can_build max_permits (config_arg path) now
        registry (try_load_config read_to_string from_toml (config_arg path))

-- ===== src/Shutdown.antt =====
-- src/shutdown.rs: the end of the background tasks. How each task ends is an argument, in the order
-- in which `join_next` returns them, with the time since the signal.
pub mod Ending
use azoth_balancer.Prelude.{ℕ, List, [], ◌∷◌, Text, ltb, Result, if◌then◌else◌}

pub data ShutdownError : Type 0 where
  panic : Text → ShutdownError
  timeout : ℕ → ShutdownError

-- A task returns, fails with a `JoinError`, or goes on running.
pub data TaskEnd : Type 0 where
  returned : (after : ℕ) → TaskEnd
  failed : (after : ℕ) → Text → TaskEnd
  running : TaskEnd

-- The result, with the tasks that are aborted.
pub record ShutdownResult : Type 0 where
  pub result : Result ShutdownError (Unit {0})
  pub aborted : List TaskEnd

-- `join_all_logic` under the timeout.
unfoldable pub join_all : ℕ → List TaskEnd → ShutdownResult
join_all limit [] = record { result = Result.ok tt; aborted = [] }
join_all limit (returned after ∷ tasks) =
    let rest = join_all limit tasks in
    if ltb limit after
    then record { result = Result.err (timeout limit); aborted = returned after ∷ tasks }
    else rest
join_all limit (failed after e ∷ tasks) =
    if ltb limit after
    then record { result = Result.err (timeout limit); aborted = failed after e ∷ tasks }
    else record { result = Result.err (panic e); aborted = tasks }
join_all limit (running ∷ tasks) = record {
  result = Result.err (timeout limit);
  aborted = running ∷ tasks;
}

unfoldable pub graceful_shutdown : List TaskEnd → ℕ → ShutdownResult
graceful_shutdown tasks limit = join_all limit tasks

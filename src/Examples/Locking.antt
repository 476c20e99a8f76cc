-- ===== src/Examples/Locking.antt =====
-- A policy for the locks, and threads over them.
use azoth_balancer.Prelude.{
  ℕ, zero, suc, ◌+◌, ◌≡◌, ◌≢◌, refl, All, Bool, true, false, ◌&&◌, List, [], ◌∷◌, ◌++◌, map, some,
  none, nth, length, is_empty, Bool-cases, inl, inr, text_eq, arith,
}
use azoth_balancer.Locks.{
  Mode, read, write, Section, select, mark, reload, calls, select_calls, mark_calls, reload_calls,
}
use azoth_balancer.Locks.Threads.{
  Policy, ParkingLot, Thread, Ended, perform_at, interleave, spawn, calls_left,
}
use azoth_balancer.Locks.Progress.{sections-end}
use azoth_balancer.Locks.Recursive.{status_thread, fatal, status-deadlocks}
use azoth_balancer.Examples.{url_a, url_b}

abbrev no_writer : List Mode → Bool
no_writer [] = true
no_writer (read ∷ ms) = no_writer ms
no_writer (write ∷ ms) = false

-- Writers first.
abbrev lets_in : (holders waiting : List Mode) → Mode → Bool
lets_in holders waiting write = is_empty holders
lets_in holders waiting read = no_writer holders && no_writer waiting

abbrev writers_first : Policy
writers_first = record { lets_in = lets_in }

writer_in : (ms : List Mode) → no_writer ms ≡ false → (k : ℕ) × (nth k ms ≡ some write)
writer_in [] h = absurd (cc h)
writer_in (read ∷ ms) h = let (k, at) = writer_in ms h in (suc k, at)
writer_in (write ∷ ms) h = (0, refl)

serves :
    (m : Mode) (ms : List Mode)
    → (k : ℕ) × (m' : Mode) × (nth k (m ∷ ms) ≡ some m') × (lets_in [] (m ∷ ms) m' ≡ true)
serves write ms = (0, write, refl, refl)
serves read ms = elim (Bool-cases (no_writer ms)) [
  | inl readers ↦ (0, read, refl, readers)
  | inr writer ↦ let (k, at) = writer_in ms writer in (suc k, write, at, refl)
]

writer_waits : (ms : List Mode) (k : ℕ) → nth k ms ≡ some write → no_writer ms ≡ false
writer_waits [] k e = absurd (cc e)
writer_waits (read ∷ ms) zero e = absurd (cc e)
writer_waits (read ∷ ms) (suc k) e = writer_waits ms k e
writer_waits (write ∷ ms) k e = refl

writers_first-ParkingLot : ParkingLot writers_first
writers_first-ParkingLot = record {
  serves = serves;
  excludes = λ h hs ms. refl;
  queues = λ hs ms k at. ground (arith, writer_waits ms k at);
}

-- A request that selects an endpoint and marks it, beside a reload.
abbrev tasks : List (List Section)
tasks = (select (url_a ∷ url_b ∷ []) ∷ mark true ∷ []) ∷ (reload 3 true 1 ∷ []) ∷ []

-- The request holds the endpoints and the reload has read its path.
abbrev begun : List ℕ
begun = 0 ∷ 1 ∷ 0 ∷ 1 ∷ 1 ∷ []

sections-end_example :
    (more : List ℕ) × (us : List Thread) × (interleave writers_first
        (begun ++ more)
        (map spawn tasks)
      ≡ some us)
    × All Ended us
    × (length begun + length more ≡ calls_left (map spawn tasks))
unfolding interleave perform_at calls select_calls mark_calls reload_calls text_eq
sections-end_example = sections-end writers_first writers_first-ParkingLot tasks begun _ refl

status-deadlocks_example :
    (ts : List Thread) × (interleave writers_first fatal
        (status_thread ∷ spawn (mark true ∷ []) ∷ [])
      ≡ some ts)
    × ((i : ℕ) → perform_at writers_first i ts ≡ none)
    × All (λ t. t.rest ≢ []) ts
unfolding calls mark_calls
status-deadlocks_example =
    status-deadlocks writers_first writers_first-ParkingLot (mark true ∷ []) _ refl

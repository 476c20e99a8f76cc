-- ===== src/Locks/Threads.antt =====
-- Threads that run sections of the balancer over its locks, interleaved in any order. Which of the
-- threads that ask for a lock is let in is decided by the crate parking_lot, an argument.
use azoth_balancer.Prelude.{
  ℕ, ◌+◌, ◌≡◌, Bool, true, false, ◌&&◌, List, [], ◌∷◌, ◌++◌, Option, none, some, Text, text_eq,
  ◌==◌, if◌then◌else◌, nth, set_nth, length,
}
use azoth_balancer.Locks.{
  Lock, endpoints, rate_limiters, client, health_check_interval_secs, health_check_timeout_secs,
  base_cooldown_secs, max_cooldown_secs, max_batch_size, latency_smoothing_factor, config_path,
  connect_timeout_ms, timeout_secs, pool_idle_timeout_secs, pool_max_idle_per_host, limiter, Mode,
  read, write, Call, ask, take, release, Section, calls,
}
use azoth_balancer.Prelude.{◌>>=◌}

-- Whether a thread that asks is let in: the modes of the guards that are held, and those that are
-- asked for, its own among them.
pub record Policy : Type 0 where
  pub lets_in : (holders waiting : List Mode) → Mode → Bool

-- Documented of `parking_lot::RwLock` and `Mutex`.
pub record ParkingLot (p : Policy) : Type 0 where
  -- a free lock lets one of those in that ask for it
  pub serves :
      (m : Mode) (ms : List Mode)
      → (k : ℕ) × (m' : Mode) × (nth k (m ∷ ms) ≡ some m') × (p.lets_in [] (m ∷ ms) m' ≡ true)
  -- a writer waits for all guards to be dropped
  pub excludes : (h : Mode) (hs ms : List Mode) → p.lets_in (h ∷ hs) ms write ≡ false
  -- a reader waits while a writer does, also where other readers hold the lock
  pub queues : (hs ms : List Mode) (k : ℕ) → nth k ms ≡ some write → p.lets_in hs ms read ≡ false

-- The place of a lock in the order of declaration.
unfoldable pub rank : Lock → ℕ
rank endpoints = 0
rank rate_limiters = 1
rank client = 2
rank health_check_interval_secs = 3
rank health_check_timeout_secs = 4
rank base_cooldown_secs = 5
rank max_cooldown_secs = 6
rank max_batch_size = 7
rank latency_smoothing_factor = 8
rank config_path = 9
rank connect_timeout_ms = 10
rank timeout_secs = 11
rank pool_idle_timeout_secs = 12
rank pool_max_idle_per_host = 13
rank (limiter url) = 14

unfoldable pub url_of : Lock → Text
url_of (limiter url) = url
url_of l = []

unfoldable pub lock_eq : Lock → Lock → Bool
unfolding rank url_of
lock_eq a b = rank a == rank b && text_eq (url_of a) (url_of b)

-- A thread by the guards that it holds, newest first, and the calls that are left to it.
pub record Thread : Type 0 where
  pub held : List (Lock × Mode)
  pub rest : List Call

abbrev pub all_calls : List Section → List Call
all_calls [] = []
all_calls (s ∷ ss) = calls s ++ all_calls ss

abbrev pub spawn : List Section → Thread
spawn ss = record { held = []; rest = all_calls ss }

unfoldable pub modes_of : Lock → List (Lock × Mode) → List Mode
modes_of l [] = []
modes_of l ((l', m) ∷ held) = if lock_eq l' l then m ∷ modes_of l held else modes_of l held

unfoldable pub holders : Lock → List Thread → List Mode
unfolding modes_of lock_eq
holders l [] = []
holders l (t ∷ ts) = modes_of l t.held ++ holders l ts

unfoldable pub asks_for : Lock → List Call → List Mode
asks_for l (take m l' ∷ rest) = if lock_eq l' l then m ∷ [] else []
asks_for l (ask m l' ∷ rest) = []
asks_for l (release l' ∷ rest) = []
asks_for l [] = []

-- Those that have asked and are not let in yet.
unfoldable pub waiting : Lock → List Thread → List Mode
unfolding asks_for lock_eq
waiting l [] = []
waiting l (t ∷ ts) = asks_for l t.rest ++ waiting l ts

unfoldable pub forget : Lock → List (Lock × Mode) → List (Lock × Mode)
forget l [] = []
forget l ((l', m) ∷ held) = if lock_eq l' l then held else (l', m) ∷ forget l held

-- One call of a thread; `none` while it waits, and after its last call.
unfoldable pub perform : Policy → List Thread → List (Lock × Mode) → List Call → Option Thread
unfolding holders waiting forget
perform p ts held [] = none
perform p ts held (ask m l ∷ rest) = some (record { held = held; rest = rest })
perform p ts held (take m l ∷ rest) =
    if p.lets_in (holders l ts) (waiting l ts) m
    then some (record { held = (l, m) ∷ held; rest = rest })
    else none
perform p ts held (release l ∷ rest) = some (record { held = forget l held; rest = rest })

unfoldable pub perform_at : Policy → ℕ → List Thread → Option (List Thread)
unfolding perform
perform_at p i ts = do t ← nth i ts; t' ← perform p ts t.held t.rest; some (set_nth i t' ts)

-- The threads make their calls in the order of a schedule.
unfoldable pub interleave : Policy → List ℕ → List Thread → Option (List Thread)
interleave p [] ts = some ts
interleave p (i ∷ schedule) ts = do ts' ← perform_at p i ts; interleave p schedule ts'

-- The calls that are left to the threads.
abbrev pub calls_left : List Thread → ℕ
calls_left [] = 0
calls_left (t ∷ ts) = length t.rest + calls_left ts

-- Every thread has made all its calls and holds no guard.
abbrev pub Ended : Thread → Type 0
Ended t = (t.rest ≡ []) × (t.held ≡ [])

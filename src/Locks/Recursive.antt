-- ===== src/Locks/Recursive.antt =====
-- The status report takes a second guard of the endpoints while it holds one.
use azoth_balancer.Prelude.{
  ℕ, zero, suc, ◌≡◌, ◌≢◌, refl, All, true, List, [], ◌∷◌, ◌++◌, some, none, nth, text_eq,
}
use azoth_balancer.Locks.{
  endpoints, Mode, read, write, Call, ask, take, release, Section, status_calls,
}
use azoth_balancer.Locks.Threads.{
  Policy, ParkingLot, Thread, holders, waiting, perform, perform_at, interleave, spawn, all_calls,
}

abbrev pub status_thread : Thread
unfolding status_calls
status_thread = record { held = []; rest = status_calls }

abbrev zeros : ℕ → List ℕ
zeros zero = []
zeros (suc n) = 0 ∷ zeros n

-- The report up to its second guard, then a writer that asks, then the report that asks.
abbrev pub fatal : List ℕ
fatal = zeros 35 ++ 1 ∷ 0 ∷ []

only_read : (k : ℕ) (m : Mode) → nth k (read ∷ []) ≡ some m → m ≡ read
only_read zero m e = cc e
only_read (suc k) m e = absurd (cc e)

module _ (p : Policy) (lot : ParkingLot p) where
  -- A reader that is alone is let in.
  alone : p.lets_in [] (read ∷ []) read ≡ true
  alone = let (k, m, chosen, granted) = lot.serves read [] in rw (only_read k m chosen) at granted

  abbrev locked : List Call → List Thread
  locked after =
      record {
        held = (endpoints, read) ∷ [];
        rest = take read endpoints ∷ release endpoints ∷ release endpoints ∷ [];
      }
      ∷ record { held = []; rest = take write endpoints ∷ after }
      ∷ []

  reach-locked :
      (w : Thread) (after : List Call)
      → w.rest ≡ ask write endpoints ∷ take write endpoints ∷ after
      → w.held ≡ []
      → interleave p fatal (status_thread ∷ w ∷ []) ≡ some (locked after)
  unfolding interleave status_calls perform_at text_eq
  reach-locked w after e h = simp (alone, e, h, interleave, perform_at, perform, holders, waiting)

  locked-stuck : (after : List Call) (i : ℕ) → perform_at p i (locked after) ≡ none
  unfolding perform_at perform text_eq
  locked-stuck after zero = rw (lot.queues (read ∷ []) (read ∷ write ∷ []) 1 refl)
  locked-stuck after (suc zero) = rw (lot.excludes read [] (read ∷ write ∷ []))
  locked-stuck after (suc (suc i)) = refl

  -- Over locks that keep what parking_lot documents, the status report and any task that next
  -- writes the endpoints, as the marks and the end of a round of health checks do, can run into a
  -- deadlock: the report reads the endpoints, the task asks to write them, and the report asks for
  -- its second guard. From there on neither makes a call, and both have calls left.
  pub status-deadlocks :
      (tasks : List Section) (after : List Call)
      → all_calls tasks ≡ ask write endpoints ∷ take write endpoints ∷ after
      → (ts : List Thread) × (interleave p fatal (status_thread ∷ spawn tasks ∷ []) ≡ some ts)
        × ((i : ℕ) → perform_at p i ts ≡ none)
        × All (λ t. t.rest ≢ []) ts
  status-deadlocks tasks after e = (
    locked after,
    reach-locked (spawn tasks) after e refl,
    locked-stuck after,
    ((λ q. cc q), ((λ q. cc q), tt)),
  )

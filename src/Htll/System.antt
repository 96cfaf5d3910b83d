-- ===== src/Htll/System.antt =====
-- `n` threads over one lock, interleaved in any order, with the wake-ups of the futex.
use htll.Common.{ℕ, ◌<◌, ◌≡◌, ◌≢◌, Bool, true, ◌||◌, none, some, update}
use htll.Htll.Mutex.{Mutex, mutex_create}
use htll.Htll.Thread.{Pc, idle, wake, Input, move, asleep}

-- A thread with an index from `n` on is never picked.
pub record System : Type 0 where
  pub mem : Mutex
  pub pc : ℕ → Pc

-- `reorder` says whether threads lock inside of segments too, with the timed wait.
pub data Step (n : ℕ) (reorder : Bool) (s : System) : System → Type 0 where
  -- Thread `i` moves by itself.
  run :
      (x : Input) (i : ℕ)
      → i < n
      → s.pc i ≢ wake
      → (x.outside || reorder) ≡ true
      → Step n reorder s
          (record { mem = (move x s.mem (s.pc i)).0; pc = update s.pc i (move x s.mem (s.pc i)).1 })
  -- FUTEX_WAKE with value 1 wakes one of the threads that sleep on the lock.
  wake_one :
      (i j : ℕ) {q : Pc}
      → i < n
      → j < n
      → s.pc i ≡ wake
      → asleep (s.pc j) ≡ some q
      → Step n reorder s (record { mem = s.mem; pc = update (update s.pc i idle) j q })
  -- It wakes nobody only if nobody sleeps.
  wake_none :
      (i : ℕ)
      → i < n
      → s.pc i ≡ wake
      → ((j : ℕ) → j < n → asleep (s.pc j) ≡ none)
      → Step n reorder s (record { mem = s.mem; pc = update s.pc i idle })

abbrev pub init : System
init = record { mem = mutex_create; pc = λ _. idle }

pub data Reach (n : ℕ) (reorder : Bool) : System → Type 0 where
  start : Reach n reorder init
  later : {s t : System} → Reach n reorder s → Step n reorder s t → Reach n reorder t

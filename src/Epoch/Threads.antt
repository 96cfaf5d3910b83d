-- ===== src/Epoch/Threads.antt =====
-- `n` threads over one lock of litl/src/htll.c, each with its own segments, interleaved in any
-- order: `segment_start` and `segment_end`, the lock, and the wake-ups of the futex.
use htll.Common.{ℕ, ◌<◌, ◌≡◌, ◌≢◌, Bool, true, false, none, some, ℤ, ok, update}
use htll.Htll.Mutex.{Mutex, mutex_create}
use htll.Htll.Thread.{Pc, idle, held, wake, asleep}
use htll.Segment.State.{Local}
use htll.Segment.Ops.{segment_start, segment_end}
use htll.Epoch.Lock.{local_move, woken}

-- A thread with an index from `n` on is never picked.
pub record Threads : Type 0 where
  pub mem : Mutex
  pub pc : ℕ → Pc
  pub local : ℕ → Local

-- The program runs between the calls of the lock, with the lock or without it.
abbrev pub between_calls : Pc → Bool
between_calls idle = true
between_calls (held _) = true
between_calls _ = false

-- Each step is one that succeeds: an access outside of an array has none.
pub data Step (n : ℕ) (s : Threads) : Threads → Type 0 where
  starts :
      (i : ℕ) (id : ℤ) (now : ℕ) {r : ℤ × Local}
      → i < n
      → between_calls (s.pc i) ≡ true
      → segment_start id now (s.local i) ≡ ok r
      → Step n s (record s { local = update s.local i r.1 })
  ends :
      (i : ℕ) (id : ℤ) (required now : ℕ) {r : ℤ × Local}
      → i < n
      → between_calls (s.pc i) ≡ true
      → segment_end id required now (s.local i) ≡ ok r
      → Step n s (record s { local = update s.local i r.1 })
  runs :
      (try : Bool) (now i : ℕ) {r : Local × Mutex × Pc}
      → i < n
      → s.pc i ≢ wake
      → local_move try now s.mem (s.local i) (s.pc i) ≡ ok r
      → Step n s (record { mem = r.1; pc = update s.pc i r.2; local = update s.local i r.0 })
  -- FUTEX_WAKE with value 1 wakes one of the threads that sleep on the lock.
  wake_one :
      (i j : ℕ) {q : Pc} {r : Local × Pc}
      → i < n
      → j < n
      → s.pc i ≡ wake
      → asleep (s.pc j) ≡ some q
      → woken (s.local j) (s.pc j) ≡ ok r
      → Step n s (record {
        mem = s.mem;
        pc = update (update s.pc i idle) j r.1;
        local = update s.local j r.0;
      })
  wake_none :
      (i : ℕ)
      → i < n
      → s.pc i ≡ wake
      → ((j : ℕ) → j < n → asleep (s.pc j) ≡ none)
      → Step n s (record s { pc = update s.pc i idle })

-- All threads have the given state when they start.
abbrev pub init : Local → Threads
init t = record { mem = mutex_create; pc = λ _. idle; local = λ _. t }

pub data Reach (n : ℕ) (t : Local) : Threads → Type 0 where
  start : Reach n t (init t)
  later : {s s' : Threads} → Reach n t s → Step n s s' → Reach n t s'

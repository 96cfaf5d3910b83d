-- ===== src/Concurrent/Program.antt =====
-- Threads of a program over the whole of litl/src/interpose.c and litl/src/htll.c: each looks the
-- lock of a pthread mutex up in the table, or creates it, and locks and unlocks it.
use htll.Common.{ℕ, ◌<◌, ◌≡◌, Bool, true, false, none, some, update}
use htll.Htll.Mutex.{Mutex}
use htll.Htll.Thread.{Pc, idle, held, release, Input, move}
use htll.Concurrent.Slots.{System, got, stored}
use htll.Concurrent.Slots

-- What a thread does with a mutex beside its calls of the table's functions.
pub data Work : Type 0 where
  apart : Work
  missed : (mutex : ℕ) → Work  -- in ht_lock_get, behind a lookup that returned NULL
  using : (mutex impl : ℕ) → Pc → Work  -- in a function of the lock, or with the lock held

-- The locks stand at their addresses.
pub record Program : Type 0 where
  pub table : System
  pub locks : ℕ → Mutex
  pub work : ℕ → Work

abbrev pub is_held : Pc → Bool
is_held (held _) = true
is_held _ = false

-- The calls of the table's functions are its own steps; nothing of a thread's work keeps them back
-- here, so that there are more interleavings than in the program. A lock is freed by a new lookup.
-- An unlock of a mutex that the thread does not hold is not a step.
pub data Step (owner : ℕ → ℕ) (n : ℕ) (s : Program) : Program → Type 0 where
  table_step : {t : System} → Slots.Step owner s.table t → Step owner n s (record s { table = t })
  -- pthread_mutex_lock or pthread_mutex_trylock, with the lock that the lookup has found.
  finds :
      (a m v : ℕ)
      → a < n
      → s.table.call a ≡ got m (some v)
      → s.work a ≡ apart
      → Step owner n s (record s { work = update s.work a (using m v idle) })
  misses :
      (a m : ℕ)
      → a < n
      → s.table.call a ≡ got m none
      → s.work a ≡ apart
      → Step owner n s (record s { work = update s.work a (missed m) })
  creates :
      (a m v i : ℕ)
      → a < n
      → s.table.call a ≡ stored m v i
      → s.work a ≡ missed m
      → Step owner n s (record s { work = update s.work a (using m v idle) })
  locks_move :
      (x : Input) (a : ℕ) {m v : ℕ} {q : Pc}
      → a < n
      → s.work a ≡ using m v q
      → is_held q ≡ false
      → Step owner n s (record s {
        locks = update s.locks v (move x (s.locks v) q).0;
        work = update s.work a (using m v (move x (s.locks v) q).1);
      })
  -- pthread_mutex_unlock, with the lock that its lookup has found.
  unlocks :
      (a v' : ℕ) {m v : ℕ} {w : Bool}
      → a < n
      → s.table.call a ≡ got m (some v')
      → s.work a ≡ using m v (held w)
      → Step owner n s (record s { work = update s.work a (using m v' release) })
  leaves :
      (a : ℕ) {m v : ℕ}
      → a < n
      → s.work a ≡ using m v idle
      → Step owner n s (record s { work = update s.work a apart })

pub data Steps (owner : ℕ → ℕ) (n : ℕ) (s : Program) : Program → Type 0 where
  here : Steps owner n s s
  next : {t u : Program} → Steps owner n s t → Step owner n t u → Steps owner n s u

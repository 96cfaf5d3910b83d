-- ===== src/Cond/System.antt =====
-- Threads that start and end segments, lock, unlock, wait on a condition variable and notify it,
-- interleaved in any order: litl/src/htll.c, lines 62-144, 177-292 and 318-377 together.
use htll.Common.{ℕ, ◌<◌, ◌≡◌, Bool, true, false, Option, ℤ, ok, update}
use htll.Htll.Mutex.{Mutex, mutex_create}
use htll.Htll.Thread.{Pc, idle, held, Input}
use htll.Segment.State.{Local}
use htll.Segment.Ops.{segment_start, segment_end}
use htll.Epoch.Lock.{local_move}
use htll.Epoch.Threads.{between_calls}
use htll.Cond.Ops.{Cond, cond_signal, cond_broadcast}
use htll.Cond.Timeout.{Timespec, Timeval}
use htll.Cond.Wait.{Shared, Point, enter, returned, wait_move}

-- What a thread does: it is in a function of the lock, or in a wait with its deadline.
pub data Activity : Type 0 where
  locking : Pc → Activity
  waiting : Option Timespec → Point → Activity

pub record System : Type 0 where
  pub mem : Mutex
  pub cond : Cond
  pub local : ℕ → Local
  pub activity : ℕ → Activity

-- What thread `i` reads and writes, and the system behind that.
abbrev pub shared : System → ℕ → Shared
shared s i = record { mem = s.mem; cond = s.cond; local = s.local i }

abbrev pub with_shared : System → ℕ → Shared → Activity → System
with_shared s i v a = record {
  mem = v.mem;
  cond = v.cond;
  local = update s.local i v.local;
  activity = update s.activity i a;
}

-- The lock is at the address `m`. A sleeper may return from the futex at any time, so that a
-- wake-up needs no step of its own. Between its calls of the lock and of the waits a thread starts
-- and ends segments. Each step is one that succeeds: an access outside of an array has none.
pub data Step (n m : ℕ) (s : System) : System → Type 0 where
  starts :
      (i : ℕ) (id : ℤ) (now : ℕ) {p : Pc} {r : ℤ × Local}
      → i < n
      → s.activity i ≡ locking p
      → between_calls p ≡ true
      → segment_start id now (s.local i) ≡ ok r
      → Step n m s (record s { local = update s.local i r.1 })
  ends :
      (i : ℕ) (id : ℤ) (required now : ℕ) {p : Pc} {r : ℤ × Local}
      → i < n
      → s.activity i ≡ locking p
      → between_calls p ≡ true
      → segment_end id required now (s.local i) ≡ ok r
      → Step n m s (record s { local = update s.local i r.1 })
  locks :
      (try : Bool) (now i : ℕ) {p : Pc} {r : Local × Mutex × Pc}
      → i < n
      → s.activity i ≡ locking p
      → local_move try now s.mem (s.local i) p ≡ ok r
      → Step n m s (record s {
        mem = r.1;
        local = update s.local i r.0;
        activity = update s.activity i (locking r.2);
      })
  -- A thread that holds the lock calls a wait.
  calls :
      (d : Option Timespec) (i : ℕ) {w : Bool}
      → i < n
      → s.activity i ≡ locking (held w)
      → Step n m s (record s { activity = update s.activity i (waiting d enter) })
  waits :
      (x : Input) (tv : Timeval) (i : ℕ) {d : Option Timespec} {p p' : Point} {v : Shared}
      → i < n
      → s.activity i ≡ waiting d p
      → wait_move m d x tv (shared s i) p ≡ ok (v, p')
      → Step n m s (with_shared s i v (waiting d p'))
  -- Its wait has returned, with the lock.
  returns :
      (i ret : ℕ) {d : Option Timespec}
      → i < n
      → s.activity i ≡ waiting d (returned ret)
      → Step n m s (record s { activity = update s.activity i (locking (held false)) })
  signals : Step n m s (record s { cond = (cond_signal s.cond).0 })
  broadcasts : Step n m s (record s { cond = (cond_broadcast s.cond).0 })

-- All threads have the given segments when they start.
abbrev pub init : Local → System
init t = record {
  mem = mutex_create;
  cond = record { m = 0; seq = 0 };
  local = λ _. t;
  activity = λ _. locking idle;
}

pub data Reach (n m : ℕ) (t : Local) : System → Type 0 where
  start : Reach n m t (init t)
  later : {s s' : System} → Reach n m t s → Step n m s s' → Reach n m t s'

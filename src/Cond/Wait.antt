-- ===== src/Cond/Wait.antt =====
-- `upmutex_cond1_wait` and `htll_cond_timedwait` of litl/src/htll.c (lines 203-292), one access to
-- the shared state at a time.
use htll.Common.{
  ℕ, ◌%◌, Bool, ◌==◌, if◌then◌else◌, Option, none, some, is_negative, Outcome, ok, ◌>>=◌,
}
use htll.Htll.Mutex.{Mutex, swap_uint32}
use htll.Htll.Thread.{Pc, idle, release, move, Input}
use htll.Segment.State.{Local, segment_at, put_segment}
use htll.Cond.Ops.{Cond}
use htll.Cond.Timeout.{Timespec, Timeval, relative}

-- What a waiting thread reads and writes: the lock, the condition variable, and its own segments.
pub record Shared : Type 0 where
  pub mem : Mutex
  pub cond : Cond
  pub local : Local

-- Where a thread in a wait stands. `seq` is the local read at the start, `ret` the result.
pub data Point : Type 0 where
  enter : Point  -- line 205 or 235
  compare_m : (seq : ℕ) → Point  -- the test `c->m != m`
  test_m : (seq : ℕ) → Point  -- the test `c->m`
  bind_m : (seq : ℕ) → Point  -- the compare-and-swap
  recheck_m : (seq : ℕ) → Point  -- the test of line 213 or 243
  unlocking : (seq : ℕ) → Pc → Point  -- in `htll_mutex_unlock`
  clock : (seq : ℕ) → Point  -- lines 252-266
  sleep : (seq : ℕ) → Point  -- the call of the wait on `seq`
  sleeping : Point  -- asleep in it
  clock_again : Point  -- lines 270-280
  swap : (ret : ℕ) → Point  -- the exchange of the loop
  nap : (ret : ℕ) → Point  -- its call of the timed wait
  napping : (ret : ℕ) → Point  -- asleep in that
  mark : (ret : ℕ) → Point  -- has_waiter = 1
  returned : (ret : ℕ) → Point

abbrev pub einval : ℕ
einval = 22

abbrev pub etimedout : ℕ
etimedout = 110

-- ETIMEDOUT if the time that is left is negative.
abbrev pub expired : Timespec → Timeval → Bool
expired ts tv = is_negative (relative ts tv).0

-- From the wait on `seq` a thread without a deadline goes to the loop at once.
abbrev pub awake : Option Timespec → Point
awake none = swap 0
awake (some ts) = clock_again

abbrev pub unlocked : Option Timespec → ℕ → Point
unlocked none seq = sleep seq
unlocked (some ts) seq = clock seq

-- The call of `htll_mutex_unlock` has ended when its thread is `idle`.
abbrev pub go_on : Option Timespec → ℕ → Pc → Point
go_on d seq idle = unlocked d seq
go_on d seq q = unlocking seq q

-- Lines 252-266 and 270-280. Without a deadline neither is reached.
abbrev pub before_sleep : Option Timespec → Timeval → ℕ → Point
before_sleep none tv seq = sleep seq
before_sleep (some ts) tv seq = if expired ts tv then swap etimedout else sleep seq

abbrev pub after_sleep : Option Timespec → Timeval → Point
after_sleep none tv = swap 0
after_sleep (some ts) tv = swap (if expired ts tv then etimedout else 0)

-- One move of a wait on the lock at the address `m`, with the deadline of the timed one. A thread
-- in a futex wait that is moved has returned from it, by a wake-up, its timeout or for no reason.
-- The current segment is read at the call of the timed wait, and written behind it. A window that
-- the system call refuses, from 10^9 on, is a sleep that ends at once.
unfoldable pub wait_move :
    ℕ → Option Timespec → Input → Timeval → Shared → Point → Outcome (Shared × Point)
wait_move m d x tv s enter = ok (s, compare_m s.cond.seq)
wait_move m d x tv s (compare_m seq) =
    ok (s, if s.cond.m == m then unlocking seq release else test_m seq)
wait_move m d x tv s (test_m seq) = ok (s, if s.cond.m == 0 then bind_m seq else returned einval)
wait_move m d x tv s (bind_m seq) =
    ok (if s.cond.m == 0 then record s { cond = record s.cond { m = m } } else s, recheck_m seq)
wait_move m d x tv s (recheck_m seq) =
    ok (s, if s.cond.m == m then unlocking seq release else returned einval)
wait_move m d x tv s (unlocking seq q) =
    let (mem, q') = move x s.mem q in ok (record s { mem = mem }, go_on d seq q')
wait_move m d x tv s (clock seq) = ok (s, before_sleep d tv seq)
wait_move m d x tv s (sleep seq) = ok (s, if s.cond.seq == seq then sleeping else awake d)
wait_move m d x tv s sleeping = ok (s, awake d)
wait_move m d x tv s clock_again = ok (s, after_sleep d tv)
wait_move m d x tv s (swap ret) =
    let (old, mem) = swap_uint32 s.mem 257 in
    ok (record s { mem = mem }, if old % 2 == 0 then returned ret else nap ret)
wait_move m d x tv s (nap ret) = segment_at s.local s.local.cur_segment_id >>= λ g.
    ok (s, if s.mem.u == 257 then napping ret else mark ret)
wait_move m d x tv s (napping ret) = ok (s, mark ret)
wait_move m d x tv s (mark ret) = segment_at s.local s.local.cur_segment_id >>= λ g.
    put_segment s.local s.local.cur_segment_id (record g { has_waiter = 1 }) >>= λ t.
    ok (record s { local = t }, swap ret)
wait_move m d x tv s (returned ret) = ok (s, returned ret)

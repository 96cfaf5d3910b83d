-- ===== src/Cond/Outside.antt =====
-- The loop that takes the lock again behind a wait in litl/src/htll.c, outside of all segments.
use htll.Common.{ℕ, ◌%◌, ◌≡◌, Option, fault, out_of_bounds, ◌>>=◌, arith}
use htll.Htll.Thread.{Input}
use htll.Segment.State.{minus_one}
use htll.Cond.Timeout.{Timespec, Timeval}
use htll.Cond.Wait.{Shared, swap, wait_move}

-- A waiter outside of all segments whose exchange finds the lock taken goes on to read
-- `segment[-1]`, in the timed wait and in the untimed one.
pub wait_outside :
    (m ret : ℕ) (d : Option Timespec) (x : Input) (tv : Timeval) (s : Shared)
    → s.mem.u % 2 ≡ 1
    → s.local.cur_segment_id ≡ minus_one
    → (wait_move m d x tv s (swap ret) >>= λ r. wait_move m d x tv r.0 r.1) ≡ fault out_of_bounds
unfolding wait_move
wait_outside m ret d x tv s taken outside = ground arith

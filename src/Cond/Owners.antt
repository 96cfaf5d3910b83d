-- ===== src/Cond/Owners.antt =====
-- Who holds the lock around a wait in litl/src/htll.c.
use htll.Common.{ℕ, ◌+◌, ◌≤◌, ◌≡◌, Option, none, some, Outcome, ok, fault, out_of_bounds, arith}
use htll.Htll.Mutex.{locked_of, IsWord}
use htll.Htll.Thread.{Pc, move, Input}
use htll.Htll.Exclusion.{owns, move-owns}
use htll.Cond.Timeout.{Timespec, Timeval}
use htll.Cond.Wait.{
  Shared, Point, enter, compare_m, test_m, bind_m, recheck_m, unlocking, clock, sleep, sleeping,
  clock_again, returned, wait_move, go_on,
}

-- The caller holds the lock until its unlock has freed it, and again when the wait has returned,
-- with EINVAL too.
abbrev pub wait_owns : Point → ℕ
wait_owns enter = 1
wait_owns (compare_m _) = 1
wait_owns (test_m _) = 1
wait_owns (bind_m _) = 1
wait_owns (recheck_m _) = 1
wait_owns (unlocking _ q) = owns q
wait_owns (returned _) = 1
wait_owns _ = 0

go_on-owns : (d : Option Timespec) (seq : ℕ) (q : Pc) → wait_owns (go_on d seq q) ≡ owns q
go_on-owns none seq q = ground arith
go_on-owns (some ts) seq q = ground arith

-- What one move keeps: the word of the lock is two flags, and the byte `locked` changes exactly as
-- the ownership of the thread that moves.
unfoldable pub Keeps : Shared → Point → Outcome (Shared × Point) → Type 0
Keeps s p (ok (s', p')) =
    IsWord s'.mem.u × (locked_of s'.mem.u + wait_owns p ≡ locked_of s.mem.u + wait_owns p')
Keeps s p (fault e) = e ≡ out_of_bounds

-- Each move of a wait, timed or not, keeps the byte `locked` of the lock equal to the number of
-- its owners, the moves of its unlock and of its loop included, or it is a fault of an access
-- outside of the segment table.
pub wait_move-Keeps :
    (m : ℕ) (d : Option Timespec) (x : Input) (tv : Timeval) (s : Shared) (p : Point)
    → IsWord s.mem.u
    → wait_owns p ≤ locked_of s.mem.u
    → Keeps s p (wait_move m d x tv s p)
unfolding wait_move Keeps
wait_move-Keeps m d x tv s (unlocking seq q) w h =
    let (word, count) = move-owns x s.mem q w h in
    (word, omega (arith, count, go_on-owns d seq (move x s.mem q).1))
wait_move-Keeps m none x tv s (clock seq) w h = (w, omega arith)
wait_move-Keeps m (some ts) x tv s (clock seq) w h = (w, ground arith)
wait_move-Keeps m none x tv s (sleep seq) w h = (w, ground arith)
wait_move-Keeps m (some ts) x tv s (sleep seq) w h = (w, ground arith)
wait_move-Keeps m none x tv s sleeping w h = (w, omega arith)
wait_move-Keeps m (some ts) x tv s sleeping w h = (w, omega arith)
wait_move-Keeps m none x tv s clock_again w h = (w, omega arith)
wait_move-Keeps m (some ts) x tv s clock_again w h = (w, ground arith)
wait_move-Keeps m d x tv s p w h = ground arith

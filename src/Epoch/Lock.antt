-- ===== src/Epoch/Lock.antt =====
-- One thread in `htll_mutex_lock`, `htll_mutex_trylock` and `htll_mutex_unlock` of
-- litl/src/htll.c with its segments: the window that the timed wait reads (lines 82-84) and the
-- mark that it leaves (line 86). The value that line 64 reads is not used in the code: `local_move`
-- leaves the read out, and `checked_move` has it.
use htll.Common.{
  ℕ, Bool, false, ◌&&◌, ◌==◌, ltb, if◌then◌else◌, eq_ℤ, Outcome, ok, ◌>>=◌, List, [], ◌∷◌,
}
use htll.Htll.Mutex.{Mutex}
use htll.Htll.Thread.{Pc, idle, first, nap, napping, retry, parked, held, Input, after_nap, move}
use htll.Segment.State.{Segment, Local, minus_one, segment_at, put_segment}

-- `segment[cur_segment_id].has_waiter = 1`
unfoldable pub note_waiter : Local → Outcome Local
note_waiter t = segment_at t t.cur_segment_id >>= λ g.
    put_segment t t.cur_segment_id (record g { has_waiter = 1 })

-- The system call refuses a timespec with this many nanoseconds or more, whatever the word is.
abbrev pub nsec_per_sec : ℕ
nsec_per_sec = 1000000000

-- `cur_segment_id == -1` on line 65
abbrev pub input_of : Bool → ℕ → Local → Input
input_of try now t = record { try = try; outside = eq_ℤ t.cur_segment_id minus_one; now = now }

-- The futex wait of line 82 with the timespec {0, wait_time}: whether the thread sleeps.
abbrev pub sleeps_in : Segment → Mutex → Bool
sleeps_in g m = ltb g.wait_time nsec_per_sec && (m.u == 257)

-- One move. The return of the timed wait sets the mark of the current segment.
unfoldable pub local_move : Bool → ℕ → Mutex → Local → Pc → Outcome (Local × Mutex × Pc)
unfolding note_waiter
local_move try now m t (nap l) = segment_at t t.cur_segment_id >>= λ g.
    if sleeps_in g m
    then ok (t, m, napping l)
    else (note_waiter t >>= λ t'. ok (t', m, first (after_nap l)))
local_move try now m t (napping l) = note_waiter t >>= λ t'. ok (t', m, first (after_nap l))
local_move try now m t p = let r = move (input_of try now t) m p in ok (t, r.0, r.1)

-- The read `segment[cur_segment_id].wait_time` of line 64, at the call of lock.
unfoldable pub entry_read : Bool → Local → Pc → Outcome Local
entry_read try t idle = if try then ok t else (segment_at t t.cur_segment_id >>= λ g. ok t)
entry_read try t p = ok t

-- One move that is a fault where line 64 reads outside of the table.
unfoldable pub checked_move : Bool → ℕ → Mutex → Local → Pc → Outcome (Local × Mutex × Pc)
unfolding entry_read local_move
checked_move try now m t p = entry_read try t p >>= λ u. local_move try now m u p

-- Where a thread goes on that FUTEX_WAKE has found asleep.
unfoldable pub woken : Local → Pc → Outcome (Local × Pc)
unfolding note_waiter
woken t (napping l) = note_waiter t >>= λ t'. ok (t', first (after_nap l))
woken t (parked w) = ok (t, retry w)
woken t p = ok (t, p)

-- A thread in one call of lock that finds the lock in the given states, one at each of its moves,
-- with the time stamps; it stops when the call has returned.
unfoldable pub lock_run : List (ℕ × Mutex) → Local → Pc → Outcome (Local × Pc)
lock_run [] t p = ok (t, p)
lock_run ((now, m) ∷ seen) t (held w) = ok (t, held w)
lock_run ((now, m) ∷ seen) t p = local_move false now m t p >>= λ r. lock_run seen r.0 r.2

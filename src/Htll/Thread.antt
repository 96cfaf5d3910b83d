-- ===== src/Htll/Thread.antt =====
-- One thread in `htll_mutex_lock`, `htll_mutex_trylock` and `htll_mutex_unlock` of
-- litl/src/htll.c (lines 62-96, 108-144), one access to the shared lock at a time, but for the
-- counters of lines 99-106 and 114-117, which are one move. All accesses are taken as
-- sequentially consistent: the exchanges are locked instructions, and `mfence` stands behind each
-- plain access of the release.
use htll.Common.{ℕ, ◌+◌, ◌*◌, ◌%◌, Bool, true, false, ◌==◌, if◌then◌else◌, u32, Option, none, some}
use htll.Htll.Constants.{unlocked, locked, uncontended, locked_and_contended}
use htll.Htll.Mutex.{
  Mutex, locked_of, store_locked, store_contended, swap_uint8, swap_uint32, compare_and_swap,
  count_unlock, mutex_trylock,
}
use htll.Htll.Spin.{cycles_over}

-- The locals of `htll_mutex_lock`. `waited` records that line 86 has set `has_waiter` of the
-- current segment.
pub record Locals : Type 0 where
  pub flag : Bool
  pub spin_ticks : ℕ
  pub waited : Bool

-- Where a thread stands.
pub data Pc : Type 0 where
  idle : Pc  -- outside, or with the result EBUSY of a trylock
  first : Locals → Pc  -- line 68
  spin : Locals → ℕ → Pc  -- line 74, with the start `___s` of the loop
  mark : Locals → Pc  -- line 77
  nap : Locals → Pc  -- the call of the timed wait, line 82
  napping : Locals → Pc  -- asleep in it
  retry : Bool → Pc  -- line 89
  park : Bool → Pc  -- the call of the untimed wait, line 90
  parked : Bool → Pc  -- asleep in it
  held : Bool → Pc  -- the lock is held, with `waited`
  release : Pc  -- the read `m->l.u == 1` of line 110
  cas : Pc  -- the compare-and-swap of line 110
  count : Pc  -- lines 114-117 with 99-106, as one move
  store : Pc  -- line 120
  check : Pc  -- line 122
  recheck : Pc  -- line 128, behind the delay
  clear : Pc  -- line 133
  count_wake : Pc  -- the read of `m->cnt_wake++`
  put_wake : ℕ → Pc  -- its write
  wake : Pc  -- line 135

-- What a move takes from outside: which call an idle thread makes, whether it is outside of all
-- segments (`cur_segment_id == -1`), and the time stamp counter.
pub record Input : Type 0 where
  pub try : Bool
  pub outside : Bool
  pub now : ℕ

-- `int spin_ticks = m->ticks_spin; int flag = (cur_segment_id == -1 ? 1 : 0);`
abbrev enter : Input → Mutex → Locals
enter x m = record { flag = x.outside; spin_ticks = u32 m.ticks_spin; waited = false }

-- Lines 86-87, after the timed wait has returned for whatever reason. The doubled `int` is kept as
-- a 32-bit pattern.
abbrev pub after_nap : Locals → Locals
after_nap l = record l { spin_ticks = u32 (l.spin_ticks * 2); waited = true }

-- One move. A thread in a futex wait that is moved has returned from it without a wake-up: by its
-- timeout, a signal, or spuriously. A move at `held` is the call of unlock. The system call at
-- `wake` acts on another thread, see `System`; here it only returns.
unfoldable pub move : Input → Mutex → Pc → Mutex × Pc
unfolding count_unlock mutex_trylock
move x m idle =
    let (m', r) = mutex_trylock m in
    if x.try then (m', if r == 0 then held false else idle) else (m, first (enter x m))
move x m (first l) =
    let (old, m') = swap_uint8 m locked in (m', if old == 0 then held l.waited else spin l x.now)
move x m (spin l s) =
    let (old, m') = swap_uint8 m locked in
    let again : Pc = if cycles_over l.spin_ticks s x.now then mark l else spin l s in
    (m', if old == 0 then held l.waited else again)
move x m (mark l) =
    let (old, m') = swap_uint32 m locked_and_contended in
    let sleep : Pc = if l.flag then retry l.waited else nap l in
    (m', if old % 2 == unlocked then held l.waited else sleep)
move x m (nap l) = (m, if m.u == 257 then napping l else first (after_nap l))
move x m (napping l) = (m, first (after_nap l))
move x m (retry w) =
    let (old, m') = swap_uint32 m 257 in (m', if old % 2 == 0 then held w else park w)
move x m (park w) = (m, if m.u == 257 then parked w else retry w)
move x m (parked w) = (m, retry w)
move x m (held w) = (m, release)
move x m release = (m, if m.u == 1 then cas else count)
move x m cas = let (old, m') = compare_and_swap m 1 0 in (m', if old == 1 then idle else count)
move x m count = (count_unlock m, store)
move x m store = (store_locked m unlocked, check)
move x m check = (m, if locked_of m.u == 0 then recheck else idle)
move x m recheck = (m, if locked_of m.u == locked then idle else clear)
move x m clear = (store_contended m uncontended, count_wake)
move x m count_wake = (m, put_wake (u32 (m.cnt_wake + 1)))
move x m (put_wake c) = (record m { cnt_wake = c }, wake)
move x m wake = (m, idle)

-- Where FUTEX_WAKE finds a sleeper, and where the sleeper goes on.
abbrev pub asleep : Pc → Option Pc
asleep (napping l) = some (first (after_nap l))
asleep (parked w) = some (retry w)
asleep _ = none

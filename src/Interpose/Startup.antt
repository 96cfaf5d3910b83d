-- ===== src/Interpose/Startup.antt =====
-- litl/src/interpose.c, lines 54-55, 253-342 and 348-402: the constructor that runs once, and the
-- ids of the threads.
use htll.Common.{
  ℕ, ◌+◌, leb, ◌==◌, if◌then◌else◌, u32, Outcome, ok, fault, stopped, ◌>>=◌, List, get_elem?,
  Option,
}

abbrev pub max_threads : ℕ
max_threads = 2048

-- `init_spinlock` (0 before, 1 during and 2 after the initialisation) and `last_thread_id`, with
-- the number of times that the table has been cleared.
pub record Loader : Type 0 where
  pub init_spinlock : ℕ
  pub last_thread_id : ℕ
  pub clears : ℕ

-- `cur_thread_id = __sync_fetch_and_add(&last_thread_id, 1)` and the test behind it.
unfoldable pub take_id : Loader → Outcome (ℕ × Loader)
take_id l =
    if leb max_threads l.last_thread_id
    then fault stopped
    else ok (l.last_thread_id, record l { last_thread_id = u32 (l.last_thread_id + 1) })

-- Where a thread stands in `interpose_init`.
pub data Point : Type 0 where
  outside : Point
  waiting : Point  -- the loop of line 266
  clearing : Point  -- the memset
  numbering : Point  -- lines 283-289
  loading : (id : ℕ) → Point  -- up to line 341
  returned : Point

-- `lock_application_init` does nothing for the lock of htll.c, and the look-up of the library's
-- functions has no part in this state.
unfoldable pub init_move : Loader → Point → Outcome (Loader × Point)
unfolding take_id
init_move l outside =
    if l.init_spinlock == 0
    then ok (record l { init_spinlock = 1 }, clearing)
    else ok (l, if l.init_spinlock == 1 then waiting else returned)
init_move l waiting = ok (l, if l.init_spinlock == 1 then waiting else returned)
init_move l clearing = ok (record l { clears = l.clears + 1 }, numbering)
init_move l numbering = take_id l >>= λ r. ok (r.1, loading r.0)
init_move l (loading id) = ok (record l { init_spinlock = 2 }, returned)
init_move l returned = ok (l, returned)

-- `&impl->lock_node[cur_thread_id]`, in the array of the contexts of a lock.
unfoldable pub get_node {ℓ} : {A : Type ℓ} → List A → ℕ → Option A
get_node nodes cur_thread_id = get_elem? nodes cur_thread_id

-- `struct routine`: a function, which acts on the program's state, and its argument.
pub record Routine (S A R : Type 0) : Type 0 where
  pub fct : A → S → R × S
  pub arg : A

module _ {S A R : Type 0} (thread_start thread_exit : S → S) where
  -- The new thread: its id, and the result of its function.
  unfoldable pub lp_start_routine : Routine S A R → Loader → S → Outcome ((ℕ × R) × (Loader × S))
  unfolding take_id
  lp_start_routine r l s = take_id l >>= λ t.
      (let (res, s') = r.fct r.arg (thread_start s) in ok ((t.0, res), (t.1, thread_exit s')))

  -- `pthread_create` hands the C library's function, `create`, the routine to run in the thread.
  unfoldable pub pthread_create :
      (create : (Loader → S → Outcome ((ℕ × R) × (Loader × S))) → ℕ) → (A → S → R × S) → A → ℕ
  unfolding lp_start_routine
  pthread_create create start_routine arg =
      create (lp_start_routine (record { fct = start_routine; arg = arg }))

-- ===== src/Bench/Request.antt =====
-- One thread of litl/bench/bench_block.c: `access_variables`, `request_normal` and
-- `thread_routine_transparent` (lines 57-65, 117-141 and 143-180), built with LIBHTLL_INTERFACE.
use htll.Common.{
  ℕ, zero, suc, ◌+◌, ◌*◌, List, [], ◌∷◌, some, none, get_elem?, set, ltb, if◌then◌else◌, length,
  pos, Outcome, ok, fault, out_of_bounds, ◌>>=◌, u64, sub_u64,
}
use htll.Segment.State.{Local}
use htll.Segment.Ops.{segment_start, segment_end}

-- An element of an array, read and written; an index outside of it is a fault.
abbrev pub read_at {ℓ} : {A : Type ℓ} → List A → ℕ → Outcome A
read_at xs i = elim (get_elem? xs i) [ some a ↦ ok a | none ↦ fault out_of_bounds ]

abbrev pub write_at {ℓ} : {A : Type ℓ} → List A → ℕ → A → Outcome (List A)
write_at xs i a = if ltb i (length xs) then ok (set xs i a) else fault out_of_bounds

-- The loop from `i` on, for the variables that are left.
unfoldable pub access_from : ℕ → ℕ → List ℕ → Outcome (List ℕ)
access_from i zero area = ok area
access_from i (suc left) area = do
  last ← read_at area (8 * i + 7)
  copied ← write_at area (8 * i + 2) (u64 (last + 1))
  copy ← read_at copied (8 * i + 2)
  written ← write_at copied (8 * i + 7) (u64 (copy + 1))
  access_from (i + 1) left written

unfoldable pub access_variables : List ℕ → ℕ → Outcome (List ℕ)
unfolding access_from
access_variables area number = access_from 0 number area

-- pthread_mutex_lock and pthread_mutex_unlock on the global lock, in the memory `M`. Their results
-- are not looked at.
pub record LockCalls (M : Type 0) : Type 0 where
  pub lock : M → Outcome M
  pub unlock : M → Outcome M

-- The settings of main that a request reads. A negative number acts as 0 does.
pub record Settings : Type 0 where
  pub short_number : ℕ
  pub long_number : ℕ
  pub short_thread_number : ℕ
  pub target_latency : ℕ

pub record Machine (M : Type 0) : Type 0 where
  pub segments : Local
  pub memory : M
  pub global_cnt : List ℕ
  pub short_area : List ℕ
  pub long_area : List ℕ

-- The stamps that a request reads: at segment_start, around lock, and at segment_end.
pub record Stamps : Type 0 where
  pub start : ℕ
  pub before : ℕ
  pub behind : ℕ
  pub end_ : ℕ

module _ {M : Type 0} (calls : LockCalls M) (u : Settings) where
  -- Lines 126-132: the area of a thread.
  unfoldable pub work_on : ℕ → Machine M → Outcome (Machine M)
  unfolding access_variables
  work_on tid s =
      if ltb tid u.short_thread_number
      then (access_variables s.short_area u.short_number >>= λ a. ok (record s { short_area = a }))
      else (access_variables s.long_area u.long_number >>= λ a. ok (record s { long_area = a }))

  -- Lines 125-132, under the lock.
  unfoldable pub critical : ℕ → Machine M → Outcome (Machine M)
  unfolding work_on
  critical tid s = do
    cnt ← read_at s.global_cnt tid
    global_cnt ← write_at s.global_cnt tid (u64 (cnt + 1))
    work_on tid (record s { global_cnt = global_cnt })

  unfoldable pub request_normal : ℕ → Stamps → Machine M → Outcome (Machine M)
  unfolding critical
  request_normal tid now s = do
    started ← segment_start (pos 0) now.start s.segments
    locked ← calls.lock s.memory
    worked ← critical tid (record s { segments = started.1; memory = locked })
    unlocked ← calls.unlock worked.memory
    left ← segment_end (pos 0) u.target_latency now.end_ worked.segments
    ok (record worked { segments = left.1; memory = unlocked })

  -- The loop of a thread, which main stops behind any request: the durations go to the array
  -- `record_latency` of the thread, from `record_cnt` on.
  unfoldable pub run_requests :
      ℕ → List Stamps → ℕ → List ℕ → Machine M → Outcome (ℕ × List ℕ × Machine M)
  unfolding request_normal
  run_requests tid [] record_cnt latencies s = ok (record_cnt, latencies, s)
  run_requests tid (now ∷ later) record_cnt latencies s = do
    s' ← request_normal tid now s
    latencies' ← write_at latencies record_cnt (sub_u64 now.behind now.before)
    run_requests tid later (record_cnt + 1) latencies' s'

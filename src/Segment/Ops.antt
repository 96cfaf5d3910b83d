-- ===== src/Segment/Ops.antt =====
-- `push_segment`, `pop_segment`, `is_stack_empty`, `segment_start` and `segment_end` of
-- litl/src/htll.c. Each returns its `int` beside the new thread-local state; a time stamp that the
-- code reads from the counter is the argument `now`.
use htll.Common.{
  ℕ, ◌+◌, ◌-◌, ◌/◌, Bool, false, ◌||◌, not, none, some, get_elem?, set, length, ltb, ◌==◌,
  if◌then◌else◌, ℤ, pos, negsuc, is_negative, is_above, eq_ℤ, Outcome, ok, fault, out_of_bounds,
  ◌>>=◌, u64, sub_u64,
}
use htll.Htll.Constants.{min_reorder, min_adjust_unit, segment_req_threshold}
use htll.Segment.State.{max_segment, Segment, Local, minus_one, segment_at, put_segment}

-- -EINVAL and -ENOSPC
abbrev pub minus_einval : ℤ
minus_einval = negsuc 21

abbrev pub minus_enospc : ℤ
minus_enospc = negsuc 27

-- The test of line 310 is against MAX_SEGMENT, and the array has MAX_DEPTH elements.
unfoldable pub push_segment : ℤ → Local → Outcome (ℤ × Local)
push_segment id t =
    let pushed = record t { segment_stack = set t.segment_stack t.depth id; depth = t.depth + 1 } in
    if t.depth == max_segment
    then ok (minus_enospc, record t { depth = t.depth + 1 })
    else if ltb t.depth (length t.segment_stack)
    then ok (pos 0, pushed)
    else fault out_of_bounds

unfoldable pub is_stack_empty : Local → Bool
is_stack_empty t = t.depth == 0

unfoldable pub pop_segment : Local → Outcome (ℤ × Local)
pop_segment t =
    if t.depth == 0 then ok (minus_einval, t) else elim (get_elem? t.segment_stack (t.depth - 1)) [
      | some id ↦ ok (id, record t { depth = t.depth - 1 })
      | none ↦ fault out_of_bounds
    ]

-- `cur_segment_id < -1`
abbrev pub below_minus_one : ℤ → Bool
below_minus_one (pos n) = false
below_minus_one (negsuc n) = ltb 0 n

-- Lines 330-334, behind a successful push.
unfoldable pub enter_segment : ℤ → ℕ → Local → Outcome (ℤ × Local)
enter_segment id now t = do
  g ← segment_at t id
  t' ← put_segment (record t { cur_segment_id = id }) id (record g { start_ts = now })
  ok (pos 0, t')

unfoldable pub segment_start : ℤ → ℕ → Local → Outcome (ℤ × Local)
unfolding push_segment enter_segment
segment_start id now t =
    if is_negative id || is_above id max_segment || below_minus_one t.cur_segment_id
    then ok (minus_einval, t)
    else (push_segment t.cur_segment_id t >>= λ r.
        if is_negative r.0 then ok (minus_enospc, r.1) else enter_segment id now r.1)

-- The label `out` of `segment_end`.
unfoldable pub leave : Local → Outcome (ℤ × Local)
unfolding is_stack_empty pop_segment
leave t =
    if is_stack_empty t
    then ok (pos 0, record t { cur_segment_id = minus_one })
    else (pop_segment t >>= λ r. ok (pos 0, record r.1 { cur_segment_id = r.0 }))

-- Lines 355-365: the new window and the new unit.
unfoldable pub adjust_window : Segment → ℕ → ℕ → ℕ × ℕ
adjust_window g duration required =
    let half = g.wait_time / 2 in
    let (wait_time, unit) : ℕ × ℕ =
      if ltb required duration
      then (half, if ltb (half / 99) min_adjust_unit then min_adjust_unit else half / 99)
      else (u64 (g.wait_time + g.unit), g.unit) in
    (if ltb wait_time min_reorder then min_reorder else wait_time, unit)

-- Lines 366-369, with the window and the unit that are written back.
unfoldable pub finish : Segment → ℕ × ℕ → Local → Outcome (ℤ × Local)
unfolding leave
finish g w t =
    put_segment t t.cur_segment_id (record g { wait_time = w.0; unit = w.1; has_waiter = 0 })
    >>= leave

-- The body of `segment_end` behind the reads of the current segment.
unfoldable pub end_at : ℤ → ℕ → ℕ → Segment → Local → Outcome (ℤ × Local)
unfolding leave adjust_window finish
end_at id required now g t =
    if g.has_waiter == 0
    then finish g (g.wait_time, g.unit) t
    else if ltb required segment_req_threshold
    then (put_segment t t.cur_segment_id (record g { wait_time = min_reorder }) >>= leave)
    else if is_negative id || is_above id max_segment
    then ok (minus_einval, t)
    else if not (eq_ℤ id t.cur_segment_id)
    then ok (minus_einval, t)
    else finish g (adjust_window g (sub_u64 now g.start_ts) required) t

unfoldable pub segment_end : ℤ → ℕ → ℕ → Local → Outcome (ℤ × Local)
unfolding end_at
segment_end id required now t = segment_at t t.cur_segment_id >>= λ g. end_at id required now g t

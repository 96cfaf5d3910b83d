-- ===== src/Segment/State.antt =====
-- The thread-local state of the epochs in litl/src/htll.c: the table of segments, the current
-- segment, and the stack of the segments around it.
use htll.Common.{
  ℕ, none, some, List, [], ◌∷◌, get_elem?, set, replicate, length, ltb, if◌then◌else◌, ℤ, pos,
  negsuc, Outcome, ok, fault, out_of_bounds,
}
use htll.Htll.Constants.{default_reorder, default_adjust_unit}

abbrev pub max_segment : ℕ
max_segment = 256

abbrev pub max_depth : ℕ
max_depth = 30

-- `segment_t`. Each field is a uint64_t.
pub record Segment : Type 0 where
  pub wait_time : ℕ
  pub unit : ℕ
  pub has_waiter : ℕ
  pub start_ts : ℕ
  pub quick_start : ℕ

-- The variables marked `__thread`. `depth` is `stack_pos + 1`: `stack_pos` starts at -1 and is
-- lowered only where it is not negative.
pub record Local : Type 0 where
  pub segment : List Segment
  pub cur_segment_id : ℤ
  pub segment_stack : List ℤ
  pub depth : ℕ

abbrev pub minus_one : ℤ
minus_one = negsuc 0

-- `segment[MAX_SEGMENT] = {0}` and the other initialisers.
abbrev pub zero_segment : Segment
zero_segment = record { wait_time = 0; unit = 0; has_waiter = 0; start_ts = 0; quick_start = 0 }

abbrev pub initial : Local
initial = record {
  segment = replicate max_segment zero_segment;
  cur_segment_id = minus_one;
  segment_stack = replicate max_depth (pos 0);
  depth = 0;
}

-- `segment[i]`, read and written. An index outside of the array is a fault.
abbrev pub segment_at : Local → ℤ → Outcome Segment
segment_at t (pos i) = elim (get_elem? t.segment i) [ some g ↦ ok g | none ↦ fault out_of_bounds ]
segment_at t (negsuc i) = fault out_of_bounds

abbrev pub put_segment : Local → ℤ → Segment → Outcome Local
put_segment t (pos i) g =
    if ltb i (length t.segment)
    then ok (record t { segment = set t.segment i g })
    else fault out_of_bounds
put_segment t (negsuc i) g = fault out_of_bounds

-- The loop of `htll_thread_start`, over what is left of the table.
unfoldable pub reset : List Segment → List Segment
reset [] = []
reset (g ∷ gs) = record g { wait_time = default_reorder; unit = default_adjust_unit } ∷ reset gs

unfoldable pub thread_start : Local → Local
unfolding reset
thread_start t = record t { segment = reset t.segment; cur_segment_id = minus_one }

-- ===== src/Segment/Window.antt =====
-- The reorder window of litl/src/htll.c: its bounds, and how `segment_end` moves it.
use native.Mathlib.Nat.{pow-suc}
use htll.Common.{
  ℕ, zero, suc, ◌*◌, ◌≡◌, ◌≤◌, ◌<◌, ◌⊎◌, inl, inr, refl, false, none, some, List, [], ◌∷◌, arith,
  get_elem?, set, length, ltb, ◌==◌, if◌then◌else◌, ℤ, pos, negsuc, eq_ℤ, ok, fault, out_of_bounds,
  sub_u64, max, ◌^◌, two_pow_pos, get_elem?-set_cases, get_elem?-lt, Option-cases,
}
use htll.Htll.Constants.{min_reorder, min_adjust_unit, segment_req_threshold}
use htll.Segment.State.{max_segment, Segment, Local, segment_at, reset, thread_start}
use htll.Segment.Ops.{segment_start, minus_einval, leave, adjust_window, segment_end}

-- What the code keeps of a segment: the window and its unit stay above their minima.
pub record IsWindow (g : Segment) : Type 0 where
  pub wait_min : min_reorder ≤ g.wait_time
  pub unit_min : min_adjust_unit ≤ g.unit

abbrev pub AllWindows : List Segment → Type 0
AllWindows gs = (i : ℕ) (g : Segment) → get_elem? gs i ≡ some g → IsWindow g

pub set-AllWindows :
    (gs : List Segment) (i : ℕ) (g : Segment) → IsWindow g → AllWindows gs → AllWindows (set gs i g)
set-AllWindows gs i g w all j a h = elim (get_elem?-set_cases gs i j g a h) [
  | inl new ↦ rw new w
  | inr old ↦ all j a old
]

reset-AllWindows : (gs : List Segment) → AllWindows (reset gs)
unfolding reset
reset-AllWindows [] i g h = cc
reset-AllWindows (a ∷ gs) zero g h = ground arith
reset-AllWindows (a ∷ gs) (suc i) g h = reset-AllWindows gs i g h

-- What a successful `segment_end` makes of the current segment `g`, after `duration` ticks.
unfoldable pub ended : Segment → ℕ → ℕ → Segment
ended g duration required =
    if g.has_waiter == 0
    then g
    else if ltb required segment_req_threshold
    then record g { wait_time = min_reorder }
    else let w = adjust_window g duration required in
      record g { wait_time = w.0; unit = w.1; has_waiter = 0 }

ended-IsWindow :
    (g : Segment) (duration required : ℕ) → IsWindow g → IsWindow (ended g duration required)
unfolding ended adjust_window
ended-IsWindow g duration required w = ground arith

leave-segment :
    (t : Local) (r : ℤ × Local) → leave t ≡ ok r → (r.0 ≡ pos 0) × (r.1.segment ≡ t.segment)
unfolding leave
leave-segment t r e = ground arith

-- All branches of `segment_end` on the table of segments, where the current segment has an entry:
-- it refuses only if somebody waited, the latency is not below the threshold, and the argument is
-- not the current segment, and then it changes nothing; else it changes the entry of the current
-- segment alone, to `ended`.
pub segment_end-segment :
    (id : ℤ) (required now i : ℕ) (t : Local) (g : Segment) (r : ℤ × Local)
    → t.cur_segment_id ≡ pos i
    → i < max_segment
    → get_elem? t.segment i ≡ some g
    → segment_end id required now t ≡ ok r
    → ((r ≡ (minus_einval, t))
        × (0 < g.has_waiter)
        × (segment_req_threshold ≤ required)
        × (eq_ℤ id (pos i) ≡ false))
      ⊎ ((r.0 ≡ pos 0)
          × (r.1.segment ≡ set t.segment i (ended g (sub_u64 now g.start_ts) required)))
unfolding segment_end ended
segment_end-segment id required now i t g r cur small found e =
    ground (arith, get_elem?-lt t.segment i g found)

-- From the start of a thread on, every reorder window is at least MIN_REORDER and every unit at
-- least MIN_ADJUST_UNIT: `htll_thread_start` establishes it whatever the table held.
pub thread_start-AllWindows : (t : Local) → AllWindows (thread_start t).segment
unfolding thread_start
thread_start-AllWindows t = reset-AllWindows t.segment

-- Outside of all segments, and where the table has no entry, `segment_end` reads past the table.
segment_end_missing :
    (id : ℤ) (required now : ℕ) (t : Local) (c : ℤ)
    → t.cur_segment_id ≡ c
    → segment_at t c ≡ fault out_of_bounds
    → segment_end id required now t ≡ fault out_of_bounds
unfolding segment_end
segment_end_missing id required now t c cur missing = rw (cur, missing)

end_keeps :
    (id : ℤ) (required now : ℕ) (t : Local) (r : ℤ × Local) (c : ℤ)
    → t.cur_segment_id ≡ c
    → length t.segment ≡ max_segment
    → AllWindows t.segment
    → segment_end id required now t ≡ ok r
    → AllWindows r.1.segment
end_keeps id required now t r (negsuc i) cur wide all e =
    let missing = segment_end_missing id required now t (negsuc i) cur refl in cc
end_keeps id required now t r (pos i) cur wide all e = elim (Option-cases (get_elem? t.segment i)) [
  | inl none_there ↦
      let missing = segment_end_missing id required now t (pos i) cur (ground arith) in cc
  | inr (g, found) ↦
      let small : i < max_segment = omega (arith, get_elem?-lt t.segment i g found) in
      let after = ended g (sub_u64 now g.start_ts) required in
      elim (segment_end-segment id required now i t g r cur small found e) [
        | inl refused ↦ rw refused.0 all
        | inr done ↦ rw done.1 (
            set-AllWindows t.segment i after
              (ended-IsWindow g (sub_u64 now g.start_ts) required (all i g found)) all)
      ]
]

-- `segment_end` keeps every window at or above MIN_REORDER and every unit at or above
-- MIN_ADJUST_UNIT, on every branch that returns and in every thread-local state.
pub segment_end-AllWindows :
    (id : ℤ) (required now : ℕ) (t : Local) (r : ℤ × Local)
    → length t.segment ≡ max_segment
    → AllWindows t.segment
    → segment_end id required now t ≡ ok r
    → AllWindows r.1.segment
segment_end-AllWindows id required now t r wide all e =
    end_keeps id required now t r t.cur_segment_id refl wide all e

segment_start_missing :
    (now i : ℕ) (t : Local)
    → get_elem? t.segment i ≡ none
    → (r : ℤ × Local) → segment_start (pos i) now t ≡ ok r
    → r.1.segment ≡ t.segment
unfolding segment_start
segment_start_missing now i t none_there r e = ground arith

segment_start_present :
    (now i : ℕ) (t : Local) (g : Segment)
    → get_elem? t.segment i ≡ some g
    → (r : ℤ × Local) → segment_start (pos i) now t ≡ ok r
    → (r.1.segment ≡ t.segment) ⊎ (r.1.segment ≡ set t.segment i (record g { start_ts = now }))
unfolding segment_start
segment_start_present now i t g found r e = ground arith

-- `segment_start` keeps the bounds of all windows and units too.
pub segment_start-AllWindows :
    (id : ℤ) (now : ℕ) (t : Local) (r : ℤ × Local)
    → AllWindows t.segment
    → segment_start id now t ≡ ok r
    → AllWindows r.1.segment
unfolding segment_start
segment_start-AllWindows (negsuc i) now t r all e =
    let same : r ≡ (minus_einval, t) = ground arith in rw same all
segment_start-AllWindows (pos i) now t r all e = elim (Option-cases (get_elem? t.segment i)) [
  | inl none_there ↦ rw (segment_start_missing now i t none_there r e) all
  | inr (g, found) ↦ elim (segment_start_present now i t g found r e) [
    | inl same ↦ rw same all
    | inr stamped ↦ rw stamped (
        set-AllWindows t.segment i (record g { start_ts = now }) (ground (arith, all i g found))
          all)
  ]
]

-- Ends of one segment, one after the other, that somebody waited for: each with its duration and
-- the latency that was asked for.
unfoldable pub ends : List (ℕ × ℕ) → Segment → Segment
ends [] g = g
ends ((duration, required) ∷ seen) g =
    ends seen (ended (record g { has_waiter = 1 }) duration required)

-- The end came too late for the latency, which is no fast out.
abbrev pub AllLate : List (ℕ × ℕ) → Type 0
AllLate [] = Unit
AllLate ((duration, required) ∷ seen) =
    (segment_req_threshold ≤ required) × (required < duration) × AllLate seen

late-halves :
    (g : Segment) (duration required : ℕ)
    → segment_req_threshold ≤ required
    → required < duration
    → 2 * (ended (record g { has_waiter = 1 }) duration required).wait_time
      ≤ max (2 * min_reorder) g.wait_time
unfolding ended adjust_window
late-halves g duration required above late = ground arith

-- The window falls geometrically: after `k` late ends in a row that somebody waited for it is at
-- most the larger of MIN_REORDER and its 2 ^ k-th part.
pub ends-AllLate :
    (seen : List (ℕ × ℕ)) (g : Segment)
    → AllLate seen
    → (ends seen g).wait_time * 2 ^ length seen ≤ max (min_reorder * 2 ^ length seen) g.wait_time
unfolding ends
ends-AllLate [] g late = omega arith
ends-AllLate ((duration, required) ∷ seen) g (above, over, late) =
    let g' = ended (record g { has_waiter = 1 }) duration required in
    rw pow-suc (
      omega (
        arith,
        ends-AllLate seen g' late,
        late-halves g duration required above over,
        two_pow_pos (length seen),
      ))

-- ===== src/Segment/Recovery.antt =====
-- The reorder window of litl/src/htll.c behind an end that came too late.
use native.Mathlib.Nat.{suc-mul, zero-mul}
use htll.Common.{ℕ, ◌+◌, ◌*◌, ◌/◌, ◌^◌, ◌≤◌, ◌<◌, ◌≡◌, arith, List, [], ◌∷◌, length, max, ap}
use htll.Htll.Constants.{min_reorder, min_adjust_unit, segment_req_threshold}
use htll.Segment.State.{Segment}
use htll.Segment.Ops.{adjust_window}
use htll.Segment.Window.{ended, ends}

-- Each end came in time for its latency, which is no fast out.
abbrev pub AllInTime : List (ℕ × ℕ) → Type 0
AllInTime [] = Unit
AllInTime ((duration, required) ∷ seen) =
    (segment_req_threshold ≤ required) × (duration ≤ required) × AllInTime seen

-- An end in time that somebody waited for adds the unit.
in_time-grows :
    (g : Segment) (duration required : ℕ)
    → segment_req_threshold ≤ required
    → duration ≤ required
    → min_reorder ≤ g.wait_time
    → g.wait_time + g.unit < 2 ^ 64
    → ((ended (record g { has_waiter = 1 }) duration required).wait_time ≡ g.wait_time + g.unit)
      × ((ended (record g { has_waiter = 1 }) duration required).unit ≡ g.unit)
unfolding ended adjust_window
in_time-grows g duration required above in_time wide room = ground arith

pub ends-AllInTime :
    (seen : List (ℕ × ℕ)) (g : Segment)
    → AllInTime seen
    → min_reorder ≤ g.wait_time
    → g.wait_time + length seen * g.unit < 2 ^ 64
    → (ends seen g).wait_time ≡ g.wait_time + length seen * g.unit
unfolding ends
ends-AllInTime [] g in_time wide room = omega (arith, zero-mul g.unit)
ends-AllInTime ((duration, required) ∷ seen) g (above, early, in_time) wide room =
    let g' = ended (record g { has_waiter = 1 }) duration required in
    let more = suc-mul (length seen) g.unit in
    let (grown, same) = in_time-grows g duration required above early wide (omega (arith, more)) in
    let product : length seen * g'.unit ≡ length seen * g.unit = ap (λ x. length seen * x) same in
    omega (
      arith,
      more,
      product,
      grown,
      ends-AllInTime seen g' in_time (omega (arith, grown)) (omega (arith, more, product, grown)),
    )

-- The window and the unit behind an end that came too late.
late_end :
    (g : Segment) (duration required : ℕ)
    → segment_req_threshold ≤ required
    → required < duration
    → ((ended (record g { has_waiter = 1 }) duration required).wait_time
        ≡ max (g.wait_time / 2) min_reorder)
      × ((ended (record g { has_waiter = 1 }) duration required).unit
          ≡ max (g.wait_time / 2 / 99) min_adjust_unit)
unfolding ended adjust_window
late_end g duration required above late = ground arith

-- The window recovers: when an end that came too late, and that somebody waited for, is followed by
-- 100 ends in time that somebody waited for, then the window is at least what it was before, and
-- not above that by more than a hundredth and 110000 ticks, for windows below 2^56 ticks.
pub recovery :
    (g : Segment) (duration required : ℕ) (seen : List (ℕ × ℕ))
    → segment_req_threshold ≤ required
    → required < duration
    → AllInTime seen
    → length seen ≡ 100
    → g.wait_time < 2 ^ 56
    → (g.wait_time ≤ (ends seen (ended (record g { has_waiter = 1 }) duration required)).wait_time)
      × ((ends seen (ended (record g { has_waiter = 1 }) duration required)).wait_time
          ≤ g.wait_time + g.wait_time / 100 + 110000)
recovery g duration required seen above late in_time many small =
    let g' = ended (record g { has_waiter = 1 }) duration required in
    let (window, unit) = late_end g duration required above late in
    let product : length seen * g'.unit ≡ 100 * g'.unit = ap (λ k. k * g'.unit) many in
    let grown =
      ends-AllInTime seen g' in_time (omega (arith, window))
        (omega (arith, product, window, unit)) in
    (omega (arith, product, window, unit, grown), omega (arith, product, window, unit, grown))

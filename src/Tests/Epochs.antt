-- ===== src/Tests/Epochs.antt =====
-- litl/src/htll.c: the epochs at concrete states of a thread.
use htll.Common.{
  ℕ, zero, suc, List, replicate, ◌+◌, ◌/◌, ◌^◌, max, ◌*◌, ◌≤◌, ◌≡◌, ◌<◌, ◌⊎◌, inl, refl, arith, [],
  ◌∷◌, set, ℤ, pos, ok, fault, out_of_bounds, false, eq_ℤ,
}
use htll.Htll.Constants.{segment_req_threshold}
use htll.Common.{sub_u64}
use htll.Segment.State.{Segment, Local, initial, thread_start, zero_segment}
use htll.Segment.Ops.{segment_start, segment_end, minus_einval}
use htll.Segment.Window.{
  set-AllWindows, AllWindows, ended, thread_start-AllWindows, segment_end-segment,
  segment_end-AllWindows, segment_start-AllWindows, ends, ends-AllLate,
}
use htll.Segment.Nesting.{Epochs, done, epoch, nesting, perform, IsLocal, IsBack, perform-IsBack}
use htll.Segment.Recovery.{AllInTime, recovery}
use htll.Segment.Overruns.{segment_start_overruns}

abbrev pub fresh : Local
fresh = thread_start initial

pub fresh-IsLocal : IsLocal fresh
unfolding thread_start
fresh-IsLocal = record { segments = refl; stack = refl; current = refl }

abbrev two_deep : Epochs
two_deep = epoch 3 10 90 1000 (epoch 7 20 60 500 done done) done

perform-IsBack_example : (u : Local) × (perform two_deep fresh ≡ ok u) × IsBack fresh u
unfolding nesting thread_start
perform-IsBack_example = perform-IsBack two_deep fresh fresh-IsLocal (omega arith) (omega arith)

fresh-AllWindows : AllWindows fresh.segment
fresh-AllWindows = thread_start-AllWindows initial

-- In segment 3 since tick 10, with somebody waiting.
abbrev slow_segment : Segment
slow_segment = record {
  wait_time = 40000;
  unit = 5000;
  has_waiter = 1;
  start_ts = 10;
  quick_start = 0;
}

abbrev slow : Local
slow = record fresh { segment = set fresh.segment 3 slow_segment; cur_segment_id = pos 3 }

abbrev slow_left : Local
slow_left = record initial {
  segment =
      set fresh.segment 3 (record slow_segment { wait_time = 20000; unit = 1000; has_waiter = 0 });
}

-- 490 ticks, where 200 were asked for: the window is halved.
slow_end : segment_end (pos 3) 200 500 slow ≡ ok (pos 0, slow_left)
unfolding segment_end thread_start
slow_end = refl

abbrev slow_result : ℤ × Local
slow_result = (pos 0, slow_left)

abbrev refusal : ℤ × Local
refusal = (minus_einval, slow)

segment_end-segment_run :
    ((slow_result ≡ refusal)
      × (0 < slow_segment.has_waiter)
      × (segment_req_threshold ≤ 200)
      × (eq_ℤ (pos 3) (pos 3) ≡ false))
    ⊎ ((slow_result.0 ≡ pos 0)
        × (slow_left.segment ≡ set slow.segment 3 (ended slow_segment (sub_u64 500 10) 200)))
unfolding thread_start
segment_end-segment_run =
    segment_end-segment (pos 3) 200 500 3 slow slow_segment slow_result refl (omega arith) refl
      slow_end

slow-AllWindows : AllWindows slow.segment
unfolding thread_start
slow-AllWindows =
    set-AllWindows fresh.segment 3 slow_segment
      (record { wait_min = omega arith; unit_min = omega arith }) (thread_start-AllWindows initial)

segment_end-AllWindows_run : AllWindows slow_left.segment
unfolding thread_start
segment_end-AllWindows_run =
    segment_end-AllWindows (pos 3) 200 500 slow (pos 0, slow_left) refl slow-AllWindows slow_end

windows_at_start :
    AllWindows
      (set fresh.segment 5 (record zero_segment { wait_time = 10000; unit = 5000; start_ts = 77 }))
unfolding segment_start thread_start
windows_at_start =
    segment_start-AllWindows (pos 5) 77 fresh
      (
        pos 0,
        record fresh {
          segment =
              set fresh.segment 5
                (record zero_segment { wait_time = 10000; unit = 5000; start_ts = 77 });
          cur_segment_id = pos 5;
          segment_stack = set fresh.segment_stack 0 fresh.cur_segment_id;
          depth = 1;
        },
      )
      (thread_start-AllWindows initial) refl

ends-AllLate_run :
    (ends ((500, 200) ∷ (900, 200) ∷ []) slow_segment).wait_time * 2 ^ 2
    ≤ max (10000 * 2 ^ 2) slow_segment.wait_time
ends-AllLate_run = ends-AllLate ((500, 200) ∷ (900, 200) ∷ []) slow_segment (omega arith)

abbrev pub in_time : ℕ → List (ℕ × ℕ)
in_time n = replicate n (150, 200)

pub in_time-AllInTime : (n : ℕ) → AllInTime (in_time n)
in_time-AllInTime zero = tt
in_time-AllInTime (suc n) = (omega arith, omega arith, in_time-AllInTime n)

recovery_example :
    (slow_segment.wait_time
      ≤ (ends (in_time 100) (ended (record slow_segment { has_waiter = 1 }) 490 200)).wait_time)
    × ((ends (in_time 100) (ended (record slow_segment { has_waiter = 1 }) 490 200)).wait_time
        ≤ slow_segment.wait_time + slow_segment.wait_time / 100 + 110000)
recovery_example =
    recovery slow_segment 490 200 (in_time 100) (omega arith) (omega arith) (in_time-AllInTime 100)
      refl (omega arith)

segment_start_overruns_example : segment_start (pos 256) 5 fresh ≡ fault out_of_bounds
unfolding thread_start
segment_start_overruns_example =
    segment_start_overruns 256 5 fresh fresh-IsLocal (omega arith) (omega arith) (inl refl)

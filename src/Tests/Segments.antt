-- ===== src/Tests/Segments.antt =====
-- litl/src/htll.c: the lock inside of segments at concrete states.
use htll.Common.{
  Bool, update, ℕ, List, [], ◌∷◌, ◌≡◌, ◌<◌, ◌≤◌, ◌^◌, ◌-◌, refl, arith, true, false, none, set,
  length-replicate, ℤ, pos, ok, fault, out_of_bounds, ◌⊎◌, sub_u64, if◌then◌else◌,
}
use htll.Htll.Mutex.{Mutex, mutex_create}
use htll.Htll.Spin.{cycles_over}
use htll.Htll.Thread.{Pc, idle, first, held, Locals, asleep, move}
use htll.Segment.State.{Segment, Local, initial, thread_start, zero_segment}
use htll.Segment.Ops.{segment_start, segment_end}
use htll.Segment.Window.{AllWindows, ended, ends, thread_start-AllWindows}
use htll.Epoch.Lock.{local_move, checked_move, lock_run, woken}
use htll.Epoch.Window.{waited_of, request_window}
use htll.Epoch.Timeouts.{naps, never_sleeps, spin_doubles}
use htll.Epoch.Threads.{Threads, starts, runs, Reach, start, later}
use htll.Epoch.Stacks.{IsStacked}
use htll.Epoch.Places.{calls_outside, moves_return}
use htll.Epoch.Exclusion.{exclusion_with_segments}
use htll.Epoch.Windows.{windows_in_bounds}
use htll.Tests.Epochs.{fresh, fresh-IsLocal, in_time, in_time-AllInTime}

abbrev default_segment : Segment
default_segment = record zero_segment { wait_time = 10000; unit = 5000 }

-- A call inside of a segment that has just begun.
abbrev inside : Locals
inside = record { flag = false; spin_ticks = 8192; waited = false }

-- The lock is taken and marked at all accesses but the last, which finds it free: the thread
-- spins, marks, sleeps, and is back.
abbrev taken : Mutex
taken = record mutex_create { u = 257 }

abbrev busy_then_free : List (ℕ × Mutex)
busy_then_free =
    (100, taken)
    ∷ (200, taken)
    ∷ (9000, taken)
    ∷ (9100, taken)
    ∷ (9200, taken)
    ∷ (20000, taken)
    ∷ (21000, mutex_create)
    ∷ []

request_window_example :
    (r : ℤ × Local) × (u : Local) × (q : Pc) × (v : Local) × (segment_start (pos 3) 50 fresh ≡ ok r)
    × (lock_run busy_then_free r.1 (first inside) ≡ ok (u, q))
    × (segment_end (pos 3) 500 30000 u ≡ ok (pos 0, v))
    × (v.cur_segment_id ≡ fresh.cur_segment_id)
    × (v.depth ≡ fresh.depth)
    × (v.segment
        ≡ set fresh.segment 3 (
            ended
              (record default_segment { start_ts = 50; has_waiter = if waited_of q then 1 else 0 })
              (sub_u64 30000 50)
              500))
unfolding thread_start
request_window_example =
    request_window 3 50 30000 500 fresh default_segment inside fresh-IsLocal (omega arith)
      (omega arith) refl refl busy_then_free

-- The thread of this call has slept.
request_waits :
    lock_run busy_then_free (record fresh { cur_segment_id = pos 3 }) (first inside)
    ≡ ok (
      record fresh {
        cur_segment_id = pos 3;
        segment = set fresh.segment 3 (record default_segment { has_waiter = 1 });
      },
      held true,
    )
unfolding lock_run local_move move thread_start cycles_over mutex_create
request_waits = refl

abbrev long_run : ℕ
long_run = 200000

abbrev on_time : ℕ × ℕ
on_time = (150, 200)

abbrev grown_segment : Segment
grown_segment = record default_segment {
  wait_time = (ends (in_time long_run) default_segment).wait_time;
}

abbrev grown : Local
grown = record fresh { cur_segment_id = pos 3; segment = set fresh.segment 3 grown_segment }

never_sleeps_example :
    (u : Local) × (q : Pc) × (lock_run busy_then_free grown (first inside) ≡ ok (u, q))
    × (asleep q ≡ none)
unfolding thread_start
never_sleeps_example =
    never_sleeps 3 grown grown_segment default_segment (in_time long_run) inside refl refl refl refl
      (in_time-AllInTime long_run) (omega (arith, length-replicate long_run on_time))
      (omega (arith, length-replicate long_run on_time)) refl refl refl busy_then_free

spin_doubles_example :
    (k : ℕ) × (k ≤ 31)
    × ((s e : ℕ)
        → cycles_over (naps k inside).spin_ticks s e ≡ true
        → 2 ^ 64 - 2 ^ 31 < sub_u64 e s)
spin_doubles_example = spin_doubles inside (omega arith) (omega arith)

-- Thread 0 starts segment 3 and takes the lock.
abbrev entered : Local
entered = record fresh {
  cur_segment_id = pos 3;
  segment = set fresh.segment 3 (record default_segment { start_ts = 50 });
  segment_stack = set fresh.segment_stack 0 fresh.cur_segment_id;
  depth = 1;
}

abbrev owner : Threads
owner = record {
  mem = record mutex_create { u = 1 };
  pc = update (update (λ _. idle) 0 (first inside)) 0 (held false);
  local = update (update (update (λ _. fresh) 0 entered) 0 entered) 0 entered;
}

fresh-IsStacked : IsStacked fresh
unfolding thread_start
fresh-IsStacked = record {
  is_local = fresh-IsLocal;
  current = refl;
  depth_max = omega arith;
  below = λ k c lt e. absurd (omega arith);
}

owner-Reach : Reach 2 fresh owner
unfolding thread_start segment_start local_move move mutex_create
owner-Reach =
    later
      (later (later start (starts 0 (pos 3) 50 {r = (pos 0, entered)} (omega arith) refl refl))
        (runs false 60 0 {r = (entered, mutex_create, first inside)} (omega arith) (λ e. cc) refl))
      (runs false 70 0 {r = (entered, record mutex_create { u = 1 }, held false)} (omega arith)
        (λ e. cc) refl)

moves_return_example :
    ((try : Bool) (now : ℕ)
      → ((calls_outside try (owner.local 0) (owner.pc 0) ≡ true)
          × (checked_move try now owner.mem (owner.local 0) (owner.pc 0) ≡ fault out_of_bounds))
        ⊎ ((calls_outside try (owner.local 0) (owner.pc 0) ≡ false)
            × ((r : Local × Mutex × Pc) × (checked_move try now owner.mem
                    (owner.local 0)
                    (owner.pc 0)
                  ≡ ok r))))
    × ((r : Local × Pc) × (woken (owner.local 0) (owner.pc 0) ≡ ok r))
moves_return_example = moves_return fresh-IsStacked owner-Reach 0 (omega arith)

exclusion_with_segments_example : ◌≡◌ {A = ℕ} 0 0
exclusion_with_segments_example =
    exclusion_with_segments owner-Reach 0 0 (omega arith) (omega arith) refl refl

windows_in_bounds_example : AllWindows (owner.local 0).segment
windows_in_bounds_example =
    windows_in_bounds fresh-IsStacked (thread_start-AllWindows initial) owner-Reach 0

-- ===== src/Tests/Lock.antt =====
-- litl/src/htll.c: the lock at concrete schedules.
use htll.Common.{
  ◌≢◌, ◌%◌, ◌*◌, ℕ, ◌+◌, ◌-◌, ◌≡◌, ◌<◌, ◌^◌, refl, arith, true, false, [], ◌∷◌, ◌++◌, sub_u64,
  update, Option,
}
use htll.Htll.Mutex.{Mutex, locked_of, mutex_create, count_unlock, adjust_spin_ticks}
use htll.Htll.Thread.{idle, held, wake, check, move}
use htll.Htll.System.{System, run, init, Reach, start}
use htll.Htll.Spin.{cycles_over}
use htll.Htll.Exclusion.{Inv, Reach-Inv, Step-Inv, mutual_exclusion}
use htll.Htll.Abstract.{silent, takes, Runs, Agrees}
use htll.Htll.Refinement.{trace, holds, trace-Runs}
use htll.Htll.Wakeups.{sleeps, attends, no_lost_wakeup}
use htll.Htll.Schedule.{not_wake, Run, play, go, alice, carol, out, late, steps}
use htll.Htll.Forgotten.{forgotten_sleeper, forgotten_for_good}
use htll.Htll.Prompt.{Prompts}
use htll.Htll.Weights.{IsAtRest}
use htll.Htll.Progress.{all_can_finish, all_come_to_rest}
use htll.Htll.Release.{drive, unlock_returns, alone, lock-unlock, contended_unlock}
use htll.Htll.Counters.{
  unlocks, unlocks_period, adjustments, adjustments-ticks_spin, adjust_underflow,
}

-- Alice holds the lock and Carol is parked, all outside of segments.
abbrev one_parked : Run 3 false
one_parked =
    play (omega arith)
      (steps 2 (go alice out) ++ steps 2 (go carol out) ++ go carol late ∷ steps 3 (go carol out))

mutual_exclusion_example : ◌≡◌ {A = ℕ} 0 0
unfolding play cycles_over mutex_create
mutual_exclusion_example =
    mutual_exclusion one_parked.reach 0 0 (omega arith) (omega arith) refl refl

-- Alice takes the lock at the second of the nine moves.
trace_parked :
    trace one_parked.reach
    ≡ silent ∷ silent ∷ silent ∷ silent ∷ silent ∷ silent ∷ takes 0 ∷ silent ∷ []
unfolding play cycles_over mutex_create
trace_parked = refl

trace-Runs_example :
    (o : Option ℕ) × Runs (trace one_parked.reach) o × Agrees 3 (holds one_parked.last) o
trace-Runs_example = trace-Runs one_parked.reach

all_can_finish_example :
    (t : System) × Prompts 3 one_parked.last t
    × ((i : ℕ) → i < 3 → t.pc i ≡ idle)
    × (locked_of t.mem.u ≡ 0)
all_can_finish_example = all_can_finish one_parked.reach

all_come_to_rest_example :
    (t : System) × Prompts 3 one_parked.last t
    × ((i : ℕ) → i < 3 → IsAtRest (t.pc i))
    × (locked_of t.mem.u ≡ 0)
all_come_to_rest_example = all_come_to_rest one_parked.reach

forgotten_for_good_example :
    (s : System) × Reach 3 true s
    × (sleeps (s.pc 2) ≡ 1)
    × (s.mem.u ≡ 0)
    × ((t : System) → Prompts 3 s t → t ≡ s)
forgotten_for_good_example = forgotten_for_good 3 (omega arith)

no_lost_wakeup_run : (i : ℕ) × (i < 3) × (0 < attends (one_parked.pc i))
unfolding play cycles_over mutex_create
no_lost_wakeup_run = no_lost_wakeup one_parked.reach 2 (omega arith) refl

-- The first move of Alice.
first_move : Inv 3 (record {
  mem = (move out mutex_create idle).0;
  pc = update (λ _. idle) 0 (move out mutex_create idle).1;
})
first_move =
    Step-Inv {r = false} {s = init} (run out 0 (omega arith) (not_wake idle refl) refl)
      (Reach-Inv {r = false} start)

forgotten_run :
    (s : System) × Reach 3 true s
    × (sleeps (s.pc 2) ≡ 1)
    × (s.mem.u ≡ 0)
    × ((i : ℕ) → i ≢ 2 → s.pc i ≡ idle)
forgotten_run = forgotten_sleeper 3 (omega arith)

abbrev marked : Mutex
marked = record { u = 257; ticks_spin = 8192; cnt_unlock = 0; cnt_wake = 0; flag = 0 }

unlock_returns_run :
    drive
      ((out, marked)
        ∷ (out, marked)
        ∷ (out, marked)
        ∷ (out, marked)
        ∷ (out, marked)
        ∷ (out, marked)
        ∷ [])
      check
    ≡ idle
unlock_returns_run =
    unlock_returns
      ((out, marked)
        ∷ (out, marked)
        ∷ (out, marked)
        ∷ (out, marked)
        ∷ (out, marked)
        ∷ (out, marked)
        ∷ [])
      check (omega arith) (omega arith)

abbrev free : Mutex
free = record marked { u = 0 }

alone_run :
    (alone 2 out free idle ≡ (record free { u = 1 }, held false))
    × (alone 5 out free idle ≡ (free, idle))
alone_run = lock-unlock out free refl refl

contended_run : alone 9 out marked (held false) ≡ (
  record (count_unlock marked) { u = 0; cnt_wake = ((count_unlock marked).cnt_wake + 1) % 2 ^ 32 },
  wake,
)
contended_run = contended_unlock out marked false refl

many_unlocks :
    (unlocks 2047 marked ≡ record marked { cnt_unlock = 0 + 2047 })
    × (unlocks 2048 marked ≡ adjust_spin_ticks (record marked { cnt_unlock = 0 + 2048 }))
many_unlocks = unlocks_period marked (omega arith) refl

quiet_adjustments : (adjustments 33 marked).ticks_spin ≡ (8192 + 33 * (2 ^ 32 - 256)) % 2 ^ 32
quiet_adjustments = adjustments-ticks_spin 33 marked refl (omega arith)

-- After 33 quiet adjustments the spin of a new lock has wrapped.
wrapped : (adjustments 33 marked).ticks_spin ≡ 2 ^ 32 - 256
unfolding adjustments adjust_spin_ticks
wrapped = refl

adjust_underflow_example : 2 ^ 64 - 257 < sub_u64 (2 ^ 64 - 1) 0
unfolding cycles_over adjust_spin_ticks
adjust_underflow_example =
    adjust_underflow (record marked { ticks_spin = 0 }) 0 (2 ^ 64 - 1) (omega arith) (omega arith)
      refl

-- A thread that finds the lock taken, and parks.
parks : sleeps (one_parked.pc 2) ≡ 1
unfolding play cycles_over mutex_create
parks = refl

-- ===== src/Bench/Destroyed.antt =====
-- Line 277 of litl/bench/bench_block.c: main destroys the lock and has waited for no thread.
use htll.Common.{ℕ, ◌+◌, ◌<◌, ◌≤◌, ◌≡◌, Bool, true, false}
use htll.Htll.Thread.{Input}
use htll.Bench.Access.{Area}
use htll.Bench.Threads.{Bench, Setup}
use htll.Bench.Threads
use htll.Bench.Run.{creating, at_start, born, at_barrier, Run, Reach}

abbrev call : Input
call = record { try = false; outside = true; now = 0 }

module _ (u : Setup) (n : ℕ) (r : Bool) (areas : ℕ → Area) where
  -- Main has created `k` threads, of which none has begun.
  record Created (k : ℕ) : Type 0 where
    run : Run
    reach : Reach u n r areas run
    main : run.main ≡ creating k
    arrived : run.arrived ≡ 0
    running : run.global_stop ≡ false
    bench : run.bench ≡ Threads.init areas
    workers : (j : ℕ) → j < k → run.worker j ≡ born

  -- Main and `k` of the threads have come to the barrier.
  record Gathered (k : ℕ) : Type 0 where
    run : Run
    reach : Reach u n r areas run
    main : run.main ≡ at_start
    arrived : run.arrived ≡ k + 1
    running : run.global_stop ≡ false
    bench : run.bench ≡ Threads.init areas
    there : (j : ℕ) → j < k → run.worker j ≡ at_barrier
    others : (j : ℕ) → k ≤ j → j < n → run.worker j ≡ born

  abbrev quiet : Run → Run
  quiet s = record s { bench = Threads.init areas }

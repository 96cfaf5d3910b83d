-- ===== src/Bench/Whole.antt =====
-- A whole run of litl/bench/bench_block.c is a run of its requests.
use htll.Common.{
  ltb, ◌≢◌, ℕ, ◌+◌, ◌*◌, ◌%◌, ◌^◌, ◌<◌, ◌≡◌, refl, arith, Bool, true, Bool-cases, inl, inr, update,
  u64,
}
use htll.Htll.Thread.{Pc, idle, held, move}
use htll.Htll.System
use htll.Bench.Access.{Area}
use htll.Bench.Threads.{thd_num, Bench, Setup, area_of}
use htll.Bench.Threads
use htll.Bench.Tally.{requests}
use htll.Bench.Counts.{no_lost_update}
use htll.Bench.Run.{
  creating, at_start, sleeping, stopped, adding, Worker, absent, at_barrier, testing, finished, Run,
  in_call, Step, creates, main_arrives, main_passes, stops, destroys, adds, arrives, passes, tests,
  locks, wakes_one, wakes_none, counts, works, unlocks, records, Reach, start, later,
}
use htll.Bench.Bodies.{
  Inv, was_out, moved, lock-Inv, main-Inv, creates-Inv, counts-Inv, works-Inv, unlocks-Inv,
  tests-Inv,
}

calling-not_held : (w : Worker) (p : Pc) → in_call w p ≡ true → (v : Bool) → p ≢ held v
calling-not_held w p call v e = ground arith

Step-Inv :
    {u : Setup} {n : ℕ} {r : Bool} {areas : ℕ → Area} {s t : Run}
    → Step u n r s t
    → Inv u n r areas s
    → Inv u n r areas t
Step-Inv (creates k lt small at) inv = creates-Inv inv k lt at
Step-Inv {s = s} (main_arrives at) inv =
    main-Inv inv at_start (s.arrived + 1) s.global_stop (λ k e. ground arith)
Step-Inv {s = s} (main_passes at all_there) inv =
    main-Inv inv sleeping s.arrived s.global_stop (λ k e. ground arith)
Step-Inv {s = s} (stops at) inv = main-Inv inv stopped s.arrived true (λ k e. ground arith)
Step-Inv {s = s} (destroys at) inv =
    main-Inv inv (adding 0 0) s.arrived s.global_stop (λ k e. ground arith)
Step-Inv {s = s} (adds i total lt at) inv =
    main-Inv inv (adding (i + 1) (u64 (total + s.bench.global_cnt i))) s.arrived s.global_stop
      (λ k e. ground arith)
Step-Inv {s = s} (arrives i lt at) inv =
    moved inv i at_barrier (was_out inv i at) lt (λ e. ground arith) (s.arrived + 1) s.record_cnt
Step-Inv {s = s} (passes i lt at all_there) inv =
    moved inv i testing (was_out inv i at) lt (λ e. ground arith) s.arrived s.record_cnt
Step-Inv (tests i lt at) inv = tests-Inv inv i lt at
Step-Inv {s = s} (locks x i lt call ok there ne) inv =
    lock-Inv inv
      (record {
        mem = (move x s.bench.lock.mem (s.bench.lock.pc i)).0;
        pc = update s.bench.lock.pc i (move x s.bench.lock.mem (s.bench.lock.pc i)).1;
      })
      (System.run x i lt ne ok)
      (λ j w e. ground (arith, calling-not_held (s.worker i) (s.bench.lock.pc i) there w))
Step-Inv {s = s} (wakes_one i j {q} li lj at a) inv =
    lock-Inv inv (record s.bench.lock { pc = update (update s.bench.lock.pc i idle) j q })
      (System.wake_one i j li lj at a) (λ k w e. ground arith)
Step-Inv {s = s} (wakes_none i lt at quiet) inv =
    lock-Inv inv (record s.bench.lock { pc = update s.bench.lock.pc i idle })
      (System.wake_none i lt at quiet) (λ k w e. ground arith)
Step-Inv (counts i {w} lt small at owner) inv = counts-Inv inv i w lt small at owner
Step-Inv (works i lt at) inv = works-Inv inv i lt at
Step-Inv (unlocks x i {w} lt ok at owner ended) inv = unlocks-Inv inv x i w lt ok at owner ended
Step-Inv {s = s} (records i lt at free) inv =
    moved inv i testing (was_out inv i at) lt (λ e. ground arith) s.arrived
      (update s.record_cnt i (s.record_cnt i + 1))

Reach-Inv :
    {u : Setup} {n : ℕ} {r : Bool} {areas : ℕ → Area} {s : Run}
    → Reach u n r areas s
    → Inv u n r areas s
Reach-Inv start = record {
  reach = Threads.start;
  outside = λ i. refl;
  fresh = λ k e j le. refl;
  others = λ j le. refl;
}
Reach-Inv (later reach step) = Step-Inv step (Reach-Inv reach)

-- When all threads of a whole run have returned, then word 7 of each variable of an area is, modulo
-- 2^64, what malloc had found there and twice the number of requests that the counters of the
-- threads of this area tell, wherever main stands.
pub finished_words :
    (u : Setup) (n : ℕ) {r : Bool} {areas : ℕ → Area} {s : Run}
    → Reach u n r areas s
    → ((i : ℕ) → i < n → s.worker i ≡ finished)
    → (a k : ℕ) → k < u.number a
    → s.bench.areas a (8 * k + 7) % 2 ^ 64
      ≡ (areas a (8 * k + 7) + 2 * requests u n a s.bench.global_cnt) % 2 ^ 64
finished_words u n {s = s} reach over a k less =
    let inv = Reach-Inv reach in
    no_lost_update u n inv.reach
      (λ i. elim (Bool-cases (ltb i n)) [
        | inl lt ↦ was_out inv i (over i (ground arith))
        | inr ge ↦ was_out inv i (inv.others i (ground arith))
      ])
      a k less

-- While main creates threads, those from `k` on do not exist.
pub creating-absent :
    {u : Setup} {n : ℕ} {r : Bool} {areas : ℕ → Area} {s : Run}
    → Reach u n r areas s
    → (k : ℕ) → s.main ≡ creating k
    → s.worker k ≡ absent
creating-absent reach k at = (Reach-Inv reach).fresh k at k (omega arith)

-- ===== src/Bench/Total.antt =====
-- The total that main of litl/bench/bench_block.c computes while threads still run (lines 272-279).
use htll.Common.{
  ap, sym, subst, ℕ, ◌+◌, ◌%◌, ◌^◌, ◌<◌, ◌≤◌, ◌≡◌, ◌≢◌, ltb, arith, Bool, true, Bool-cases, inl,
  inr, if◌then◌else◌, update, u64, refl, sum_over, sum_over-zero, sum_over-split, sum_over-update,
  sum_over-update_above, sum_over-add_one,
}
use htll.Bench.Access.{Area, Body}
use htll.Bench.Threads.{Bench, Setup}
use htll.Bench.Run.{
  Main, creating, at_start, sleeping, stopped, adding, Worker, born, at_barrier, testing,
  requesting, working, leaving, finished, Run, Step, creates, main_arrives, main_passes, stops,
  destroys, adds, arrives, passes, tests, locks, wakes_one, wakes_none, counts, works, unlocks,
  records, Reach, start, later,
}

-- A request that is begun and not counted yet.
abbrev pub owed : Worker → ℕ
owed requesting = 1
owed _ = 0

abbrev pub number : ℕ → ℕ
number c = c

-- The sum over the first `i` threads misses at most the requests that these have counted since
-- they were added, and each of them has at most one to count.
record Lags (i total : ℕ) (worker : ℕ → Worker) (cnt : ℕ → ℕ) : Type 0 where
  missed : ℕ
  few : missed + sum_over owed i worker ≤ i
  sums : (total + missed) % 2 ^ 64 ≡ sum_over number i cnt % 2 ^ 64

record Inv (s : Run) : Type 0 where
  told : (i total : ℕ) → s.main ≡ adding i total → s.global_stop ≡ true
  told_stopped : s.main ≡ stopped → s.global_stop ≡ true
  lags : (i total : ℕ) → s.main ≡ adding i total → Lags i total s.worker s.bench.global_cnt

-- The worker of one thread changes, and it does not begin a request.
worker-Lags :
    (i total k : ℕ) (worker : ℕ → Worker) (cnt : ℕ → ℕ) (w : Worker)
    → owed w ≤ owed (worker k)
    → Lags i total worker cnt
    → Lags i total (update worker k w) cnt
worker-Lags i total k worker cnt w less l = record {
  missed = l.missed;
  few = elim (Bool-cases (ltb k i)) [
    | inl among ↦ omega (
      arith,
      l.few,
      sum_over-update owed i k worker w (ground arith),
      sum_over-split owed i k worker (ground arith),
    )
    | inr above ↦ omega (arith, l.few, sum_over-update_above owed i k worker w (ground arith))
  ];
  sums = l.sums;
}

-- A thread counts its request.
counts-Lags :
    (i total k : ℕ) (worker : ℕ → Worker) (cnt : ℕ → ℕ)
    → worker k ≡ requesting
    → Lags i total worker cnt
    → Lags i total (update worker k working) (update cnt k (u64 (cnt k + 1)))
counts-Lags i total k worker cnt at l = elim (Bool-cases (ltb k i)) [
  | inl among ↦
      let lt : k < i = ground arith in
      record {
        missed = l.missed + 1;
        few = omega (
          arith,
          l.few,
          sum_over-update owed i k worker working lt,
          sum_over-split owed i k worker lt,
          ap owed at,
        );
        sums = omega (
          arith,
          l.sums,
          sum_over-update number i k cnt (u64 (cnt k + 1)) lt,
          sum_over-split number i k cnt lt,
        );
      }
  | inr beyond ↦ record {
    missed = l.missed;
    few = omega (arith, l.few, sum_over-update_above owed i k worker working (ground arith));
    sums =
        omega
          (arith, l.sums, sum_over-update_above number i k cnt (u64 (cnt k + 1)) (ground arith));
  }
]

owed-le : (w : Worker) → owed w ≤ 1
owed-le w = ground arith

-- Main adds the counter of the next thread.
adds-Lags :
    (i total : ℕ) (worker : ℕ → Worker) (cnt : ℕ → ℕ)
    → Lags i total worker cnt
    → Lags (i + 1) (u64 (total + cnt i)) worker cnt
adds-Lags i total worker cnt l = record {
  missed = l.missed;
  few = omega (arith, l.few, sum_over-add_one owed i worker, owed-le (worker i));
  sums = omega (arith, l.sums, sum_over-add_one number i cnt);
}

module _ {s : Run} (inv : Inv s) where
  worker-Inv :
      (k : ℕ) (w : Worker) (arrived : ℕ) (record_cnt : ℕ → ℕ)
      → (s.global_stop ≡ true → owed w ≤ owed (s.worker k))
      → Inv (record s { worker = update s.worker k w; arrived = arrived; record_cnt = record_cnt })
  worker-Inv k w arrived record_cnt less = record {
    told = inv.told;
    told_stopped = inv.told_stopped;
    lags = λ i total at.
        worker-Lags i total k s.worker s.bench.global_cnt w (less (inv.told i total at))
          (inv.lags i total at);
  }

  -- Main goes on in front of the sum.
  main-Inv :
      (m : Main) (arrived : ℕ) (stop : Bool)
      → ((i total : ℕ) → m ≢ adding i total)
      → (m ≡ stopped → stop ≡ true)
      → Inv (record s { main = m; arrived = arrived; global_stop = stop })
  main-Inv m arrived stop before told = record {
    told = λ i total at. absurd (before i total at);
    told_stopped = told;
    lags = λ i total at. absurd (before i total at);
  }

  destroys-Inv : s.main ≡ stopped → Inv (record s { main = adding 0 0 })
  destroys-Inv at = record {
    told = λ i total e. inv.told_stopped at;
    told_stopped = λ e. absurd (ground arith);
    lags = λ i total e. none_added i total e;
  }
    where
      none_added :
          (i total : ℕ) → adding 0 0 ≡ adding i total → Lags i total s.worker s.bench.global_cnt
      none_added i total e =
          let none_yet : i ≡ 0 = ground arith in
          let no_total : total ≡ 0 = ground arith in
          rw (none_yet, no_total)
            (record {
              missed = 0;
              few = omega (arith, sum_over-zero owed 0 s.worker (λ j lt. elim lt [ ]));
              sums = omega (arith, sum_over-zero number 0 s.bench.global_cnt (λ j lt. elim lt [ ]));
            })

  adds-Inv :
      (k total : ℕ)
      → s.main ≡ adding k total
      → Inv (record s { main = adding (k + 1) (u64 (total + s.bench.global_cnt k)) })
  adds-Inv k total at = record {
    told = λ i t e. inv.told k total at;
    told_stopped = λ e. absurd (ground arith);
    lags = λ i t e.
        let next : k + 1 ≡ i = ground arith in
        let new_total : u64 (total + s.bench.global_cnt k) ≡ t = ground arith in
        rw (sym next, sym new_total)
          (adds-Lags k total s.worker s.bench.global_cnt (inv.lags k total at));
  }

  counts-Inv :
      (k : ℕ) (body : ℕ → Body)
      → s.worker k ≡ requesting
      → Inv (record s {
        worker = update s.worker k working;
        bench = record s.bench {
          global_cnt = update s.bench.global_cnt k (u64 (s.bench.global_cnt k + 1));
          body = body;
        };
      })
  counts-Inv k body at = record {
    told = inv.told;
    told_stopped = inv.told_stopped;
    lags = λ i total e. counts-Lags i total k s.worker s.bench.global_cnt at (inv.lags i total e);
  }

  -- Memory, the lock and the bodies are not part of it.
  bench-Inv : (b : Bench) → b.global_cnt ≡ s.bench.global_cnt → Inv (record s { bench = b })
  bench-Inv b same = record {
    told = inv.told;
    told_stopped = inv.told_stopped;
    lags = λ i total e. subst (Lags i total s.worker) (sym same) (inv.lags i total e);
  }

tested : (stop : Bool) → stop ≡ true → owed (if stop then finished else requesting) ≡ 0
tested stop e = rw e refl

Step-Inv : {u : Setup} {n : ℕ} {r : Bool} {s t : Run} → Step u n r s t → Inv s → Inv t
Step-Inv {s = s} (creates k lt small at) inv =
    main-Inv (worker-Inv inv k born s.arrived s.record_cnt (λ _. omega arith)) (creating (k + 1))
      s.arrived s.global_stop (λ i total e. ground arith) (λ e. absurd (ground arith))
Step-Inv {s = s} (main_arrives at) inv =
    main-Inv inv at_start (s.arrived + 1) s.global_stop (λ i total e. ground arith)
      (λ e. absurd (ground arith))
Step-Inv {s = s} (main_passes at all_there) inv =
    main-Inv inv sleeping s.arrived s.global_stop (λ i total e. ground arith)
      (λ e. absurd (ground arith))
Step-Inv {s = s} (stops at) inv =
    main-Inv inv stopped s.arrived true (λ i total e. ground arith) (λ e. refl)
Step-Inv (destroys at) inv = destroys-Inv inv at
Step-Inv (adds k total lt at) inv = adds-Inv inv k total at
Step-Inv {s = s} (arrives k lt at) inv =
    worker-Inv inv k at_barrier (s.arrived + 1) s.record_cnt (λ _. omega arith)
Step-Inv {s = s} (passes k lt at all_there) inv =
    worker-Inv inv k testing s.arrived s.record_cnt (λ _. omega arith)
Step-Inv {s = s} (tests k lt at) inv =
    worker-Inv inv k (if s.global_stop then finished else requesting) s.arrived s.record_cnt
      (λ stop. omega (arith, tested s.global_stop stop))
Step-Inv {s = s} (locks x i lt call ok there ne) inv = bench-Inv inv _ refl
Step-Inv (wakes_one i j li lj at a) inv = bench-Inv inv _ refl
Step-Inv (wakes_none i lt at quiet) inv = bench-Inv inv _ refl
Step-Inv (counts k lt small at owner) inv = counts-Inv inv k _ at
Step-Inv (works k lt at) inv = bench-Inv inv _ refl
Step-Inv {s = s} (unlocks x k lt ok at owner ended) inv =
    worker-Inv (bench-Inv inv _ refl) k leaving s.arrived s.record_cnt (λ _. omega arith)
Step-Inv {s = s} (records k lt at free) inv =
    worker-Inv inv k testing s.arrived (update s.record_cnt k (s.record_cnt k + 1))
      (λ _. omega arith)

Reach-Inv :
    {u : Setup} {n : ℕ} {r : Bool} {areas : ℕ → Area} {s : Run} → Reach u n r areas s → Inv s
Reach-Inv start = record {
  told = λ i total e. absurd (ground arith);
  told_stopped = λ e. absurd (ground arith);
  lags = λ i total e. absurd (ground arith);
}
Reach-Inv (later reach step) = Step-Inv step (Reach-Inv reach)

-- The total that main prints is, modulo 2^64, behind the counters of the threads by at most one
-- request for each thread, at any time from the end of the sum on: main does not wait for the
-- threads, but each of them counts at most one request when it has been told to stop.
pub total_lags :
    {u : Setup} {n : ℕ} {r : Bool} {areas : ℕ → Area} {s : Run}
    → Reach u n r areas s
    → (total : ℕ) → s.main ≡ adding n total
    → (missed : ℕ) × (missed ≤ n)
      × ((total + missed) % 2 ^ 64 ≡ sum_over number n s.bench.global_cnt % 2 ^ 64)
total_lags {n = n} reach total at =
    let l = (Reach-Inv reach).lags n total at in (l.missed, omega (arith, l.few), l.sums)

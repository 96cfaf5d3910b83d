-- ===== src/Bench/Barrier.antt =====
-- The barrier of litl/bench/bench_block.c (lines 161 and 269).
use htll.Common.{
  ap, sym, u64, ◌∙◌, ℕ, ◌+◌, ◌<◌, ◌≤◌, ◌≡◌, ◌≢◌, ◌==◌, arith, Bool, true, false, Bool-cases, inl,
  inr, if◌then◌else◌, update, sum_over, sum_over-split, sum_over-update, sum_over-zero, sum_but-lt,
  sum_over-le_count, refl,
}
use htll.Bench.Access.{Area}
use htll.Bench.Threads.{Setup}
use htll.Bench.Whole.{creating-absent}
use htll.Bench.Run.{
  Main, creating, at_start, sleeping, stopped, adding, Worker, absent, born, at_barrier, testing,
  requesting, working, leaving, finished, Run, Step, creates, main_arrives, main_passes, stops,
  destroys, adds, arrives, passes, tests, locks, wakes_one, wakes_none, counts, works, unlocks,
  records, Reach, start, later,
}

-- Who has called pthread_barrier_wait.
abbrev pub there : Worker → ℕ
there absent = 0
there born = 0
there _ = 1

abbrev pub main_there : Main → ℕ
main_there (creating _) = 0
main_there _ = 1

-- Behind the barrier.
abbrev pub beyond : Worker → Bool
beyond absent = false
beyond born = false
beyond at_barrier = false
beyond _ = true

there-le : (w : Worker) → there w ≤ 1
there-le w = ground arith

record Inv (n : ℕ) (s : Run) : Type 0 where
  tally : s.arrived ≡ main_there s.main + sum_over there n s.worker
  full : (i : ℕ) → beyond (s.worker i) ≡ true → s.arrived ≡ n + 1

module _ {n : ℕ} {s : Run} (inv : Inv n s) where
  -- Who is missing keeps the barrier shut.
  thread_missing : (i : ℕ) → i < n → there (s.worker i) ≡ 0 → s.arrived < n + 1
  thread_missing i lt missing = omega (
    arith,
    inv.tally,
    sum_over-split there n i s.worker lt,
    sum_but-lt there n i s.worker there-le lt,
    main_one s.main,
  )
    where
      main_one : (m : Main) → main_there m ≤ 1
      main_one m = ground arith

  main_missing : main_there s.main ≡ 0 → s.arrived < n + 1
  main_missing missing = omega (arith, inv.tally, sum_over-le_count there n s.worker there-le)

  -- A thread goes on, and neither it nor main comes to the barrier.
  thread-Inv :
      (i : ℕ) (w : Worker) (t : Run)
      → i < n
      → t.worker ≡ update s.worker i w
      → t.arrived ≡ s.arrived
      → main_there t.main ≡ main_there s.main
      → there w ≡ there (s.worker i)
      → (beyond w ≡ true → s.arrived ≡ n + 1)
      → Inv n t
  thread-Inv i w t lt ew ea em same fits = record {
    tally = rw ew (
        omega (
          arith,
          inv.tally,
          sum_over-update there n i s.worker w lt,
          sum_over-split there n i s.worker lt,
        ));
    full = λ j b. ea ∙ elim (Bool-cases (i == j)) [
      | inl here ↦ fits (ground arith)
      | inr other ↦ inv.full j (ground arith)
    ];
  }

  -- What a thread was tells whether it had come to the barrier.
  went :
      (i : ℕ) {v : Worker} (w : Worker)
      → s.worker i ≡ v
      → there w ≡ there v
      → there w ≡ there (s.worker i)
  went i w at same = same ∙ ap there (sym at)

  was_beyond : (i : ℕ) {v : Worker} → s.worker i ≡ v → beyond v ≡ true → s.arrived ≡ n + 1
  was_beyond i at b = inv.full i (ap beyond at ∙ b)

  arrives-Inv :
      (i : ℕ)
      → i < n
      → s.worker i ≡ born
      → Inv n (record s { worker = update s.worker i at_barrier; arrived = s.arrived + 1 })
  arrives-Inv i lt at = record {
    tally = omega (
      arith,
      inv.tally,
      sum_over-update there n i s.worker at_barrier lt,
      sum_over-split there n i s.worker lt,
      ap there at,
    );
    full = λ j b. elim (Bool-cases (i == j)) [
      | inl here ↦ absurd (ground arith)
      | inr other ↦
          absurd (omega (arith, thread_missing i lt (ap there at), inv.full j (ground arith)))
    ];
  }

  main_arrives-Inv :
      (k : ℕ) → s.main ≡ creating k → Inv n (record s { main = at_start; arrived = s.arrived + 1 })
  main_arrives-Inv k at = record {
    tally = omega (arith, inv.tally, ap main_there at);
    full = λ j b. absurd (omega (arith, main_missing (ap main_there at), inv.full j b));
  }

  creates-Inv :
      (k : ℕ)
      → k < n
      → s.main ≡ creating k
      → s.worker k ≡ absent
      → Inv n (record s { main = creating (k + 1); worker = update s.worker k born })
  creates-Inv k lt at new =
      thread-Inv k born _ lt refl refl (ap main_there (sym at)) (went k born new refl)
        (λ b. absurd (ground arith))

  -- Main goes on, and does not come to the barrier.
  main-Inv :
      (m : Main) (stop : Bool)
      → main_there m ≡ main_there s.main
      → Inv n (record s { main = m; global_stop = stop })
  main-Inv m stop same = record { tally = omega (arith, inv.tally, same); full = inv.full }

tested : (stop : Bool) → there (if stop then finished else requesting) ≡ 1
tested true = refl
tested false = refl

Step-Inv :
    {u : Setup} {n : ℕ} {r : Bool} {areas : ℕ → Area} {s t : Run}
    → Reach u n r areas s
    → Step u n r s t
    → Inv n s
    → Inv n t
Step-Inv reach (creates k lt small at) inv = creates-Inv inv k lt at (creating-absent reach k at)
Step-Inv reach (main_arrives at) inv = main_arrives-Inv inv _ at
Step-Inv {s = s} reach (main_passes at all_there) inv =
    main-Inv inv sleeping s.global_stop (ap main_there (sym at))
Step-Inv reach (stops at) inv = main-Inv inv stopped true (ap main_there (sym at))
Step-Inv {s = s} reach (destroys at) inv =
    main-Inv inv (adding 0 0) s.global_stop (ap main_there (sym at))
Step-Inv {s = s} reach (adds i total lt at) inv =
    main-Inv inv (adding (i + 1) (u64 (total + s.bench.global_cnt i))) s.global_stop
      (ap main_there (sym at))
Step-Inv reach (arrives i lt at) inv = arrives-Inv inv i lt at
Step-Inv reach (passes i lt at all_there) inv =
    thread-Inv inv i testing _ lt refl refl refl (went inv i testing at refl) (λ _. all_there)
Step-Inv {s = s} reach (tests i lt at) inv =
    thread-Inv inv i (if s.global_stop then finished else requesting) _ lt refl refl refl
      (went inv i (if s.global_stop then finished else requesting) at (tested s.global_stop))
      (λ _. was_beyond inv i at refl)
Step-Inv reach (locks x i lt call ok there ne) inv = record { tally = inv.tally; full = inv.full }
Step-Inv reach (wakes_one i j li lj at a) inv = record { tally = inv.tally; full = inv.full }
Step-Inv reach (wakes_none i lt at quiet) inv = record { tally = inv.tally; full = inv.full }
Step-Inv reach (counts i lt small at owner) inv =
    thread-Inv inv i working _ lt refl refl refl (went inv i working at refl)
      (λ _. was_beyond inv i at refl)
Step-Inv reach (works i lt at) inv = record { tally = inv.tally; full = inv.full }
Step-Inv reach (unlocks x i lt ok at owner ended) inv =
    thread-Inv inv i leaving _ lt refl refl refl (went inv i leaving at refl)
      (λ _. was_beyond inv i at refl)
Step-Inv reach (records i lt at free) inv =
    thread-Inv inv i testing _ lt refl refl refl (went inv i testing at refl)
      (λ _. was_beyond inv i at refl)

Reach-Inv :
    {u : Setup} {n : ℕ} {r : Bool} {areas : ℕ → Area} {s : Run} → Reach u n r areas s → Inv n s
Reach-Inv {n = n} start = record {
  tally = omega (arith, sum_over-zero there n (λ _. absent) (λ i lt. refl));
  full = λ i b. absurd (ground arith);
}
Reach-Inv (later reach step) = Step-Inv reach step (Reach-Inv reach)

-- As soon as a thread is behind the barrier, main has created all threads, and all of them have
-- come to the barrier: none begins a request while another does not exist yet.
pub all_there :
    {u : Setup} {n : ℕ} {r : Bool} {areas : ℕ → Area} {s : Run}
    → Reach u n r areas s
    → (i : ℕ) → beyond (s.worker i) ≡ true
    → ((k : ℕ) → s.main ≢ creating k) × ((j : ℕ) → j < n → there (s.worker j) ≡ 1)
all_there {n = n} {s = s} reach i b =
    let inv = Reach-Inv reach in
    (
      λ k at. absurd (omega (arith, main_missing inv (ap main_there at), inv.full i b)),
      λ j lt. elim (Bool-cases (there (s.worker j) == 0)) [
        | inl missing ↦ absurd (omega (arith, thread_missing inv j lt (ground arith), inv.full i b))
        | inr came ↦ omega (arith, there-le (s.worker j), ne_zero (there (s.worker j)) came)
      ],
    )
  where
    ne_zero : (k : ℕ) → (k == 0) ≡ false → 0 < k
    ne_zero k e = ground arith

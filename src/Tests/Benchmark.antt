-- ===== src/Tests/Benchmark.antt =====
-- litl/bench/bench_block.c in concrete runs.
use htll.Common.{
  ℕ, ◌+◌, ◌*◌, ◌%◌, ◌^◌, ◌≡◌, refl, arith, false, some, List, [], ◌∷◌, ◌==◌, if◌then◌else◌, update,
  Bool-cases, inl, inr, u64, pos, ok, fault, out_of_bounds, replicate, map, get_elem?, length, leb,
}
use htll.Htll.Mutex.{Mutex, mutex_create}
use htll.Htll.Thread.{idle, held, move}
use htll.Htll.System
use htll.Htll.Schedule.{out, not_wake}
use htll.Segment.State.{initial, thread_start}
use htll.Segment.Nesting.{IsLocal}
use htll.Bench.Access.{Area, Body, head, access_move}
use htll.Bench.Threads
use htll.Bench.Threads.{Bench, Setup, area_of, locks, begins, works, unlocks, init}
use htll.Htll.Release.{alone}
use htll.Bench.Request.{LockCalls, Settings, Machine, Stamps, request_normal, run_requests}
use htll.Bench.Requests.{IsMachine, IsFree, Requested, request_normal-Requested}
use htll.Bench.Durations.{duration, IsReady, run_requests_overrun}
use htll.Bench.Main.{default_options, set_options, create_from, print_thread}
use htll.Bench.Reports.{handles, create_from-handles, report_lem}
use htll.Bench.Counts.{no_lost_update}
use htll.Bench.Tally.{requests}

abbrev setup : Setup
setup = record { number = λ a. 1; short_thread_number = 1 }

abbrev fives : ℕ → Area
fives _ _ = 5

abbrev before : Bench
before = init fives

abbrev turn : Bench → Bench
turn s = record s {
  lock = record {
    mem = (move out s.lock.mem (s.lock.pc 0)).0;
    pc = update s.lock.pc 0 (move out s.lock.mem (s.lock.pc 0)).1;
  };
}

abbrev started : Bench → Bench
started s = record s {
  global_cnt = update s.global_cnt 0 (u64 (s.global_cnt 0 + 1));
  body = update s.body 0 (head (setup.number (area_of setup 0)) (area_of setup 0) 0);
}

abbrev worked : Bench → Bench
worked s = record s {
  areas = (access_move setup.number s.areas (s.body 0)).0;
  body = update s.body 0 (access_move setup.number s.areas (s.body 0)).1;
}

abbrev left : Bench → Bench
left s = record s {
  lock = record {
    mem = (move out s.lock.mem (held false)).0;
    pc = update s.lock.pc 0 (move out s.lock.mem (held false)).1;
  };
  body = update s.body 0 Body.out;
}

abbrev in_lock : Bench
in_lock = turn (turn before)

abbrev busy : Bench
busy = worked (worked (worked (worked (started in_lock))))

takes : Threads.Reach setup 2 false fives in_lock
unfolding move mutex_create
takes =
    Threads.later
      (Threads.later Threads.start
        (locks (System.run out 0 (omega arith) (not_wake idle refl) refl) (λ i w e. ground arith)))
      (locks (System.run out 0 (omega arith) (λ e. cc) refl) (λ i w e. ground arith))

one_request : Threads.Reach setup 2 false fives (left busy)
unfolding move mutex_create access_move
one_request =
    Threads.later
      (Threads.later
        (Threads.later
          (Threads.later
            (Threads.later (Threads.later takes (begins 0 (omega arith) (omega arith) refl refl))
              (works 0 (omega arith)))
            (works 0 (omega arith)))
          (works 0 (omega arith)))
        (works 0 (omega arith)))
      (unlocks out 0 (omega arith) refl refl refl)

quiet : (i : ℕ) → (left busy).body i ≡ Body.out
quiet i = elim (Bool-cases (0 == i)) [ inl same ↦ rw same refl | inr other ↦ rw other refl ]

no_lost_update_run :
    (left busy).areas 0 (8 * 0 + 7) % 2 ^ 64
    ≡ (fives 0 (8 * 0 + 7) + 2 * requests setup 2 0 (left busy).global_cnt) % 2 ^ 64
unfolding access_move
no_lost_update_run = no_lost_update setup 2 one_request quiet 0 0 (omega arith)

-- One thread with the lock of htll.c, in its own memory.
abbrev calls : LockCalls Mutex
calls = record {
  lock = λ m. ok (alone 2 out m idle).0;
  unlock = λ m. ok (alone 3 out m (held false)).0;
}

abbrev settings : Settings
settings = record {
  short_number = 1;
  long_number = 2;
  short_thread_number = 1;
  target_latency = 1000;
}

abbrev machine : Machine Mutex
machine = record {
  segments = thread_start initial;
  memory = mutex_create;
  global_cnt = replicate 80 0;
  short_area = replicate 8 1;
  long_area = replicate 16 2;
}

machine-IsMachine : IsMachine calls settings machine
machine-IsMachine = record { short_fits = refl; long_fits = refl }

machine-IsFree : IsFree calls settings mutex_create
unfolding alone move mutex_create
machine-IsFree = record { taken = record mutex_create { u = 1 }; lock = refl; unlock = refl }

machine-IsLocal : IsLocal (thread_start initial)
unfolding thread_start
machine-IsLocal = record { segments = refl; stack = refl; current = refl }

machine-IsReady : IsReady calls settings 3 0 machine
unfolding thread_start
machine-IsReady = record {
  fits = machine-IsMachine;
  free = machine-IsFree;
  local = machine-IsLocal;
  room = omega arith;
  counter = refl;
}

abbrev stamps : Stamps
stamps = record { start = 10; before = 11; behind = 15; end_ = 40 }

request_normal-Requested_example :
    (s' : Machine Mutex) × (request_normal calls settings 3 stamps machine ≡ ok s')
    × Requested calls settings 3 0 machine s'
unfolding thread_start
request_normal-Requested_example =
    request_normal-Requested calls settings 3 0 stamps machine machine-IsMachine machine-IsFree
      machine-IsLocal (omega arith) refl

run_requests_overrun_example :
    run_requests calls settings 3 (stamps ∷ stamps ∷ []) 0 (0 ∷ []) machine ≡ fault out_of_bounds
run_requests_overrun_example =
    run_requests_overrun calls settings 3 (stamps ∷ stamps ∷ []) 0 0 (0 ∷ []) machine
      machine-IsReady (omega arith) (omega arith)

report_lem_example :
    (after : List ℕ) × (s' : Machine Mutex) × (c : ℕ) × (run_requests calls settings 3
        (stamps ∷ stamps ∷ [])
        0
        (0 ∷ 0 ∷ 0 ∷ [])
        machine
      ≡ ok (2, after, s'))
    × (get_elem? s'.global_cnt 3 ≡ some c)
    × (print_thread c after ≡ ok (map duration (stamps ∷ stamps ∷ [])))
report_lem_example =
    report_lem calls settings 3 (stamps ∷ stamps ∷ []) (0 ∷ 0 ∷ 0 ∷ []) machine machine-IsReady
      (omega arith) (omega arith)

abbrev tids : List ℕ
tids = replicate 80 0

create_from-handles_run : create_from (λ i. i + 100) 0 81 tids ≡ (
    if leb (0 + 81) (length tids)
    then ok (handles (λ i. i + 100) 0 81 tids)
    else fault out_of_bounds)
create_from-handles_run = create_from-handles (λ i. i + 100) 0 81 tids (omega arith)

-- The 81st thread has no handle.
too_many : create_from (λ i. i + 100) 0 81 tids ≡ fault out_of_bounds
unfolding create_from
too_many = refl

-- bench -t 8 -m 1 -t 16
settled :
    set_options default_options ((b't', pos 8) ∷ (b'm', pos 1) ∷ (b't', pos 16) ∷ [])
    ≡ ok (record default_options { nb_thread = pos 16 })
unfolding set_options
settled = refl

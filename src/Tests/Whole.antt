-- ===== src/Tests/Whole.antt =====
-- litl/bench/bench_block.c: a whole run with one thread.
use htll.Common.{
  ℕ, ◌+◌, ◌*◌, ◌%◌, ◌^◌, ◌<◌, ◌≤◌, ◌≡◌, ◌≢◌, refl, arith, true, false, update, sum_over, zero, suc,
}
use htll.Htll.Mutex.{mutex_create}
use htll.Htll.Thread.{idle, first, held, release, cas, Locals, Input, move}
use htll.Bench.Access.{Area, out, load_last, access_move}
use htll.Bench.Threads.{Setup}
use htll.Bench.Tally.{requests}
use htll.Bench.Run.{
  creating, at_start, adding, born, at_barrier, testing, requesting, working, leaving, finished,
  Run, put_lock, init, creates, main_arrives, main_passes, stops, destroys, adds, arrives, passes,
  tests, locks, counts, works, unlocks, records, Reach, start, later,
}
use htll.Bench.Barrier.{there, all_there}
use htll.Bench.Total.{number, total_lags}
use htll.Bench.Whole.{finished_words}

-- One variable in each area, and the thread in short critical sections.
abbrev setup : Setup
setup = record { number = λ _. 1; short_thread_number = 80 }

abbrev areas : ℕ → Area
areas = λ _ _. 7

abbrev call : Input
call = record { try = false; outside = true; now = 0 }

abbrev R : Run → Type 0
R = Reach setup 1 false areas

abbrev entered : Locals
entered = record { flag = true; spin_ticks = 8192; waited = false }

abbrev created : Run
created = record (init areas) { main = creating 1; worker = update (init areas).worker 0 born }

abbrev gathered : Run
gathered = record created {
  main = at_start;
  worker = update created.worker 0 at_barrier;
  arrived = 2;
}

-- The thread has left the barrier and begins a request.
abbrev begun : Run
begun = record gathered { worker = update (update gathered.worker 0 testing) 0 requesting }

begun-Reach : R begun
begun-Reach =
    later
      (later
        (later
          (later (later start (creates 0 (omega arith) (omega arith) refl)) (main_arrives refl))
          (arrives 0 (omega arith) refl))
        (passes 0 (omega arith) refl refl))
      (tests 0 (omega arith) refl)

all_there_run : ((k : ℕ) → begun.main ≢ creating k) × ((j : ℕ) → j < 1 → there (begun.worker j) ≡ 1)
all_there_run = all_there begun-Reach 0 refl

-- Main has computed its total, and the thread counts its request then.
abbrev summed : Run
summed = record begun { main = adding 1 0; global_stop = true }

summed-Reach : R summed
summed-Reach =
    later (later (later (later begun-Reach (main_passes refl refl)) (stops refl)) (destroys refl))
      (adds 0 0 (omega arith) refl)

abbrev owner : Run
owner = put_lock summed (record {
  mem = record mutex_create { u = 1 };
  pc = update (update (λ _. idle) 0 (first entered)) 0 (held false);
})

abbrev counted : Run
counted = record owner {
  worker = update owner.worker 0 working;
  bench = record owner.bench {
    global_cnt = update (λ _. 0) 0 1;
    body = update (λ _. out) 0 (load_last 0 0);
  };
}

counted-Reach : R counted
unfolding move mutex_create
counted-Reach =
    later
      (later (later summed-Reach (locks call 0 (omega arith) refl refl refl (λ e. cc)))
        (locks call 0 (omega arith) refl refl refl (λ e. cc)))
      (counts 0 (omega arith) (omega arith) refl refl)

total_lags_example :
    (missed : ℕ) × (missed ≤ 1)
    × ((0 + missed) % 2 ^ 64 ≡ sum_over number 1 counted.bench.global_cnt % 2 ^ 64)
total_lags_example = total_lags counted-Reach 0 refl

-- The thread runs access_variables to its end.
abbrev worked : Run → Run
worked s = record s {
  bench = record s.bench {
    areas = (access_move setup.number s.bench.areas (s.bench.body 0)).0;
    body = update s.bench.body 0 (access_move setup.number s.bench.areas (s.bench.body 0)).1;
  };
}

abbrev ready : Run
ready = worked (worked (worked (worked counted)))

ready-Reach : R ready
unfolding access_move
ready-Reach =
    later
      (later (later (later counted-Reach (works 0 (omega arith) refl)) (works 0 (omega arith) refl))
        (works 0 (omega arith) refl))
      (works 0 (omega arith) refl)

abbrev unlocked : Run
unlocked = record ready {
  worker = update ready.worker 0 leaving;
  bench = record ready.bench {
    lock = record {
      mem = record mutex_create { u = 1 };
      pc = update ready.bench.lock.pc 0 release;
    };
    body = update ready.bench.body 0 out;
  };
}

abbrev returned : Run
returned =
    put_lock unlocked
      (record { mem = mutex_create; pc = update (update unlocked.bench.lock.pc 0 cas) 0 idle })

abbrev over : Run
over = record returned {
  worker = update (update returned.worker 0 testing) 0 finished;
  record_cnt = update (λ _. 0) 0 1;
}

over-Reach : R over
unfolding move mutex_create access_move
over-Reach =
    later
      (later
        (later
          (later (later ready-Reach (unlocks call 0 (omega arith) refl refl refl refl))
            (locks call 0 (omega arith) refl refl refl (λ e. cc)))
          (locks call 0 (omega arith) refl refl refl (λ e. cc)))
        (records 0 (omega arith) refl refl))
      (tests 0 (omega arith) refl)

all_over : (i : ℕ) → i < 1 → over.worker i ≡ finished
all_over zero lt = refl
all_over (suc i) lt = absurd (omega arith)

finished_words_example :
    over.bench.areas 0 (8 * 0 + 7) % 2 ^ 64
    ≡ (areas 0 (8 * 0 + 7) + 2 * requests setup 1 0 over.bench.global_cnt) % 2 ^ 64
finished_words_example = finished_words setup 1 over-Reach all_over 0 0 (omega arith)

-- ===== src/Tests/Start.antt =====
-- The start of the library and of its threads in litl/src/interpose.c,
-- in concrete runs.
use htll.Common.{
  ℕ, ◌+◌, ◌≡◌, refl, arith, some, update, ok, fault, stopped, List, [], ◌∷◌, replicate,
  length-replicate, sum_over,
}
use htll.Interpose.Startup
use htll.Interpose.Startup.{
  Loader, outside, returned, init_move, take_id, lp_start_routine, Routine, get_node, max_threads,
}
use htll.Interpose.Once.{Starting, Reach, start, later, run, initialising, initialised_once}
use htll.Interpose.Ids.{
  take_ids, numbered, take_ids_lem, take_ids_stopped, lp_start_routine-get_node,
}

abbrev fresh : Loader
fresh = record { init_spinlock = 0; last_thread_id = 0; clears = 0 }

first_ids : take_ids 3 fresh ≡ ok (0 ∷ 1 ∷ 2 ∷ [], numbered 3 fresh)
first_ids = take_ids_lem 3 fresh (omega arith)

abbrev crowd : Loader
crowd = record { init_spinlock = 2; last_thread_id = 2047; clears = 1 }

crowd_is_stopped : take_ids 2 crowd ≡ fault stopped
crowd_is_stopped = take_ids_stopped 2 crowd (omega arith) (omega arith)

-- A thread that adds its argument to the program's state.
abbrev adds : Routine ℕ ℕ ℕ
adds = record { fct = λ a s. (a, s + a); arg = 5 }

started_thread :
    lp_start_routine (λ s. s) (λ s. s) adds crowd 10 ≡ ok ((2047, 5), (numbered 1 crowd, 15))
unfolding lp_start_routine take_id
started_thread = refl

abbrev contexts : List ℕ
contexts = replicate 2048 0

routine_node : (c : ℕ) × (get_node contexts 2047 ≡ some c)
routine_node =
    lp_start_routine-get_node (λ s. s) (λ s. s) adds crowd (numbered 1 crowd) 10 15 2047 5 contexts
      (length-replicate {A = ℕ} 2048 0) started_thread

-- Thread 0 initialises alone, in four moves.
abbrev last_state : Starting
last_state = record {
  loader = record { init_spinlock = 2; last_thread_id = 1; clears = 1 };
  pc =
      update
        (update
          (update (update (update (λ _. outside) 0 Startup.clearing) 0 Startup.numbering) 0
            (Startup.loading 0))
          0 returned)
        0 returned;
}

last_state-Reach : Reach 2 last_state
unfolding init_move take_id
last_state-Reach =
    later
      (later
        (later (later (later start (run 0 (omega arith) refl)) (run 0 (omega arith) refl))
          (run 0 (omega arith) refl))
        (run 0 (omega arith) refl))
      (run 0 (omega arith) refl)

initialised_once_example :
    (last_state.loader.clears ≡ 1)
    × (last_state.loader.init_spinlock ≡ 2)
    × (sum_over initialising 2 last_state.pc ≡ 0)
initialised_once_example = initialised_once last_state-Reach 0 (omega arith) refl

-- ===== src/Bench/Run.antt =====
-- A whole run of litl/bench/bench_block.c under `mode` 0: main (lines 264-279) and the threads in
-- `thread_routine_transparent` (lines 143-180), in any order. A wait at the barrier returns when
-- as many threads have called it as it was initialised for.
use htll.Common.{
  ℕ, ◌+◌, ◌<◌, ◌≡◌, ◌≢◌, Bool, true, false, ◌||◌, none, some, if◌then◌else◌, update, u64,
}
use htll.Htll.Thread.{Pc, idle, held, wake, Input, move, asleep}
use htll.Htll.System
use htll.Bench.Access.{Area, out, done, head, access_move}
use htll.Bench.Threads.{thd_num, Bench, Setup, area_of}
use htll.Bench.Threads as Threads

-- Where main stands.
pub data Main : Type 0 where
  creating : (i : ℕ) → Main  -- line 266, with `i`
  at_start : Main  -- in the wait of line 269
  sleeping : Main  -- line 271
  stopped : Main  -- line 277
  adding : (i total_cnt : ℕ) → Main  -- line 278; the loop ends at `nb_thread`

-- Where a thread stands.
pub data Worker : Type 0 where
  absent : Worker
  born : Worker  -- line 159
  at_barrier : Worker  -- in the wait of line 161
  testing : Worker  -- line 163
  requesting : Worker  -- in the request, up to the return of lock
  working : Worker  -- lines 129-134
  leaving : Worker  -- line 136 and behind it
  finished : Worker  -- line 179

pub record Run : Type 0 where
  pub main : Main
  pub worker : ℕ → Worker
  pub arrived : ℕ  -- calls of pthread_barrier_wait
  pub global_stop : Bool
  pub record_cnt : ℕ → ℕ
  pub bench : Bench

-- A thread makes the next move of its call of lock or unlock.
abbrev pub in_call : Worker → Pc → Bool
in_call requesting (held _) = false
in_call requesting _ = true
in_call leaving idle = false
in_call leaving (held _) = false
in_call leaving _ = true
in_call _ _ = false

abbrev pub put_lock : Run → System.System → Run
put_lock s t = record s { bench = record s.bench { lock = t } }

-- `n` is `nb_thread`. The array of handles has THD_NUM elements.
pub data Step (u : Setup) (n : ℕ) (reorder : Bool) (s : Run) : Run → Type 0 where
  creates :
      (k : ℕ)
      → k < n
      → k < thd_num
      → s.main ≡ creating k
      → Step u n reorder s (record s { main = creating (k + 1); worker = update s.worker k born })
  main_arrives :
      s.main ≡ creating n
      → Step u n reorder s (record s { main = at_start; arrived = s.arrived + 1 })
  main_passes :
      s.main ≡ at_start → s.arrived ≡ n + 1 → Step u n reorder s (record s { main = sleeping })
  stops : s.main ≡ sleeping → Step u n reorder s (record s { main = stopped; global_stop = true })
  -- pthread_mutex_destroy, which waits for nobody.
  destroys : s.main ≡ stopped → Step u n reorder s (record s { main = adding 0 0 })
  adds :
      (i total_cnt : ℕ)
      → i < n
      → s.main ≡ adding i total_cnt
      → Step u n reorder s
          (record s { main = adding (i + 1) (u64 (total_cnt + s.bench.global_cnt i)) })
  arrives :
      (i : ℕ)
      → i < n
      → s.worker i ≡ born
      → Step u n reorder s
          (record s { worker = update s.worker i at_barrier; arrived = s.arrived + 1 })
  passes :
      (i : ℕ)
      → i < n
      → s.worker i ≡ at_barrier
      → s.arrived ≡ n + 1
      → Step u n reorder s (record s { worker = update s.worker i testing })
  tests :
      (i : ℕ)
      → i < n
      → s.worker i ≡ testing
      → Step u n reorder s
          (record s { worker = update s.worker i (if s.global_stop then finished else requesting) })
  locks :
      (x : Input) (i : ℕ)
      → i < n
      → x.try ≡ false
      → (x.outside || reorder) ≡ true
      → in_call (s.worker i) (s.bench.lock.pc i) ≡ true
      → s.bench.lock.pc i ≢ wake
      → Step u n reorder s (
          put_lock s (record {
            mem = (move x s.bench.lock.mem (s.bench.lock.pc i)).0;
            pc = update s.bench.lock.pc i (move x s.bench.lock.mem (s.bench.lock.pc i)).1;
          }))
  wakes_one :
      (i j : ℕ) {q : Pc}
      → i < n
      → j < n
      → s.bench.lock.pc i ≡ wake
      → asleep (s.bench.lock.pc j) ≡ some q
      → Step u n reorder s
          (put_lock s (record s.bench.lock { pc = update (update s.bench.lock.pc i idle) j q }))
  wakes_none :
      (i : ℕ)
      → i < n
      → s.bench.lock.pc i ≡ wake
      → ((j : ℕ) → j < n → asleep (s.bench.lock.pc j) ≡ none)
      → Step u n reorder s (put_lock s (record s.bench.lock { pc = update s.bench.lock.pc i idle }))
  -- Line 128, and the call of access_variables.
  counts :
      (i : ℕ) {w : Bool}
      → i < n
      → i < thd_num
      → s.worker i ≡ requesting
      → s.bench.lock.pc i ≡ held w
      → Step u n reorder s (record s {
        worker = update s.worker i working;
        bench = record s.bench {
          global_cnt = update s.bench.global_cnt i (u64 (s.bench.global_cnt i + 1));
          body = update s.bench.body i (head (u.number (area_of u i)) (area_of u i) 0);
        };
      })
  works :
      (i : ℕ)
      → i < n
      → s.worker i ≡ working
      → Step u n reorder s (record s {
        bench = record s.bench {
          areas = (access_move u.number s.bench.areas (s.bench.body i)).0;
          body = update s.bench.body i (access_move u.number s.bench.areas (s.bench.body i)).1;
        };
      })
  unlocks :
      (x : Input) (i : ℕ) {w : Bool}
      → i < n
      → (x.outside || reorder) ≡ true
      → s.worker i ≡ working
      → s.bench.lock.pc i ≡ held w
      → s.bench.body i ≡ done
      → Step u n reorder s (record s {
        worker = update s.worker i leaving;
        bench = record s.bench {
          lock = record {
            mem = (move x s.bench.lock.mem (held w)).0;
            pc = update s.bench.lock.pc i (move x s.bench.lock.mem (held w)).1;
          };
          body = update s.bench.body i out;
        };
      })
  -- Lines 173-177, behind the return of unlock.
  records :
      (i : ℕ)
      → i < n
      → s.worker i ≡ leaving
      → s.bench.lock.pc i ≡ idle
      → Step u n reorder s (record s {
        worker = update s.worker i testing;
        record_cnt = update s.record_cnt i (s.record_cnt i + 1);
      })

abbrev pub init : (ℕ → Area) → Run
init areas = record {
  main = creating 0;
  worker = λ _. absent;
  arrived = 0;
  global_stop = false;
  record_cnt = λ _. 0;
  bench = Threads.init areas;
}

pub data Reach (u : Setup) (n : ℕ) (reorder : Bool) (areas : ℕ → Area) : Run → Type 0 where
  start : Reach u n reorder areas (init areas)
  later : {s t : Run} → Reach u n reorder areas s → Step u n reorder s t → Reach u n reorder areas t

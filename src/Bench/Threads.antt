-- ===== src/Bench/Threads.antt =====
-- The threads of litl/bench/bench_block.c in `request_normal` (lines 117-141), over the lock of
-- litl/src/htll.c, in any order.
use htll.Common.{ℕ, ◌+◌, ◌<◌, ◌≡◌, Bool, ◌||◌, true, ltb, if◌then◌else◌, update, u64}
use htll.Htll.Thread.{held, Input, move}
use htll.Htll.System
use htll.Bench.Access.{Area, short_area, long_area, Body, out, done, head, access_move}

abbrev pub thd_num : ℕ
thd_num = 80

pub record Bench : Type 0 where
  pub lock : System.System
  pub body : ℕ → Body
  pub areas : ℕ → Area
  pub global_cnt : ℕ → ℕ

-- What main has set before the threads start. A negative number acts as 0 does.
pub record Setup : Type 0 where
  pub number : ℕ → ℕ  -- of variables of an area
  pub short_thread_number : ℕ

-- `tid < short_thread_number`
abbrev pub area_of : Setup → ℕ → ℕ
area_of u tid = if ltb tid u.short_thread_number then short_area else long_area

-- A thread with the lock increments its counter and calls access_variables, and calls unlock when
-- the function has returned. Otherwise the lock is as in Htll: a thread that holds it stays. A
-- thread has a counter only if its index is below THD_NUM.
pub data Step (u : Setup) (n : ℕ) (reorder : Bool) (s : Bench) : Bench → Type 0 where
  locks :
      {t : System.System}
      → System.Step n reorder s.lock t
      → ((i : ℕ) (w : Bool) → s.lock.pc i ≡ held w → t.pc i ≡ held w)
      → Step u n reorder s (record s { lock = t })
  begins :
      (i : ℕ) {w : Bool}
      → i < n
      → i < thd_num
      → s.lock.pc i ≡ held w
      → s.body i ≡ out
      → Step u n reorder s (record s {
        global_cnt = update s.global_cnt i (u64 (s.global_cnt i + 1));
        body = update s.body i (head (u.number (area_of u i)) (area_of u i) 0);
      })
  works :
      (i : ℕ)
      → i < n
      → Step u n reorder s (record s {
        areas = (access_move u.number s.areas (s.body i)).0;
        body = update s.body i (access_move u.number s.areas (s.body i)).1;
      })
  unlocks :
      (x : Input) (i : ℕ) {w : Bool}
      → i < n
      → s.lock.pc i ≡ held w
      → s.body i ≡ done
      → (x.outside || reorder) ≡ true
      → Step u n reorder s (record s {
        lock = record {
          mem = (move x s.lock.mem (held w)).0;
          pc = update s.lock.pc i (move x s.lock.mem (held w)).1;
        };
        body = update s.body i out;
      })

-- The contents of the areas are what malloc has found there.
abbrev pub init : (ℕ → Area) → Bench
init areas = record { lock = System.init; body = λ _. out; areas = areas; global_cnt = λ _. 0 }

pub data Reach (u : Setup) (n : ℕ) (reorder : Bool) (areas : ℕ → Area) : Bench → Type 0 where
  start : Reach u n reorder areas (init areas)
  later :
      {s t : Bench} → Reach u n reorder areas s → Step u n reorder s t → Reach u n reorder areas t

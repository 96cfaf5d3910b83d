-- ===== src/Tests/Tables.antt =====
-- The table of litl/src/interpose.c under interleaved calls, and a program over it.
use htll.Common.{
  List, [], zero, suc, Option, ◌∷◌, replicate, ℕ, ◌≡◌, ◌≢◌, refl, arith, true, false, some, update,
}
use htll.Interpose.Table.{my_hash}
use htll.Htll.Mutex.{mutex_create}
use htll.Htll.Thread.{Pc, move, idle, first}
use htll.Htll.Schedule.{out}
use htll.Concurrent.Slots.{
  Call, get_key, got, put_key, stored, refused, is_idle, Slots, table_move, System, init, moves,
  gets, puts,
}
use htll.Concurrent.Slots
use htll.Concurrent.Returns.{IsInside, drive, put_returns}
use htll.Concurrent.Agreement.{IsFound, lookups_agree}
use htll.Concurrent.Owners.{lookup-owner}
use htll.Concurrent.Program
use htll.Concurrent.Program.{Program, apart, using, table_step, finds, locks_move}
use htll.Htll.Abstract.{takes, silent, Runs, Agrees}
use htll.Concurrent.Refinement.{trace, mutex-Runs}
use htll.Concurrent.Exclusion.{IsReady, holds, mutex_exclusion}

abbrev mutex_a : ℕ
mutex_a = 0x7f00_1000

abbrev owner : ℕ → ℕ
owner _ = mutex_a

-- A move, and a call that begins.
abbrev go : ℕ → System → System
go a s = record {
  slots = (table_move s.slots (s.call a)).0;
  call = update s.call a (table_move s.slots (s.call a)).1;
}

abbrev begin : ℕ → Call → System → System
begin a c s = record { slots = s.slots; call = update s.call a c }

-- Thread 0 has inserted the lock 7.
abbrev inserted : System
inserted = go 0 (go 0 (go 0 (begin 0 (put_key mutex_a 7 0) init)))

inserting : Slots.Steps owner init inserted
unfolding table_move my_hash
inserting =
    Slots.next
      (Slots.next
        (Slots.next (Slots.next Slots.here (puts 0 mutex_a 7 refl (omega arith) (omega arith) refl))
          (moves 0))
        (moves 0))
      (moves 0)

-- Threads 1 and 2 look it up at the same time.
abbrev looked_up : System
looked_up =
    go 2 (go 1 (go 2 (go 1 (begin 2 (get_key mutex_a 0) (begin 1 (get_key mutex_a 0) inserted)))))

looking_up : Slots.Steps owner inserted looked_up
unfolding table_move my_hash
looking_up =
    Slots.next
      (Slots.next
        (Slots.next
          (Slots.next
            (Slots.next (Slots.next Slots.here (gets 1 mutex_a refl (omega arith)))
              (gets 2 mutex_a refl (omega arith)))
            (moves 1))
          (moves 2))
        (moves 1))
      (moves 2)

inserted_call : inserted.call 0 ≡ stored mutex_a 7 0
unfolding table_move my_hash
inserted_call = refl

found_1 : looked_up.call 1 ≡ got mutex_a (some 7)
unfolding table_move my_hash
found_1 = refl

found_2 : looked_up.call 2 ≡ got mutex_a (some 7)
unfolding table_move my_hash
found_2 = refl

-- Thread 1 has looked the mutex up, and then thread 0, which inserted it, does so too.
abbrev looked_up_once : System
looked_up_once = go 1 (go 1 (begin 1 (get_key mutex_a 0) inserted))

abbrev looked_up_twice : System
looked_up_twice = go 0 (go 0 (begin 0 (get_key mutex_a 0) looked_up_once))

first_lookup : IsFound owner inserted mutex_a 1 (some 7) looked_up_once
unfolding table_move my_hash
first_lookup = record {
  before = inserted;
  since = Slots.here;
  idle = refl;
  run = Slots.next (Slots.next Slots.here (moves 1)) (moves 1);
  result = refl;
}

second_begins : Slots.Steps owner looked_up_once (begin 0 (get_key mutex_a 0) looked_up_once)
unfolding table_move my_hash
second_begins = Slots.next Slots.here (gets 0 mutex_a refl (omega arith))

second_lookup : IsFound owner inserted mutex_a 0 (some 7) looked_up_twice
unfolding table_move my_hash
second_lookup = record {
  before = looked_up_once;
  since =
      Slots.next (Slots.next (Slots.next Slots.here (gets 1 mutex_a refl (omega arith))) (moves 1))
        (moves 1);
  idle = refl;
  run = Slots.next (Slots.next Slots.here (moves 0)) (moves 0);
  result = refl;
}

lookups_agree_example : (v : ℕ) × (v ≢ 0) × (some 7 ≡ some v) × (some 7 ≡ some v)
lookups_agree_example =
    lookups_agree inserting 0 inserted_call 1 0 first_lookup
      (Slots.next (Slots.next second_begins (moves 0)) (moves 0)) second_lookup

both : Slots.Steps owner init looked_up
unfolding table_move my_hash
both =
    Slots.next
      (Slots.next
        (Slots.next
          (Slots.next
            (Slots.next (Slots.next inserting (gets 1 mutex_a refl (omega arith)))
              (gets 2 mutex_a refl (omega arith)))
            (moves 1))
          (moves 2))
        (moves 1))
      (moves 2)

lookup-owner_run : owner 7 ≡ mutex_a
lookup-owner_run = lookup-owner owner both 1 found_1

abbrev ready : Program
ready = record { table = inserted; locks = λ _. mutex_create; work = λ _. apart }

ready-IsReady : IsReady owner mutex_a 0 ready
unfolding table_move my_hash
ready-IsReady = record {
  reached = inserting;
  impl = 7;
  index = 0;
  main = refl;
  others = λ a ne. ground arith;
  working = λ a. refl;
  new = λ v. refl;
}

-- Threads 1 and 2 look the lock up; thread 1 enters lock, and takes it.
abbrev after_lookups : Program
after_lookups = record ready { table = looked_up }

abbrev uses : ℕ → Program → Program
uses a s = record s { work = update s.work a (using mutex_a 7 idle) }

abbrev locks : ℕ → Pc → Program → Program
locks a q s = record s {
  locks = update s.locks 7 (move out (s.locks 7) q).0;
  work = update s.work a (using mutex_a 7 (move out (s.locks 7) q).1);
}

abbrev entered : Pc
entered = first (record { flag = true; spin_ticks = 1000; waited = false })

abbrev taken : Program
taken = locks 1 entered (locks 1 idle (uses 2 (uses 1 after_lookups)))

looking :
    {s : System}
    → Slots.Steps owner inserted s
    → Program.Steps owner 3 ready (record ready { table = s })
looking Slots.here = Program.here
looking (Slots.next r st) = Program.next (looking r) (table_step st)

taking : Program.Steps owner 3 ready taken
unfolding table_move my_hash move mutex_create
taking =
    Program.next
      (Program.next
        (Program.next
          (Program.next (looking looking_up) (finds 1 mutex_a 7 (omega arith) refl refl))
          (finds 2 mutex_a 7 (omega arith) refl refl))
        (locks_move out 1 (omega arith) refl refl))
      (locks_move out 1 (omega arith) refl refl)

taken_holds : holds mutex_a (taken.work 1) ≡ 1
unfolding table_move my_hash move mutex_create
taken_holds = refl

abbrev one : ℕ
one = 1

one_holder : one ≡ one
one_holder =
    mutex_exclusion 3 ready-IsReady taking one one (omega arith) (omega arith) taken_holds
      taken_holds

mutex-Runs_example :
    (o : Option ℕ) × Runs (trace mutex_a taking) o × Agrees 3 (λ k. holds mutex_a (taken.work k)) o
mutex-Runs_example = mutex-Runs 3 ready-IsReady taking

-- The last event is that thread 1 takes the lock.
traced : trace mutex_a taking ≡ takes 1 ∷ replicate 9 silent
unfolding taking looking looking_up table_move my_hash move mutex_create
traced = refl

-- A row in which every test and every compare-and-exchange finds another's key.
abbrev free_then_taken : ℕ → List Slots
free_then_taken zero = []
free_then_taken (suc k) =
    (λ h i. record { key = 0; value = 0 })
    ∷ (λ h i. record { key = 9; value = 5 })
    ∷ free_then_taken k

put_returns_example :
    IsInside (drive (free_then_taken 11) (put_key mutex_a 7 0))
    × (is_idle (drive (free_then_taken 11) (put_key mutex_a 7 0)) ≡ true)
put_returns_example = put_returns (free_then_taken 11) mutex_a 7 (omega arith)

-- It is refused.
refused_put : drive (free_then_taken 11) (put_key mutex_a 7 0) ≡ refused mutex_a 7
unfolding drive table_move my_hash
refused_put = refl

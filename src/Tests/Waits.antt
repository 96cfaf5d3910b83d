-- ===== src/Tests/Waits.antt =====
-- The condition variables of litl/src/htll.c at concrete states.
use htll.Common.{
  ℕ, ◌+◌, ◌*◌, ◌<◌, ◌≡◌, ◌⊎◌, inl, inr, refl, arith, true, false, none, [], ◌∷◌, ok, fault,
  out_of_bounds, pos, is_negative, ◌>>=◌,
}
use htll.Htll.Mutex.{Mutex, IsWord}
use htll.Htll.Thread
use htll.Htll.Thread.{Input}
use htll.Segment.State.{initial, segment_at}
use htll.Cond.Ops.{Cond, cond_signal, cond_broadcast, int_max}
use htll.Cond.Timeout.{Timespec, Timeval, relative, relative_lem, deadline_ns, clock_ns}
use htll.Cond.Wait.{Shared, sleep, sleeping, swap, unlocking, wait_move, awake}
use htll.Cond.Owners.{Keeps, wait_move-Keeps}
use htll.Cond.Signals.{notified_wait, signal, wait_binds}
use htll.Cond.Queues.{Sleepers, Takes, Performs, WakesOne, WakesAndMoves, signal-broadcast}
use htll.Cond.Outside.{wait_outside}
use htll.Cond.System.{System, Reach, start, later, starts, locks, calls, waits}
use htll.Segment.Ops.{segment_start}
use htll.Epoch.Lock.{local_move}
use htll.Cond.Exclusion.{holds, exclusion_with_waits}
use htll.Htll.Thread.{idle, held, move}
use htll.Htll.Mutex.{mutex_create, mutex_trylock}
use htll.Common.{false, update}

-- A lock that is held, at the address 64, and a condition variable bound to it.
abbrev taken : Mutex
taken = record { u = 1; ticks_spin = 1000; cnt_unlock = 0; cnt_wake = 0; flag = 0 }

abbrev bound : Cond
bound = record { m = 64; seq = 7 }

abbrev shared : Shared
shared = record { mem = taken; cond = bound; local = initial }

abbrev input : Input
input = record { try = false; outside = true; now = 0 }

abbrev clock_value : Timeval
clock_value = record { tv_sec = 100; tv_usec = 900000 }

abbrev deadline : Timespec
deadline = record { tv_sec = 102; tv_nsec = 300000000 }

-- 1.4 seconds are left.
left : relative deadline clock_value ≡ (pos 1, pos 400000000)
unfolding relative
left = refl

relative_lem_example :
    ((deadline_ns deadline < clock_ns clock_value)
      × (is_negative (relative deadline clock_value).0 ≡ true))
    ⊎ ((s : ℕ) × (n : ℕ) × (relative deadline clock_value ≡ (pos s, pos n))
        × (n < 1000000000)
        × (s * 1000000000 + n + clock_ns clock_value ≡ deadline_ns deadline))
relative_lem_example = relative_lem deadline clock_value (omega arith) (omega arith)

taken-IsWord : IsWord 1
taken-IsWord = omega arith

unlocking-Keeps :
    Keeps shared
      (unlocking 7 Thread.release)
      (wait_move 64 none input clock_value shared (unlocking 7 Thread.release))
unlocking-Keeps =
    wait_move-Keeps 64 none input clock_value shared (unlocking 7 Thread.release) taken-IsWord
      (omega arith)

-- The same condition variable after a signal.
abbrev signalled : Shared
signalled = record { mem = taken; cond = record { m = 64; seq = 8 }; local = initial }

one_signal : signalled.cond ≡ (cond_signal bound).0
unfolding cond_signal
one_signal = refl

notified_wait_example :
    wait_move 64 none input clock_value signalled (sleep 7) ≡ ok (signalled, awake none)
notified_wait_example =
    notified_wait 64 none input clock_value signalled bound (signal ∷ []) (omega arith)
      (omega arith) (omega arith) (omega arith) one_signal

-- Three threads sleep on `seq`, and one on the lock. The signal wakes the second, and the broadcast
-- the third.
abbrev sleepers : Sleepers
sleepers = record { on_seq = 3 ∷ 5 ∷ 4 ∷ []; on_word = update (λ _. []) 64 (9 ∷ []) }

abbrev after_signal : Sleepers
after_signal = record sleepers { on_seq = 3 ∷ 4 ∷ [] }

abbrev after_broadcast : Sleepers
after_broadcast = record { on_seq = []; on_word = update sleepers.on_word 64 (9 ∷ 5 ∷ 3 ∷ []) }

taken_second : Takes 1 (3 ∷ 5 ∷ 4 ∷ []) (5 ∷ []) (3 ∷ 4 ∷ [])
taken_second = record { sizes = refl; same = λ t. ground arith; most = omega arith; all = inl refl }

taken_third : Takes 1 (3 ∷ 5 ∷ 4 ∷ []) (4 ∷ []) (3 ∷ 5 ∷ [])
taken_third = record { sizes = refl; same = λ t. ground arith; most = omega arith; all = inl refl }

taken_others : Takes int_max (3 ∷ 5 ∷ []) (5 ∷ 3 ∷ []) []
taken_others = record { sizes = refl; same = λ t. ground arith; most = omega arith; all = inr refl }

signalled_one : Performs (cond_signal bound).1 sleepers (5 ∷ []) after_signal
unfolding cond_signal
signalled_one = (5 ∷ [], 3 ∷ 4 ∷ [], [], taken_second, (refl, refl), refl)

broadcast_all : Performs (cond_broadcast bound).1 sleepers (4 ∷ []) after_broadcast
unfolding cond_broadcast
broadcast_all =
    (4 ∷ [], 3 ∷ 5 ∷ [], 5 ∷ 3 ∷ [], [], [], taken_third, taken_others, (refl, refl), refl)

signal-broadcast_example :
    WakesOne sleepers (5 ∷ []) after_signal × WakesAndMoves 64 sleepers (4 ∷ []) after_broadcast
signal-broadcast_example =
    signal-broadcast bound sleepers after_signal after_broadcast (5 ∷ []) (4 ∷ []) (omega arith)
      (omega arith) (omega arith) signalled_one broadcast_all

binding : (shared.cond.m ≡ 64) × ((shared.cond.m ≡ 0) ⊎ (shared.cond.m ≡ shared.cond.m))
unfolding wait_move
binding = wait_binds 64 none input clock_value shared shared sleeping (swap 0) (λ e. refl) refl refl

wait_outside_run :
    (wait_move 64 none input clock_value shared (swap 0) >>= λ r.
    wait_move 64 none input clock_value r.0 r.1)
    ≡ fault out_of_bounds
wait_outside_run = wait_outside 64 0 none input clock_value shared refl refl

-- Thread 0 starts a segment, takes the lock, and waits; thread 1 takes the lock before the wait on
-- `seq` is over, so that thread 0 sleeps, marks its segment, and finds the lock free again when
-- thread 1 has unlocked it.
abbrev Reached : Type 0
Reached = (s : System) × Reach 2 64 initial s

abbrev waits_inside : Reached
unfolding move mutex_create mutex_trylock segment_start local_move wait_move
waits_inside = (
  _,
  later
      (later
        (later
          (later
            (later
              (later
                (later (later start (starts 0 (pos 3) 50 (omega arith) refl refl refl))
                  (locks true 0 0 (omega arith) refl refl))
                (calls none 0 (omega arith) refl))
              (waits input clock_value 0 (omega arith) refl refl))
            (waits input clock_value 0 (omega arith) refl refl))
          (waits input clock_value 0 (omega arith) refl refl))
        (waits input clock_value 0 (omega arith) refl refl))
      (waits input clock_value 0 (omega arith) refl refl),
)

abbrev asleep_on_seq : Reached
unfolding move mutex_create mutex_trylock segment_start local_move wait_move
asleep_on_seq = (
  _,
  later
      (later
        (later (later (waits_inside.1) (waits input clock_value 0 (omega arith) refl refl))
          (waits input clock_value 0 (omega arith) refl refl))
        (waits input clock_value 0 (omega arith) refl refl))
      (waits input clock_value 0 (omega arith) refl refl),
)

abbrev back_in_loop : Reached
unfolding move mutex_create mutex_trylock segment_start local_move wait_move
back_in_loop = (
  _,
  later
      (later
        (later
          (later (later (asleep_on_seq.1) (locks true 0 1 (omega arith) refl refl))
            (waits input clock_value 0 (omega arith) refl refl))
          (waits input clock_value 0 (omega arith) refl refl))
        (waits input clock_value 0 (omega arith) refl refl))
      (waits input clock_value 0 (omega arith) refl refl),
)

abbrev unlocked : Reached
unfolding move mutex_create mutex_trylock segment_start local_move wait_move
unlocked = (
  _,
  later
      (later
        (later (later (back_in_loop.1) (locks true 0 1 (omega arith) refl refl))
          (locks true 0 1 (omega arith) refl refl))
        (locks true 0 1 (omega arith) refl refl))
      (locks true 0 1 (omega arith) refl refl),
)

abbrev wait_over : Reached
unfolding move mutex_create mutex_trylock segment_start local_move wait_move
wait_over = (_, later (unlocked.1) (waits input clock_value 0 (omega arith) refl refl))

-- Thread 0 has been in the timed wait of the loop, behind which it has marked its segment.
segment_marked : (segment_at (wait_over.0.local 0) (pos 3) >>= λ g. ok g.has_waiter) ≡ ok 1
unfolding wait_over unlocked back_in_loop asleep_on_seq waits_inside move mutex_create mutex_trylock
    segment_start local_move wait_move
segment_marked = refl

-- Its wait has returned.
returned_with_lock : holds (wait_over.0.activity 0) ≡ 1
unfolding wait_over unlocked back_in_loop asleep_on_seq waits_inside move mutex_create mutex_trylock
    segment_start local_move wait_move
returned_with_lock = refl

exclusion_with_waits_example : ◌≡◌ {A = ℕ} 0 0
exclusion_with_waits_example =
    exclusion_with_waits wait_over.1 0 0 (omega arith) (omega arith) returned_with_lock
      returned_with_lock

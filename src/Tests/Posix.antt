-- ===== src/Tests/Posix.antt =====
-- litl/src/pthreadinterpose.c over a concrete C library in which one thread runs: its world is the
-- set of mutexes that are held.
use htll.Common.{
  ℕ, ◌≡◌, ◌⊎◌, ◌≢◌, refl, arith, Bool, true, false, some, if◌then◌else◌, ok, fault, stopped, update,
}
use htll.Pthread.Real.{Real, RealLaws, etimedout}
use htll.Pthread.Ops
use htll.Pthread.Ops.{InterposeMutex}
use htll.Pthread.Held
use htll.Pthread.Trylock
use htll.Pthread.Held.{Held, wait_result}

abbrev alone : Real
alone = record {
  World = ℕ → Bool;
  mutex_init = λ a w. (0, update w a false);
  mutex_destroy = λ a w. (0, w);
  mutex_lock = λ a w. (0, update w a true);
  mutex_trylock = λ a w. if w a then (16, w) else (0, update w a true);
  mutex_unlock = λ a w. (0, update w a false);
  cond_init = λ c w. (0, w);
  cond_destroy = λ c w. (0, w);
  cond_wait = λ c a w. (0, w);
  cond_timedwait = λ c a ts w. (110, w);
  cond_signal = λ c w. (0, w);
  cond_broadcast = λ c w. (0, w);
}

abbrev alone_laws : RealLaws alone
alone_laws = record {
  holds = λ w a. w a;
  lock_returns = λ a w h. refl;
  lock_holds = λ a b w h. refl;
  trylock_returns = λ a w h ne. rw h;
  trylock_busy = λ a b w h. ground arith;
  trylock_holds = λ a b w h. ground arith;
  unlock_returns = λ a w h. refl;
  unlock_holds = λ a b w h. refl;
  wait_holds = λ c a b w h. refl;
  timedwait_holds = λ c a ts b w h. refl;
}

abbrev impl : InterposeMutex
impl = record { lock = 64; posix_lock = 128 }

abbrev nothing : ℕ → Bool
nothing _ = false

abbrev both : ℕ → Bool
both = update (update nothing 64 true) 128 true

nothing-Held : Held alone alone_laws true impl false nothing
nothing-Held = record { outer = refl; inner = λ e. refl }

both-Held : Held alone alone_laws true impl true both
both-Held = record { outer = refl; inner = λ e. refl }

locks_both :
    (w : ℕ → Bool) × (Ops.mutex_lock true alone impl nothing ≡ ok (0, w))
    × Held alone alone_laws true impl true w
locks_both = Held.mutex_lock-Held alone alone_laws impl (omega arith) true nothing nothing-Held

unlocks_both :
    (w : ℕ → Bool) × (Ops.mutex_unlock true alone impl both ≡ ok w)
    × Held alone alone_laws true impl false w
unlocks_both = Held.mutex_unlock-Held alone alone_laws impl (omega arith) true both both-Held

cond_timedwait-Held_example :
    ((w : ℕ → Bool) × (Ops.cond_timedwait true alone 8 impl (some 5) both
        ≡ ok (wait_result alone alone_laws impl (omega arith) true 8 (some 5) both, w))
      × Held alone alone_laws true impl true w)
    ⊎ ((true ≡ true)
        × (wait_result alone alone_laws impl (omega arith) true 8 (some 5) both ≢ 0)
        × (wait_result alone alone_laws impl (omega arith) true 8 (some 5) both ≢ etimedout)
        × (Ops.cond_timedwait true alone 8 impl (some 5) both ≡ fault stopped))
cond_timedwait-Held_example =
    Held.cond_timedwait-Held alone alone_laws impl (omega arith) true 8 (some 5) both both-Held

-- The wait that times out returns ETIMEDOUT with both mutexes held.
timed_out :
    Ops.cond_timedwait true alone 8 impl (some 5) both
    ≡ ok (110, update (update (update (update both 64 false) 128 false) 64 true) 128 true)
unfolding Ops.cond_timedwait Ops.relock Ops.real_wait
timed_out = refl

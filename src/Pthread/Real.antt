-- ===== src/Pthread/Real.antt =====
-- The C library's own functions, which litl/src/interpose.c finds with `dlsym` and calls as
-- `REAL(...)`. They are not part of the repository: a section takes them as a parameter, and what
-- the code relies on as a second one.
use htll.Common.{ℕ, ◌≡◌, ◌≢◌, Bool, true, false, update}

-- Mutexes and condition variables are given by their addresses. Each function returns its `int`,
-- and what it and the other threads make of the world until it returns.
pub record Real : Type 1 where
  pub World : Type 0
  pub mutex_init : ℕ → World → ℕ × World
  pub mutex_destroy : ℕ → World → ℕ × World
  pub mutex_lock : ℕ → World → ℕ × World
  pub mutex_trylock : ℕ → World → ℕ × World
  pub mutex_unlock : ℕ → World → ℕ × World
  pub cond_init : ℕ → World → ℕ × World
  pub cond_destroy : ℕ → World → ℕ × World
  pub cond_wait : (cond mutex : ℕ) → World → ℕ × World
  pub cond_timedwait : (cond mutex ts : ℕ) → World → ℕ × World
  pub cond_signal : ℕ → World → ℕ × World
  pub cond_broadcast : ℕ → World → ℕ × World

abbrev pub ebusy : ℕ
ebusy = 16

abbrev pub etimedout : ℕ
etimedout = 110

-- What POSIX says of the mutexes that the calling thread holds, for mutexes that it uses
-- correctly: lock succeeds on a mutex that it does not hold, trylock too unless it returns EBUSY,
-- unlock succeeds on one that it holds, and a wait ends with the mutex held again.
pub record RealLaws (real : Real) : Type 0 where
  pub holds : real.World → ℕ → Bool
  pub lock_returns : (a : ℕ) (w : real.World) → holds w a ≡ false → (real.mutex_lock a w).0 ≡ 0
  pub lock_holds :
      (a b : ℕ) (w : real.World)
      → holds w a ≡ false
      → holds (real.mutex_lock a w).1 b ≡ update (holds w) a true b
  pub trylock_returns :
      (a : ℕ) (w : real.World)
      → holds w a ≡ false
      → (real.mutex_trylock a w).0 ≢ 16
      → (real.mutex_trylock a w).0 ≡ 0
  pub trylock_busy :
      (a b : ℕ) (w : real.World)
      → (real.mutex_trylock a w).0 ≡ 16
      → holds (real.mutex_trylock a w).1 b ≡ holds w b
  pub trylock_holds :
      (a b : ℕ) (w : real.World)
      → (real.mutex_trylock a w).0 ≡ 0
      → holds (real.mutex_trylock a w).1 b ≡ update (holds w) a true b
  pub unlock_returns : (a : ℕ) (w : real.World) → holds w a ≡ true → (real.mutex_unlock a w).0 ≡ 0
  pub unlock_holds :
      (a b : ℕ) (w : real.World)
      → holds w a ≡ true
      → holds (real.mutex_unlock a w).1 b ≡ update (holds w) a false b
  pub wait_holds :
      (c a b : ℕ) (w : real.World) → holds w a ≡ true → holds (real.cond_wait c a w).1 b ≡ holds w b
  pub timedwait_holds :
      (c a ts b : ℕ) (w : real.World)
      → holds w a ≡ true
      → holds (real.cond_timedwait c a ts w).1 b ≡ holds w b

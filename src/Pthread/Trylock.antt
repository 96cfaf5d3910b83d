-- ===== src/Pthread/Trylock.antt =====
-- trylock of litl/src/pthreadinterpose.c, and the loop in it.
use htll.Common.{ℕ, ◌≢◌, zero, suc}
use htll.Pthread.Real.{Real, RealLaws}
use htll.Pthread.Ops
use htll.Pthread.Ops.{InterposeMutex}
use htll.Pthread.Held.{Held}

module _ (real : Real) (laws : RealLaws real) where
  open real use {World}
  open laws use {holds}

  module _ (impl : InterposeMutex) (apart : impl.lock ≢ impl.posix_lock) where
    -- The world behind `k` calls of trylock on the second mutex.
    abbrev pub after_tries : ℕ → World → World
    after_tries zero w = w
    after_tries (suc k) w = after_tries k (real.mutex_trylock impl.posix_lock w).1

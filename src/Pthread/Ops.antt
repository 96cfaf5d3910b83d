-- ===== src/Pthread/Ops.antt =====
-- The functions of litl/src/pthreadinterpose.c, with the build's COND_VAR as a parameter.
use htll.Common.{
  ℕ, Bool, zero, suc, Option, none, some, ◌==◌, not, ◌&&◌, if◌then◌else◌, Outcome, ok, fault,
  stopped, endless,
}
use htll.Pthread.Real.{Real, ebusy, etimedout}

-- `pthread_interpose_mutex_t`: the addresses of its two mutexes. Without COND_VAR the second one
-- is not there.
pub record InterposeMutex : Type 0 where
  pub lock : ℕ
  pub posix_lock : ℕ

module _ (cond_var : Bool) (real : Real) where
  open real use {World}

  unfoldable pub mutex_create : InterposeMutex → World → World
  mutex_create impl w =
      let w₁ = (real.mutex_init impl.lock w).1 in
      if cond_var then (real.mutex_init impl.posix_lock w₁).1 else w₁

  -- `assert(ret == 0)` on the last result; the first one is lost with COND_VAR.
  unfoldable pub mutex_lock : InterposeMutex → World → Outcome (ℕ × World)
  mutex_lock impl w =
      let r = real.mutex_lock impl.lock w in
      let r' = if cond_var then real.mutex_lock impl.posix_lock r.1 else r in
      if r'.0 == 0 then ok (0, r'.1) else fault stopped

  -- The loop of lines 72-75, at most `fuel` times.
  unfoldable pub try_posix : ℕ → InterposeMutex → World → Outcome (ℕ × World)
  try_posix zero impl w = fault endless
  try_posix (suc fuel) impl w =
      let r = real.mutex_trylock impl.posix_lock w in
      let rest = try_posix fuel impl r.1 in
      if r.0 == ebusy then rest else if r.0 == 0 then ok (0, r.1) else fault stopped

  unfoldable pub mutex_trylock : ℕ → InterposeMutex → World → Outcome (ℕ × World)
  unfolding try_posix
  mutex_trylock fuel impl w =
      let r = real.mutex_trylock impl.lock w in
      if r.0 == ebusy
      then ok (ebusy, r.1)
      else if cond_var
      then try_posix fuel impl r.1
      else ok (0, r.1)

  unfoldable pub mutex_unlock : InterposeMutex → World → Outcome World
  mutex_unlock impl w =
      let r = if cond_var then real.mutex_unlock impl.posix_lock w else (0, w) in
      if r.0 == 0 then ok (real.mutex_unlock impl.lock r.1).1 else fault stopped

  -- The `free` of the structure is not modelled.
  unfoldable pub mutex_destroy : InterposeMutex → World → ℕ × World
  mutex_destroy impl w =
      let w₁ = if cond_var then (real.mutex_destroy impl.posix_lock w).1 else w in
      (0, (real.mutex_destroy impl.lock w₁).1)

  unfoldable pub cond_init : ℕ → World → ℕ × World
  cond_init cond w = real.cond_init cond w

  -- Lines 119-122 and 138-141: the wait itself, with a deadline or without.
  unfoldable pub real_wait : ℕ → ℕ → Option ℕ → World → ℕ × World
  real_wait cond mutex (some ts) w = real.cond_timedwait cond mutex ts w
  real_wait cond mutex none w = real.cond_wait cond mutex w

  -- Lines 130-136, behind the wait of the build with COND_VAR.
  unfoldable pub relock : InterposeMutex → ℕ → World → Outcome (ℕ × World)
  relock impl res w =
      let r = real.mutex_unlock impl.posix_lock w in
      let w₂ = (real.mutex_lock impl.lock r.1).1 in
      if r.0 == 0 then ok (res, (real.mutex_lock impl.posix_lock w₂).1) else fault stopped

  unfoldable pub cond_timedwait : ℕ → InterposeMutex → Option ℕ → World → Outcome (ℕ × World)
  unfolding real_wait relock
  cond_timedwait cond impl ts w =
      let w₁ = (real.mutex_unlock impl.lock w).1 in
      let r = real_wait cond impl.posix_lock ts w₁ in
      if cond_var
      then (if not (r.0 == 0) && not (r.0 == etimedout) then fault stopped else relock impl r.0 r.1)
      else ok (real_wait cond impl.lock ts w)

  unfoldable pub cond_wait : ℕ → InterposeMutex → World → Outcome (ℕ × World)
  unfolding cond_timedwait
  cond_wait cond impl w = cond_timedwait cond impl none w

  unfoldable pub cond_signal : ℕ → World → ℕ × World
  cond_signal cond w = real.cond_signal cond w

  unfoldable pub cond_broadcast : ℕ → World → ℕ × World
  cond_broadcast cond w = real.cond_broadcast cond w

  unfoldable pub cond_destroy : ℕ → World → ℕ × World
  cond_destroy cond w = real.cond_destroy cond w

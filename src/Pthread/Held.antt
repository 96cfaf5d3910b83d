-- ===== src/Pthread/Held.antt =====
-- Which of its two mutexes a thread holds around the functions of litl/src/pthreadinterpose.c.
use htll.Common.{
  ℕ, ◌≡◌, ◌≢◌, ◌⊎◌, inl, inr, refl, arith, Bool, true, false, Option, none, some, ◌==◌, not, ◌&&◌,
  ok, fault, stopped, Bool-cases, ◌∙◌,
}
use htll.Pthread.Real.{Real, RealLaws, etimedout}
use htll.Pthread.Ops
use htll.Pthread.Ops.{InterposeMutex}

module _ (real : Real) (laws : RealLaws real) where
  open real use {World}
  open laws use {holds}

  -- The thread holds both mutexes, or the one that there is, and whether it does is the flag.
  pub record Held (cond_var : Bool) (impl : InterposeMutex) (b : Bool) (w : World) : Type 0 where
    pub outer : holds w impl.lock ≡ b
    pub inner : cond_var ≡ true → holds w impl.posix_lock ≡ b

  module _ (impl : InterposeMutex) (apart : impl.lock ≢ impl.posix_lock) where
    other : (impl.lock == impl.posix_lock) ≡ false
    other = ground arith

    other' : (impl.posix_lock == impl.lock) ≡ false
    other' = ground arith

    then_free :
        (w : World)
        → Held true impl false w
        → holds (real.mutex_lock impl.lock w).1 impl.posix_lock ≡ false
    then_free w h = laws.lock_holds impl.lock impl.posix_lock w h.outer ∙ rw other (h.inner refl)

    lock_both :
        (w : World)
        → Held true impl false w
        → Held true impl true (real.mutex_lock impl.posix_lock (real.mutex_lock impl.lock w).1).1
    lock_both w h =
        let w₁ : World = (real.mutex_lock impl.lock w).1 in
        record {
          outer =
              laws.lock_holds impl.posix_lock impl.lock w₁ (then_free w h)
              ∙ rw (other', laws.lock_holds impl.lock impl.lock w h.outer) (ground arith);
          inner = λ e.
              laws.lock_holds impl.posix_lock impl.posix_lock w₁ (then_free w h) ∙ ground arith;
        }

    -- lock, called without the lock, returns 0 with it, in both builds.
    pub mutex_lock-Held :
        (cond_var : Bool) (w : World)
        → Held cond_var impl false w
        → (w' : World) × (Ops.mutex_lock cond_var real impl w ≡ ok (0, w'))
          × Held cond_var impl true w'
    unfolding Ops.mutex_lock
    mutex_lock-Held true w h = (
      (real.mutex_lock impl.posix_lock (real.mutex_lock impl.lock w).1).1,
      rw (laws.lock_returns impl.posix_lock (real.mutex_lock impl.lock w).1 (then_free w h)),
      lock_both w h,
    )
    mutex_lock-Held false w h = (
      (real.mutex_lock impl.lock w).1,
      rw (laws.lock_returns impl.lock w h.outer),
      record {
        outer = laws.lock_holds impl.lock impl.lock w h.outer ∙ ground arith;
        inner = λ e. absurd cc;
      },
    )

    -- unlock, called with the lock, succeeds and gives up both mutexes, in both builds.
    pub mutex_unlock-Held :
        (cond_var : Bool) (w : World)
        → Held cond_var impl true w
        → (w' : World) × (Ops.mutex_unlock cond_var real impl w ≡ ok w')
          × Held cond_var impl false w'
    unfolding Ops.mutex_unlock
    mutex_unlock-Held true w h =
        let w₁ : World = (real.mutex_unlock impl.posix_lock w).1 in
        let inner : holds w impl.posix_lock ≡ true = h.inner refl in
        let outer : holds w₁ impl.lock ≡ true =
          laws.unlock_holds impl.posix_lock impl.lock w inner ∙ rw other' h.outer in
        (
          (real.mutex_unlock impl.lock w₁).1,
          rw (laws.unlock_returns impl.posix_lock w inner),
          record {
            outer = laws.unlock_holds impl.lock impl.lock w₁ outer ∙ ground arith;
            inner = λ e.
                laws.unlock_holds impl.lock impl.posix_lock w₁ outer
                ∙ rw (other, laws.unlock_holds impl.posix_lock impl.posix_lock w inner)
                    (ground arith);
          },
        )
    mutex_unlock-Held false w h = (
      (real.mutex_unlock impl.lock w).1,
      refl,
      record {
        outer = laws.unlock_holds impl.lock impl.lock w h.outer ∙ ground arith;
        inner = λ e. absurd cc;
      },
    )

    real_wait-holds :
        (cond_var : Bool) (cond a b : ℕ) (ts : Option ℕ) (w : World)
        → holds w a ≡ true
        → holds (Ops.real_wait cond_var real cond a ts w).1 b ≡ holds w b
    unfolding Ops.real_wait
    real_wait-holds cond_var cond a b (some ts) w h = laws.timedwait_holds cond a ts b w h
    real_wait-holds cond_var cond a b none w h = laws.wait_holds cond a b w h

    -- Behind the wait of the build with COND_VAR the thread holds the second mutex alone.
    relock-Held :
        (res : ℕ) (w : World)
        → holds w impl.lock ≡ false
        → holds w impl.posix_lock ≡ true
        → (w' : World) × (Ops.relock true real impl res w ≡ ok (res, w')) × Held true impl true w'
    unfolding Ops.relock
    relock-Held res w outer inner =
        let w₁ : World = (real.mutex_unlock impl.posix_lock w).1 in
        let free : Held true impl false w₁ = record {
          outer = laws.unlock_holds impl.posix_lock impl.lock w inner ∙ rw other' outer;
          inner = λ e. laws.unlock_holds impl.posix_lock impl.posix_lock w inner ∙ ground arith;
        } in
        (
          (real.mutex_lock impl.posix_lock (real.mutex_lock impl.lock w₁).1).1,
          rw (laws.unlock_returns impl.posix_lock w inner),
          lock_both w₁ free,
        )

    -- What the library's wait returns in a wait that is called in `w`: with COND_VAR it is called
    -- with the second mutex, behind the unlock of the first.
    abbrev pub wait_result : Bool → ℕ → Option ℕ → World → ℕ
    wait_result true cond ts w =
        (Ops.real_wait true real cond impl.posix_lock ts (real.mutex_unlock impl.lock w).1).0
    wait_result false cond ts w = (Ops.real_wait false real cond impl.lock ts w).0

    -- A wait, called with the lock, either returns what the library's wait has returned, with the
    -- lock, or stops the process; it stops only in the build with COND_VAR, and only when the result
    -- of the library's wait is neither 0 nor ETIMEDOUT. The library waits with the second mutex in
    -- that build, behind the unlock of the first.
    pub cond_timedwait-Held :
        (cond_var : Bool) (cond : ℕ) (ts : Option ℕ) (w : World)
        → Held cond_var impl true w
        → ((w' : World) × (Ops.cond_timedwait cond_var real cond impl ts w
              ≡ ok (wait_result cond_var cond ts w, w'))
            × Held cond_var impl true w')
          ⊎ ((cond_var ≡ true)
              × (wait_result cond_var cond ts w ≢ 0)
              × (wait_result cond_var cond ts w ≢ etimedout)
              × (Ops.cond_timedwait cond_var real cond impl ts w ≡ fault stopped))
    unfolding Ops.cond_timedwait
    cond_timedwait-Held true cond ts w h =
        let w₁ : World = (real.mutex_unlock impl.lock w).1 in
        let inner : holds w₁ impl.posix_lock ≡ true =
          laws.unlock_holds impl.lock impl.posix_lock w h.outer ∙ rw other (h.inner refl) in
        let outer : holds w₁ impl.lock ≡ false =
          laws.unlock_holds impl.lock impl.lock w h.outer ∙ ground arith in
        let r : ℕ × World = Ops.real_wait true real cond impl.posix_lock ts w₁ in
        let (w', e, held) =
          relock-Held r.0 r.1
            (real_wait-holds true cond impl.posix_lock impl.lock ts w₁ inner ∙ outer)
            (real_wait-holds true cond impl.posix_lock impl.posix_lock ts w₁ inner ∙ inner) in
        elim (Bool-cases (not (r.0 == 0) && not (r.0 == etimedout))) [
          | inl bad ↦ inr (refl, ground arith, ground arith, rw bad)
          | inr good ↦ inl (w', rw good e, held)
        ]
    cond_timedwait-Held false cond ts w h =
        let r : ℕ × World = Ops.real_wait false real cond impl.lock ts w in
        inl (
          r.1,
          refl,
          record {
            outer = real_wait-holds false cond impl.lock impl.lock ts w h.outer ∙ h.outer;
            inner = λ e. absurd cc;
          },
        )

-- ===== src/Cond/Signals.antt =====
-- What signal and broadcast of litl/src/htll.c do to the threads that are about to wait, and the
-- binding of a condition variable to its lock.
use htll.Common.{
  ℕ, ◌+◌, ◌^◌, ◌<◌, ◌≡◌, ◌≢◌, Bool, true, false, u32, Option, none, some, Outcome, ok, fault,
  out_of_bounds, refl, arith, List, [], ◌∷◌, length, subst, ◌==◌, Bool-cases, inl, inr, ◌⊎◌, ap,
  ◌∙◌,
}
use htll.Htll.Thread.{Input}
use htll.Cond.Ops.{Cond, cond_signal, cond_broadcast, futex_requeue, int_max}
use htll.Cond.Timeout.{Timespec, Timeval}
use htll.Cond.Wait.{
  Shared, Point, unlocking, clock, sleep, sleeping, clock_again, swap, nap, napping, mark,
  wait_move, awake,
}

-- What other threads call on a condition variable that is bound to a lock.
pub data Notice : Type 0 where
  signal broadcast : Notice

abbrev pub notify : List Notice → Cond → Cond
notify [] c = c
notify (signal ∷ ns) c = notify ns (cond_signal c).0
notify (broadcast ∷ ns) c = notify ns (cond_broadcast c).0

pub broadcast_bound :
    (c : Cond)
    → c.m ≢ 0
    → cond_broadcast c ≡ (record c { seq = u32 (c.seq + 1) }, futex_requeue 1 int_max c.m ∷ [])
unfolding cond_broadcast
broadcast_bound c bound = ground arith

notify-seq :
    (ns : List Notice) (c : Cond)
    → c.m ≢ 0
    → c.seq < 2 ^ 32
    → (notify ns c).seq ≡ u32 (c.seq + length ns)
unfolding cond_signal
notify-seq [] c bound fits = omega arith
notify-seq (signal ∷ ns) c bound fits =
    notify-seq ns (cond_signal c).0 bound (omega arith) ∙ omega arith
notify-seq (broadcast ∷ ns) c bound fits =
    ap (λ r. (notify ns r.0).seq) (broadcast_bound c bound)
    ∙ (notify-seq ns (record c { seq = u32 (c.seq + 1) }) bound (omega arith) ∙ omega arith)

-- No notice is lost between the start of a wait and its sleep: if between the read of `seq` and
-- the call of the futex other threads have called signal or broadcast on the bound condition
-- variable, fewer than 2^32 times, then the thread does not sleep.
pub notified_wait :
    (m : ℕ) (d : Option Timespec) (x : Input) (tv : Timeval) (s : Shared) (c : Cond)
    (ns : List Notice)
    → c.m ≢ 0
    → c.seq < 2 ^ 32
    → 0 < length ns
    → length ns < 2 ^ 32
    → s.cond ≡ notify ns c
    → wait_move m d x tv s (sleep c.seq) ≡ ok (s, awake d)
unfolding wait_move
notified_wait m d x tv s c ns bound fits some_notice few after =
    let moved : s.cond.seq ≡ u32 (c.seq + length ns) =
      ap (λ k. k.seq) after ∙ notify-seq ns c bound fits in
    ground arith

-- Where a wait on the lock at `m` has bound the condition variable: from the start of its unlock
-- to its return with another result than EINVAL.
abbrev pub bound_at : Point → Bool
bound_at (unlocking _ _) = true
bound_at (clock _) = true
bound_at (sleep _) = true
bound_at sleeping = true
bound_at clock_again = true
bound_at (swap _) = true
bound_at (nap _) = true
bound_at (napping _) = true
bound_at (mark _) = true
bound_at _ = false

-- What a move of a wait does to the binding.
IsBound : (m : ℕ) → Shared → Outcome (Shared × Point) → Type 0
IsBound m s (ok (s', p')) =
    (bound_at p' ≡ true → s'.cond.m ≡ m) × (s.cond.m ≢ 0 → s'.cond.m ≡ s.cond.m)
IsBound m s (fault e) = e ≡ out_of_bounds

wait_move-IsBound :
    (m : ℕ) (d : Option Timespec) (x : Input) (tv : Timeval) (s : Shared) (p : Point)
    → ((bound_at p ≡ true) → s.cond.m ≡ m)
    → IsBound m s (wait_move m d x tv s p)
unfolding wait_move IsBound
wait_move-IsBound m none x tv s (clock seq) h = ground arith
wait_move-IsBound m (some ts) x tv s (clock seq) h = ground arith
wait_move-IsBound m none x tv s (sleep seq) h = ground arith
wait_move-IsBound m (some ts) x tv s (sleep seq) h = ground arith
wait_move-IsBound m none x tv s sleeping h = ground arith
wait_move-IsBound m (some ts) x tv s sleeping h = ground arith
wait_move-IsBound m none x tv s clock_again h = ground arith
wait_move-IsBound m (some ts) x tv s clock_again h = ground arith
wait_move-IsBound m d x tv s (unlocking seq q) h = (λ e. h refl, λ e. refl)
wait_move-IsBound m d x tv s p h = ground arith

-- Between those points the condition variable is bound to the lock of the wait: a move that leads
-- to such a point, from a state in which this held, leaves the condition variable bound to the
-- lock, and it does not change a binding that is there.
pub wait_binds :
    (m : ℕ) (d : Option Timespec) (x : Input) (tv : Timeval) (s s' : Shared) (p p' : Point)
    → (bound_at p ≡ true → s.cond.m ≡ m)
    → wait_move m d x tv s p ≡ ok (s', p')
    → bound_at p' ≡ true
    → (s'.cond.m ≡ m) × ((s.cond.m ≡ 0) ⊎ (s'.cond.m ≡ s.cond.m))
unfolding IsBound
wait_binds m d x tv s s' p p' h e b =
    let moved : IsBound m s (ok (s', p')) =
      subst (IsBound m s) e (wait_move-IsBound m d x tv s p h) in
    (
      moved.0 b,
      elim (Bool-cases (s.cond.m == 0)) [
        | inl null ↦ inl (ground arith)
        | inr some_lock ↦ inr (moved.1 (ground arith))
      ],
    )

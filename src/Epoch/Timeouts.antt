-- ===== src/Epoch/Timeouts.antt =====
-- The timed wait of litl/src/htll.c (lines 82-87) when the window or the spin has grown too far.
use native.Mathlib.Nat.{pow-suc, mul_comm, mul_assoc}
use htll.Common.{
  Bool, not, ap, sym, subst, ◌∙◌, u32, ℕ, zero, suc, ◌-◌, ◌*◌, ◌^◌, ◌≡◌, ◌≤◌, ◌<◌, refl, arith,
  true, false, none, some, List, [], ◌∷◌, length, get_elem?, pos, ok, sub_u64, ltb, Bool-cases, inl,
  inr,
}
use htll.Htll.Constants.{default_reorder, default_adjust_unit}
use htll.Htll.Mutex.{Mutex}
use htll.Htll.Spin.{cycles_over}
use htll.Htll.Thread.{Pc, first, spin, mark, nap, held, Locals, after_nap, move, asleep}
use htll.Segment.State.{Segment, Local}
use htll.Segment.Window.{ends}
use htll.Segment.Recovery.{AllInTime, ends-AllInTime}
use htll.Epoch.Lock.{nsec_per_sec, local_move, lock_run}
use htll.Epoch.Window.{waited_of, locking, noted, segment_at-noted, local_move-noted, unmarked}

-- Points of a call inside of a segment that are awake.
abbrev pub awake_inside : Pc → Bool
awake_inside (first l) = not l.flag
awake_inside (spin l _) = not l.flag
awake_inside (mark l) = not l.flag
awake_inside (nap l) = not l.flag
awake_inside (held _) = true
awake_inside _ = false

module _ (id : ℕ) (t : Local) (g : Segment) (cur : t.cur_segment_id ≡ pos id)
    (found : get_elem? t.segment id ≡ some g) (wide : nsec_per_sec ≤ g.wait_time) where
  local_move-awake :
      (now : ℕ) (m : Mutex) (p : Pc)
      → awake_inside p ≡ true
      → locking p ≡ true
      → (u : Local) (m' : Mutex) (p' : Pc)
      → local_move false now m (noted id t g (waited_of p)) p ≡ ok (u, m', p')
      → awake_inside p' ≡ true
  unfolding local_move move
  local_move-awake now m (nap l) call here u m' p' moved =
      ground (arith, segment_at-noted id t g cur found l.waited)
  local_move-awake now m p call here u m' p' moved = ground arith

  lock_run-awake :
      (seen : List (ℕ × Mutex)) (p : Pc)
      → awake_inside p ≡ true
      → (u : Local) × (q : Pc) × (lock_run seen (noted id t g (waited_of p)) p ≡ ok (u, q))
        × (awake_inside q ≡ true)
  unfolding lock_run
  lock_run-awake [] p call = (noted id t g (waited_of p), p, refl, call)
  lock_run-awake ((now, m) ∷ seen) (held w) call = (noted id t g w, held w, refl, refl)
  lock_run-awake ((now, m) ∷ seen) p call =
      let (m', p', moved, _) = local_move-noted id t g cur found now m p (ground arith) in
      let (u, q, ran, still) =
        lock_run-awake seen p' (local_move-awake now m p call (ground arith) _ m' p' moved) in
      (u, q, rw moved ran, still)

-- When at least 199998 ends in time that somebody waited for have followed the start of the thread,
-- and fewer than 2^50, then the window is no valid timeout any more: no call of lock in the segment
-- ever sleeps, whatever states of the lock it finds and however long it takes.
pub never_sleeps :
    (id : ℕ) (t : Local) (g first_g : Segment) (outcomes : List (ℕ × ℕ)) (l : Locals)
    → t.cur_segment_id ≡ pos id
    → get_elem? t.segment id ≡ some g
    → first_g.wait_time ≡ default_reorder
    → first_g.unit ≡ default_adjust_unit
    → AllInTime outcomes
    → 199998 ≤ length outcomes
    → length outcomes < 2 ^ 50
    → g.wait_time ≡ (ends outcomes first_g).wait_time
    → l.flag ≡ false
    → l.waited ≡ false
    → (seen : List (ℕ × Mutex))
    → (u : Local) × (q : Pc) × (lock_run seen t (first l) ≡ ok (u, q)) × (asleep q ≡ none)
never_sleeps id t g first_g outcomes l cur found window unit in_time many few now_is inside new
      seen =
    let product : length outcomes * first_g.unit ≡ length outcomes * 5000 =
      ap (λ x. length outcomes * x) unit in
    let grown = ends-AllInTime outcomes first_g in_time (omega arith) (omega (arith, product)) in
    let (u, q, ran, awake) =
      lock_run-awake id t g cur found (omega (arith, grown, product)) seen (first l)
        (ground arith) in
    (
      u,
      q,
      ap (λ s. lock_run seen s (first l)) (sym (unmarked id t g cur found new)) ∙ ran,
      ground arith,
    )

-- Timed waits of one call that have returned, one after the other.
pub naps : ℕ → Locals → Locals
naps zero l = l
naps (suc k) l = naps k (after_nap l)

half_spin :
    (k : ℕ) (l : Locals)
    → 0 < l.spin_ticks
    → l.spin_ticks < 2 ^ 32
    → 2 ^ 31 ≤ l.spin_ticks * 2 ^ k
    → (j : ℕ) × (j ≤ k) × (2 ^ 31 ≤ (naps j l).spin_ticks) × ((naps j l).spin_ticks < 2 ^ 32)
unfolding naps
half_spin zero l some_spin word enough = (zero, omega arith, omega arith, word)
half_spin (suc k) l some_spin word enough = elim (Bool-cases (ltb l.spin_ticks (2 ^ 31))) [
  | inr large ↦ (zero, omega arith, ground arith, word)
  | inl small ↦
      let twice : u32 (l.spin_ticks * 2) ≡ l.spin_ticks * 2 = ground arith in
      let product : l.spin_ticks * 2 ^ suc k ≡ l.spin_ticks * 2 * 2 ^ k =
        ap (λ x. l.spin_ticks * x) (pow-suc 2 k ∙ mul_comm (2 ^ k) 2)
        ∙ sym (mul_assoc l.spin_ticks 2 (2 ^ k)) in
      let (j, le, above, below) =
        half_spin k (after_nap l) (omega (arith, twice)) (omega (arith, twice))
          (rw twice (subst (λ x. 2 ^ 31 ≤ x) product enough)) in
      (suc j, omega arith, above, below)
]

-- Each return from the timed wait doubles the spin of the call, with no upper bound: after at most
-- 31 of them, if the spin is not 0 at first and below 2^31, the spin is a negative int, and the
-- spin loop then ends only after more than 2^64 - 2^31 cycles.
pub spin_doubles :
    (l : Locals)
    → 0 < l.spin_ticks
    → l.spin_ticks < 2 ^ 31
    → (k : ℕ) × (k ≤ 31)
      × ((s e : ℕ) → cycles_over (naps k l).spin_ticks s e ≡ true → 2 ^ 64 - 2 ^ 31 < sub_u64 e s)
unfolding cycles_over
spin_doubles l some_spin positive =
    let (k, le, above, below) = half_spin 31 l some_spin (omega arith) (omega arith) in
    (k, le, λ s e over. ground arith)

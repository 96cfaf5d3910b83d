-- ===== src/Epoch/Exclusion.antt =====
-- The lock of litl/src/htll.c under threads with segments: each step is none, one or two of the
-- steps of Htll's threads.
use htll.Common.{
  ℕ, ◌<◌, ◌≡◌, ◌≢◌, ◌⊎◌, refl, arith, Bool, true, ◌==◌, ==_refl, ◌||◌, Bool-cases, inl, inr, some,
  ok, update, fun_ext, subst, >>=-ok,
}
use htll.Htll.Mutex.{Mutex}
use htll.Htll.Thread.{Pc, first, nap, napping, wake, Locals, after_nap, Input, move, asleep}
use htll.Htll.System
use htll.Htll.Exclusion.{owns, mutual_exclusion}
use htll.Segment.State.{Local, segment_at}
use htll.Epoch.Lock.{sleeps_in, input_of, local_move, woken}
use htll.Epoch.Threads.{Threads, starts, ends, runs, wake_one, wake_none, Reach, start, later}

abbrev pub lock_of : Threads → System.System
lock_of s = record { mem = s.mem; pc = s.pc }

any_input : (x : Input) → (x.outside || true) ≡ true
any_input x = ground arith

-- A move of a thread with segments is the lock's, or goes through a sleep that is refused.
pub local_move-move :
    (try : Bool) (now : ℕ) (m : Mutex) (t : Local) (p : Pc) (r : Local × Mutex × Pc)
    → local_move try now m t p ≡ ok r
    → (move (input_of try now t) m p ≡ (r.1, r.2))
      ⊎ ((l : Locals) × (move (input_of try now t) m p ≡ (m, napping l))
          × (r.1 ≡ m)
          × (r.2 ≡ first (after_nap l)))
unfolding local_move move
local_move-move try now m t (nap l) r e =
    let (g, there, back) = >>=-ok (segment_at t t.cur_segment_id) _ r e in
    elim (Bool-cases (sleeps_in g m)) [
      | inl sleeps ↦ inl (ground arith)
      | inr stays ↦ elim (Bool-cases (m.u == 257)) [
        | inl marked ↦ inr (l, ground arith, ground arith, ground arith)
        | inr other ↦ inl (ground arith)
      ]
    ]
local_move-move try now m t (napping l) r e = inl (ground arith)
local_move-move try now m t p r e = inl (ground arith)

woken-asleep :
    (t : Local) (p q : Pc) (r : Local × Pc) → asleep p ≡ some q → woken t p ≡ ok r → r.1 ≡ q
unfolding woken
woken-asleep t p q r a e = ground arith

update-update {ℓ} :
    {A : Type ℓ} (f : ℕ → A) (i : ℕ) (a b : A) → update (update f i a) i b ≡ update f i b
update-update f i a b = fun_ext (λ j. ground arith)

moved_to :
    {n : ℕ} {s : System.System}
    → System.Reach n true s
    → (x : Input) (i : ℕ) (m : Mutex) (p : Pc) → i < n
    → s.pc i ≢ wake
    → move x s.mem (s.pc i) ≡ (m, p)
    → System.Reach n true (record { mem = m; pc = update s.pc i p })
moved_to {n} {s} reach x i m p lt ne e =
    subst (λ (r : Mutex × Pc). System.Reach n true (record { mem = r.0; pc = update s.pc i r.1 })) e
      (System.later reach (System.run x i lt ne (any_input x)))

refused :
    {n : ℕ} {s : System.System}
    → System.Reach n true s
    → (x : Input) (i : ℕ) (l : Locals) → i < n
    → s.pc i ≢ wake
    → move x s.mem (s.pc i) ≡ (s.mem, napping l)
    → System.Reach n true (record { mem = s.mem; pc = update s.pc i (first (after_nap l)) })
unfolding move
refused {n} {s} reach x i l lt ne e =
    let sleeper : ℕ → Pc = update s.pc i (napping l) in
    let returned =
      moved_to (moved_to reach x i s.mem (napping l) lt ne e) x i s.mem (first (after_nap l)) lt
        (λ w. ground (arith, ==_refl i)) (rw (==_refl i) refl) in
    subst (λ f. System.Reach n true (record { mem = s.mem; pc = f }))
      (update-update s.pc i (napping l) (first (after_nap l))) returned

-- Every execution of threads with segments is one of threads that only lock.
pub Reach-lock_of :
    {n : ℕ} {t : Local} {s : Threads} → Reach n t s → System.Reach n true (lock_of s)
Reach-lock_of start = System.start
Reach-lock_of (later reach (starts i id now lt between e)) = Reach-lock_of reach
Reach-lock_of (later reach (ends i id required now lt between e)) = Reach-lock_of reach
Reach-lock_of {n} (later {s} reach (runs try now i {r} lt ne e)) =
    elim (local_move-move try now s.mem (s.local i) (s.pc i) r e) [
      | inl one ↦ moved_to (Reach-lock_of reach) (input_of try now (s.local i)) i r.1 r.2 lt ne one
      | inr (l, sleeps, mem, pc) ↦
          rw (mem, pc)
            (refused (Reach-lock_of reach) (input_of try now (s.local i)) i l lt ne sleeps)
    ]
Reach-lock_of (later {s} reach (wake_one i j {q} {r} li lj at a e)) =
    rw (woken-asleep (s.local j) (s.pc j) q r a e)
      (System.later (Reach-lock_of reach) (System.wake_one i j li lj at a))
Reach-lock_of (later reach (wake_none i lt at quiet)) =
    System.later (Reach-lock_of reach) (System.wake_none i lt at quiet)

-- Of any number of threads that start and end segments in any way, and lock inside and outside of
-- them, at most one owns the lock in every reachable state.
pub exclusion_with_segments :
    {n : ℕ} {t : Local} {s : Threads}
    → Reach n t s
    → (i j : ℕ) → i < n
    → j < n
    → owns (s.pc i) ≡ 1
    → owns (s.pc j) ≡ 1
    → i ≡ j
exclusion_with_segments reach = mutual_exclusion (Reach-lock_of reach)

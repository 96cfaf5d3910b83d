-- ===== src/Htll/Wakeups.antt =====
-- Wake-ups: while every thread locks outside of segments, no sleeper is forgotten.
use htll.Common.{
  ℕ, ◌+◌, ◌≤◌, ◌<◌, ◌≡◌, ◌≢◌, refl, true, false, arith, none, some, ◌⊎◌, inl, inr, update, sum_over,
  sum_over-split, sum_over-update, sum_over-zero, sum_over-pos,
}
use htll.Htll.Mutex.{Mutex, locked_of, contended_of, IsWord, count_unlock-u}
use htll.Htll.Thread.{
  Pc, idle, first, spin, mark, nap, napping, retry, parked, count, check, recheck, clear,
  count_wake, put_wake, wake, Input, move, asleep,
}
use htll.Htll.System.{System, Step, run, wake_one, wake_none, init, Reach, start, later}
use htll.Htll.Exclusion.{owns, Inv, Reach-Inv}

-- A thread of a system that locks outside of segments only: its `flag` is set, and it never
-- comes to the timed wait.
abbrev pub IsUntimed : Pc → Type 0
IsUntimed (first l) = l.flag ≡ true
IsUntimed (spin l _) = l.flag ≡ true
IsUntimed (mark l) = l.flag ≡ true
IsUntimed (nap _) = ⊥
IsUntimed (napping _) = ⊥
IsUntimed _ = Unit

abbrev pub sleeps : Pc → ℕ
sleeps (parked _) = 1
sleeps _ = 0

-- The next access of such a thread makes the word say that there are waiters, or wakes one.
abbrev pub alerts : Pc → ℕ
alerts (mark _) = 1
alerts (retry _) = 1
alerts count_wake = 1
alerts (put_wake _) = 1
alerts wake = 1
alerts _ = 0

-- The release has freed the byte `locked` and has not decided yet.
abbrev pub decides : Pc → ℕ
decides check = 1
decides recheck = 1
decides clear = 1
decides _ = 0

-- Somebody sees to the sleepers, `a` in number: `w` threads alert, or the word is marked as
-- contended and it is held or one of `d` threads decides.
abbrev pub IsCovered : ℕ → ℕ → ℕ → ℕ → Type 0
IsCovered u a w d = (a ≡ 0) ⊎ ((0 < w) ⊎ ((contended_of u ≡ 1) × ((locked_of u ≡ 1) ⊎ (0 < d))))

move-IsUntimed :
    (x : Input) (m : Mutex) (p : Pc) → x.outside ≡ true → IsUntimed p → IsUntimed (move x m p).1
unfolding move
move-IsUntimed x m idle o h = ground arith
move-IsUntimed x m p o h = ground arith

-- With `a`, `w`, `d` counted over the other threads.
move-IsCovered :
    (x : Input) (m : Mutex) (p : Pc) (a w d : ℕ)
    → IsWord m.u
    → owns p ≤ locked_of m.u
    → IsUntimed p
    → p ≢ wake
    → IsCovered m.u (sleeps p + a) (alerts p + w) (decides p + d)
    → IsCovered
        (move x m p).0.u
        (sleeps (move x m p).1 + a)
        (alerts (move x m p).1 + w)
        (decides (move x m p).1 + d)
unfolding move
move-IsCovered x m idle a w d word o h ne c = ground arith
move-IsCovered x m count a w d word o h ne c = ground (arith, count_unlock-u m)
move-IsCovered x m p a w d word o h ne c = ground arith

abbrev pub Covered : ℕ → System → Type 0
Covered n s =
    IsCovered s.mem.u (sum_over sleeps n s.pc) (sum_over alerts n s.pc) (sum_over decides n s.pc)

pub record Attended (n : ℕ) (s : System) : Type 0 where
  pub untimed : (i : ℕ) → IsUntimed (s.pc i)
  pub covered : Covered n s

init-Attended : (n : ℕ) → Attended n init
init-Attended n = record {
  untimed = λ _. tt;
  covered = inl (sum_over-zero sleeps n (λ _. idle) (λ _ _. refl));
}

woken-alerts :
    (p : Pc) {q : Pc}
    → IsUntimed p
    → asleep p ≡ some q
    → IsUntimed q × (alerts q ≡ 1) × (sleeps q ≡ 0) × (sleeps p ≡ 1)
woken-alerts p h e = ground arith

none-sleeps : (p : Pc) → IsUntimed p → asleep p ≡ none → sleeps p ≡ 0
none-sleeps p h e = ground arith

module _ {n : ℕ} {s : System} (inv : Inv n s) (att : Attended n s) where
  update-IsUntimed : (i : ℕ) (q : Pc) → IsUntimed q → (j : ℕ) → IsUntimed (update s.pc i q j)
  update-IsUntimed i q h j = ground (arith, att.untimed j)

  run-Attended :
      (x : Input) (i : ℕ)
      → i < n
      → s.pc i ≢ wake
      → x.outside ≡ true
      → Attended n
          (record { mem = (move x s.mem (s.pc i)).0; pc = update s.pc i (move x s.mem (s.pc i)).1 })
  run-Attended x i lt ne o =
      let p' = (move x s.mem (s.pc i)).1 in
      let owned : owns (s.pc i) ≤ locked_of s.mem.u =
        omega (arith, sum_over-split owns n i s.pc lt, inv.owners) in
      let before =
        rw
          (
            sum_over-split sleeps n i s.pc lt,
            sum_over-split alerts n i s.pc lt,
            sum_over-split decides n i s.pc lt,
          )
          at att.covered in
      record {
        untimed = update-IsUntimed i p' (move-IsUntimed x s.mem (s.pc i) o (att.untimed i));
        covered =
            rw
              (
                sum_over-update sleeps n i s.pc p' lt,
                sum_over-update alerts n i s.pc p' lt,
                sum_over-update decides n i s.pc p' lt,
              )
              (move-IsCovered x s.mem (s.pc i) _ _ _ inv.word owned (att.untimed i) ne before);
      }

  -- The waker returns: its share of the alerts is gone.
  wake_none-Attended :
      (i : ℕ)
      → i < n
      → ((j : ℕ) → j < n → asleep (s.pc j) ≡ none)
      → Attended n (record { mem = s.mem; pc = update s.pc i idle })
  wake_none-Attended i lt quiet = record {
    untimed = update-IsUntimed i idle tt;
    covered = inl (
        sum_over-zero sleeps n (update s.pc i idle)
          λ j lj. ground (arith, none-sleeps (s.pc j) (att.untimed j) (quiet j lj)));
  }

  wake_one-Attended :
      (i j : ℕ) {q : Pc}
      → i < n
      → j < n
      → asleep (s.pc j) ≡ some q
      → Attended n (record { mem = s.mem; pc = update (update s.pc i idle) j q })
  wake_one-Attended i j {q} li lj a =
      let (free, alert, _, _) = woken-alerts (s.pc j) (att.untimed j) a in
      record {
        untimed = λ k. ground (arith, att.untimed k);
        covered =
            inr (inl (omega (arith, alert, sum_over-update alerts n j (update s.pc i idle) q lj)));
      }

Step-Attended : {n : ℕ} {s t : System} → Step n false s t → Inv n s → Attended n s → Attended n t
Step-Attended (run x i lt ne ok) inv att = run-Attended inv att x i lt ne (ground arith)
Step-Attended (wake_one i j li lj e a) inv att = wake_one-Attended inv att i j li lj a
Step-Attended (wake_none i li e quiet) inv att = wake_none-Attended inv att i li quiet

pub Reach-Attended : {n : ℕ} {s : System} → Reach n false s → Attended n s
Reach-Attended {n} start = init-Attended n
Reach-Attended (later r st) = Step-Attended st (Reach-Inv r) (Reach-Attended r)

-- A thread that owns the lock, or that is about to mark it or to wake a sleeper.
abbrev pub attends : Pc → ℕ
attends p = owns p + alerts p + decides p

-- If all threads lock outside of segments, then in every reachable state with a sleeper some
-- thread owns the lock, decides on a wake-up, or is about to wake a sleeper or mark the lock: no
-- state has only idle, spinning and sleeping threads.
pub no_lost_wakeup :
    {n : ℕ} {s : System}
    → Reach n false s
    → (j : ℕ) → j < n
    → sleeps (s.pc j) ≡ 1
    → (i : ℕ) × (i < n) × (0 < attends (s.pc i))
no_lost_wakeup {n} {s} r j lt e = pick (Reach-Attended r).covered
  where
    pick : Covered n s → (i : ℕ) × (i < n) × (0 < attends (s.pc i))
    pick (inl none_asleep) = absurd (omega (arith, sum_over-split sleeps n j s.pc lt))
    pick (inr (inl alerting)) =
        let (i, li, pos) = sum_over-pos alerts n s.pc alerting in (i, li, omega arith)
    pick (inr (inr (marked, inl taken))) =
        let (i, li, pos) = sum_over-pos owns n s.pc (omega (arith, (Reach-Inv r).owners)) in
        (i, li, omega arith)
    pick (inr (inr (marked, inr deciding))) =
        let (i, li, pos) = sum_over-pos decides n s.pc deciding in (i, li, omega arith)

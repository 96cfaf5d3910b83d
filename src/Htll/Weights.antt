-- ===== src/Htll/Weights.antt =====
-- How far the threads in lock and unlock of litl/src/htll.c are from the end of their calls, and
-- which of them can go on.
use htll.Common.{
  ℕ, ◌+◌, ◌<◌, ◌≡◌, ◌≢◌, ◌==◌, refl, ap, arith, false, Bool-cases, inl, inr, none, some, update,
  sum_over, sum_over-split, sum_over-update, sum_over-pos, sum_over-zero, ◌⊎◌,
}
use htll.Htll.Mutex.{Mutex, locked_of, IsWord}
use htll.Htll.Thread.{
  Pc, idle, first, spin, mark, nap, napping, retry, park, parked, held, wake, Locals, after_nap,
  Input, move, asleep,
}
use htll.Htll.System.{System}
use htll.Htll.Exclusion.{owns, Inv}
use htll.Htll.Wakeups.{sleeps, attends}
use htll.Htll.Release.{moves_left}
use htll.Htll.Prompt.{Prompt, runs, wakes, wakes_none, times_out, any_input}

-- The steps that a thread still makes, while it finds the lock free where it takes it.
abbrev pub weight : Pc → ℕ
weight (held _) = 11
weight (first _) = 12
weight (spin _ _) = 12
weight (mark _) = 12
weight (retry _) = 12
weight (park _) = 13
weight (parked _) = 14
weight (nap _) = 13
weight (napping _) = 14
weight p = moves_left p

-- In unlock, or with the lock.
abbrev pub active : Pc → ℕ
active (held _) = 1
active (first _) = 0
active (spin _ _) = 0
active (mark _) = 0
active (nap _) = 0
active (napping _) = 0
active (retry _) = 0
active (park _) = 0
active (parked _) = 0
active idle = 0
active _ = 1

-- In one of the futex waits.
abbrev dozes : Pc → ℕ
dozes (parked _) = 1
dozes (napping _) = 1
dozes _ = 0

-- On the way to the lock, and awake.
abbrev pub tries : Pc → ℕ
tries (first _) = 1
tries (spin _ _) = 1
tries (mark _) = 1
tries (retry _) = 1
tries (park _) = 1
tries (nap _) = 1
tries _ = 0

active-weight :
    (x : Input) (m : Mutex) (p : Pc)
    → 0 < active p
    → p ≢ wake
    → (weight (move x m p).1 < weight p) × (p ≢ idle) × (asleep p ≡ none)
unfolding move
active-weight x m p act ne = ground arith

tries-weight :
    (x : Input) (m : Mutex) (p : Pc)
    → 0 < tries p
    → IsWord m.u
    → locked_of m.u ≡ 0
    → (weight (move x m p).1 < weight p) × (p ≢ idle) × (p ≢ wake) × (asleep p ≡ none)
unfolding move
tries-weight x m p try word free = ground arith

woken-weight : (p : Pc) {q : Pc} → asleep p ≡ some q → weight q < weight p
woken-weight p a = ground arith

-- Idle, or asleep in the untimed wait.
abbrev pub IsAtRest : Pc → Type 0
IsAtRest p = (p ≡ idle) ⊎ (sleeps p ≡ 1)

-- In the timed wait.
abbrev pub in_nap : Pc → ℕ
in_nap (napping _) = 1
in_nap _ = 0

-- Who neither acts nor tries nor is in the timed wait is at rest.
pub rest-IsAtRest : (p : Pc) → active p ≡ 0 → tries p ≡ 0 → in_nap p ≡ 0 → IsAtRest p
rest-IsAtRest idle a t d = inl refl
rest-IsAtRest (parked w) a t d = inr refl
rest-IsAtRest p a t d = absurd (omega arith)

-- Who attends to sleepers acts or tries.
pub attends-busy : (p : Pc) → 0 < attends p → 0 < active p + tries p
attends-busy p h = ground arith

-- A thread that is not counted has no weight.
pub none_counted : (w : Pc → ℕ) (n i : ℕ) (f : ℕ → Pc) → i < n → sum_over w n f ≡ 0 → w (f i) ≡ 0
none_counted w n i f lt none_at_all = omega (arith, sum_over-split w n i f lt)

-- Either all threads are idle, or a step is possible that brings them nearer to it.
unfoldable pub IsNearer : ℕ → System → Type 0
IsNearer n s = (t : System) × Prompt n s t × (sum_over weight n t.pc < sum_over weight n s.pc)

module _ {n : ℕ} {s : System} (inv : Inv n s) where
  runs-IsNearer :
      (i : ℕ)
      → i < n
      → s.pc i ≢ idle
      → s.pc i ≢ wake
      → asleep (s.pc i) ≡ none
      → weight (move any_input s.mem (s.pc i)).1 < weight (s.pc i)
      → IsNearer n s
  unfolding IsNearer
  runs-IsNearer i lt ni ne awake less = (
    _,
    runs any_input i lt ni ne awake refl,
    omega (
      arith,
      sum_over-update weight n i s.pc (move any_input s.mem (s.pc i)).1 lt,
      sum_over-split weight n i s.pc lt,
    ),
  )

  wake-IsNearer : (i : ℕ) → i < n → s.pc i ≡ wake → IsNearer n s
  unfolding IsNearer
  wake-IsNearer i lt at = elim (Bool-cases (sum_over dozes n s.pc == 0)) [
    | inl nobody ↦ (
      _,
      wakes_none i lt at
          (λ j lj. awake_lem (s.pc j) (none_counted dozes n j s.pc lj (ground arith))),
      omega (
        arith,
        sum_over-update weight n i s.pc idle lt,
        sum_over-split weight n i s.pc lt,
        ap weight at,
      ),
    )
    | inr somebody ↦
        let (j, lj, sleeping) = sum_over-pos dozes n s.pc (ground arith) in
        let (q, a) = asleep_lem (s.pc j) sleeping in
        let other : (i == j) ≡ false = apart i j at sleeping in
        (
          _,
          wakes i j lt lj at a,
          omega (
            arith,
            sum_over-update weight n i s.pc idle lt,
            sum_over-split weight n i s.pc lt,
            sum_over-update weight n j (update s.pc i idle) q lj,
            sum_over-split weight n j (update s.pc i idle) lj,
            ap weight at,
            unchanged i j other,
            woken-weight (s.pc j) a,
          ),
        )
  ]
    where
      awake_lem : (p : Pc) → dozes p ≡ 0 → asleep p ≡ none
      awake_lem p e = ground arith

      asleep_lem : (p : Pc) → 0 < dozes p → (q : Pc) × (asleep p ≡ some q)
      asleep_lem (parked w) h = (retry w, refl)
      asleep_lem (napping l) h = (first (after_nap l), refl)
      asleep_lem p h = absurd (omega arith)

      apart : (i j : ℕ) → s.pc i ≡ wake → 0 < dozes (s.pc j) → (i == j) ≡ false
      apart i j at sleeping = elim (Bool-cases (i == j)) [
        | inr other ↦ other
        | inl same ↦ absurd (ground arith)
      ]

      unchanged : (i j : ℕ) → (i == j) ≡ false → weight (update s.pc i idle j) ≡ weight (s.pc j)
      unchanged i j other = rw other refl

  -- With no owner the lock is free.
  lock_free : sum_over active n s.pc ≡ 0 → locked_of s.mem.u ≡ 0
  lock_free quiet = omega (
    arith,
    inv.owners,
    sum_over-zero owns n s.pc
        (λ i lt. owns_active (s.pc i) (none_counted active n i s.pc lt quiet)),
  )
    where
      owns_active : (p : Pc) → active p ≡ 0 → owns p ≡ 0
      owns_active p h = ground arith

  pub active-IsNearer : (i : ℕ) → i < n → 0 < active (s.pc i) → IsNearer n s
  active-IsNearer i lt act = elim (wake_or_not (s.pc i)) [
    | inl at ↦ wake-IsNearer i lt at
    | inr ne ↦
        let (less, ni, awake) = active-weight any_input s.mem (s.pc i) act ne in
        runs-IsNearer i lt ni ne awake less
  ]
    where
      wake_or_not : (p : Pc) → (p ≡ wake) ⊎ (p ≢ wake)
      wake_or_not wake = inl refl
      wake_or_not p = inr (λ e. ground arith)

  pub tries-IsNearer :
      (i : ℕ) → i < n → 0 < tries (s.pc i) → sum_over active n s.pc ≡ 0 → IsNearer n s
  tries-IsNearer i lt try quiet =
      let (less, ni, ne, awake) =
        tries-weight any_input s.mem (s.pc i) try inv.word (lock_free quiet) in
      runs-IsNearer i lt ni ne awake less

  pub in_nap-IsNearer : (i : ℕ) → i < n → 0 < in_nap (s.pc i) → IsNearer n s
  unfolding IsNearer
  in_nap-IsNearer i lt nap_here =
      let (l, at) = napping_lem (s.pc i) nap_here in
      (
        _,
        times_out i lt at,
        omega (
          arith,
          sum_over-update weight n i s.pc (first (after_nap l)) lt,
          sum_over-split weight n i s.pc lt,
          ap weight at,
        ),
      )
    where
      napping_lem : (p : Pc) → 0 < in_nap p → (l : Locals) × (p ≡ napping l)
      napping_lem (napping l) h = (l, refl)
      napping_lem p h = absurd (omega arith)

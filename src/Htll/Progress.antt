-- ===== src/Htll/Progress.antt =====
-- How the threads that lock with litl/src/htll.c come to the end of their calls.
use htll.Common.{
  ℕ, zero, suc, ◌<◌, ◌≡◌, ◌==◌, arith, false, Bool, Bool-cases, inl, inr, sum_over, sum_over-pos,
  sum_over-zero, ◌⊎◌,
}
use htll.Htll.Mutex.{locked_of}
use htll.Htll.Thread.{Pc, idle}
use htll.Htll.System.{System, Reach}
use htll.Htll.Exclusion.{owns, Inv, Reach-Inv}
use htll.Htll.Wakeups.{attends, no_lost_wakeup}
use htll.Htll.Prompt.{Prompts, done, next, Prompt-Reach, Prompts-Reach}
use htll.Htll.Weights.{
  weight, active, tries, in_nap, IsAtRest, rest-IsAtRest, none_counted, IsNearer, active-IsNearer,
  tries-IsNearer, in_nap-IsNearer,
}

-- Either all threads are at rest, or a step is possible that brings them nearer to it.
step_or_rest : {n : ℕ} {s : System} → Inv n s → IsNearer n s ⊎ ((i : ℕ) → i < n → IsAtRest (s.pc i))
step_or_rest {n} {s} inv = elim (Bool-cases (sum_over active n s.pc == 0)) [
  | inr acting ↦
      let (i, lt, act) = sum_over-pos active n s.pc (ground arith) in
      inl (active-IsNearer inv i lt act)
  | inl quiet ↦ elim (Bool-cases (sum_over tries n s.pc == 0)) [
    | inr trying ↦
        let (i, lt, try) = sum_over-pos tries n s.pc (ground arith) in
        inl (tries-IsNearer inv i lt try (ground arith))
    | inl nobody ↦ elim (Bool-cases (sum_over in_nap n s.pc == 0)) [
      | inr somebody ↦
          let (i, lt, nap_here) = sum_over-pos in_nap n s.pc (ground arith) in
          inl (in_nap-IsNearer inv i lt nap_here)
      | inl all_up ↦ inr (λ i lt.
          rest-IsAtRest (s.pc i) (none_counted active n i s.pc lt (ground arith))
            (none_counted tries n i s.pc lt (ground arith))
            (none_counted in_nap n i s.pc lt (ground arith)))
    ]
  ]
]

finish :
    {n : ℕ} {r : Bool} (fuel : ℕ) {s : System}
    → Reach n r s
    → sum_over weight n s.pc < fuel
    → (t : System) × Prompts n s t × ((i : ℕ) → i < n → IsAtRest (t.pc i))
unfolding IsNearer
finish zero reach less = absurd (omega arith)
finish (suc fuel) {s} reach less = elim (step_or_rest (Reach-Inv reach)) [
  | inr over ↦ (s, done, over)
  | inl (t, step, nearer) ↦
      let (u, steps, over) = finish fuel (Prompt-Reach reach step) (omega arith) in
      (u, next step steps, over)
]

-- With threads inside and outside of segments, from every reachable state all threads can come to
-- the end of their calls or to the untimed wait, where no new call is begun and none returns from
-- that wait but by a wake-up, and the lock is free then.
pub all_come_to_rest :
    {n : ℕ} {r : Bool} {s : System}
    → Reach n r s
    → (t : System) × Prompts n s t × ((i : ℕ) → i < n → IsAtRest (t.pc i)) × (locked_of t.mem.u ≡ 0)
all_come_to_rest {n} {r} {s} reach =
    let (t, steps, over) = finish (suc (sum_over weight n s.pc)) reach (omega arith) in
    let inv = Reach-Inv (Prompts-Reach reach steps) in
    (
      t,
      steps,
      over,
      omega (arith, inv.owners, sum_over-zero owns n t.pc (λ i lt. rest-owns (t.pc i) (over i lt))),
    )
  where
    rest-owns : (p : Pc) → IsAtRest p → owns p ≡ 0
    rest-owns p rest = ground arith

-- The lock does not deadlock: if all threads lock outside of segments, then from every reachable
-- state they can all come to the end of their calls, where no new call is begun and none returns
-- from the untimed wait but by a wake-up, and the lock is free then.
pub all_can_finish :
    {n : ℕ} {s : System}
    → Reach n false s
    → (t : System) × Prompts n s t × ((i : ℕ) → i < n → t.pc i ≡ idle) × (locked_of t.mem.u ≡ 0)
all_can_finish {n} {s} reach =
    let (t, steps, over, free) = all_come_to_rest reach in
    (t, steps, λ i lt. pick t (Prompts-Reach reach steps) over i lt (over i lt), free)
  where
    rest-attends : (p : Pc) → IsAtRest p → attends p ≡ 0
    rest-attends p rest = ground arith

    -- Nobody attends to a sleeper any more, so there is none.
    pick :
        (t : System)
        → Reach n false t
        → ((i : ℕ) → i < n → IsAtRest (t.pc i))
        → (i : ℕ) → i < n
        → IsAtRest (t.pc i)
        → t.pc i ≡ idle
    pick t there over i lt (inl up) = up
    pick t there over i lt (inr down) =
        let (j, lj, attending) = no_lost_wakeup there i lt down in
        absurd (omega (arith, rest-attends (t.pc j) (over j lj)))

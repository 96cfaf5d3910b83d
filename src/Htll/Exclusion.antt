-- ===== src/Htll/Exclusion.antt =====
-- Who owns the lock: the byte `locked` counts the owners, so there is at most one.
use htll.Common.{
  ℕ, ◌+◌, ◌≤◌, ◌<◌, ◌≡◌, refl, Bool, arith, some, ◌==◌, Bool-cases, inl, inr, update, sum_over,
  sum_over-split, sum_over-update, sum_over-zero, weight-le-sum_but,
}
use htll.Htll.Mutex.{Mutex, mutex_create, locked_of, IsWord, count_unlock-u}
use htll.Htll.Thread.{Pc, idle, held, release, cas, count, store, Input, move, asleep}
use htll.Htll.System.{System, Step, run, wake_one, wake_none, init, Reach, start, later}

-- From the return of lock or trylock to the store of line 120.
abbrev pub owns : Pc → ℕ
owns (held _) = 1
owns release = 1
owns cas = 1
owns count = 1
owns store = 1
owns _ = 0

-- A move changes the byte `locked` exactly as it changes the mover's ownership.
pub move-owns :
    (x : Input) (m : Mutex) (p : Pc)
    → IsWord m.u
    → owns p ≤ locked_of m.u
    → IsWord (move x m p).0.u
      × (locked_of (move x m p).0.u + owns p ≡ locked_of m.u + owns (move x m p).1)
unfolding move
move-owns x m idle w h = ground arith
move-owns x m count w h = ground (arith, count_unlock-u m)
move-owns x m p w h = ground arith

-- Neither a sleeper nor a thread that has been woken owns the lock.
pub asleep-owns : (p : Pc) {q : Pc} → asleep p ≡ some q → (owns p ≡ 0) × (owns q ≡ 0)
asleep-owns p e = ground arith

pub record Inv (n : ℕ) (s : System) : Type 0 where
  pub word : IsWord s.mem.u
  pub owners : sum_over owns n s.pc ≡ locked_of s.mem.u

init-Inv : (n : ℕ) → Inv n init
unfolding mutex_create
init-Inv n = record {
  word = omega arith;
  owners = omega (arith, sum_over-zero owns n (λ _. idle) (λ _ _. refl));
}

module _ {n : ℕ} {s : System} (inv : Inv n s) where
  run-Inv :
      (x : Input) (i : ℕ)
      → i < n
      → Inv n
          (record { mem = (move x s.mem (s.pc i)).0; pc = update s.pc i (move x s.mem (s.pc i)).1 })
  run-Inv x i lt =
      let p' = (move x s.mem (s.pc i)).1 in
      let split = sum_over-split owns n i s.pc lt in
      let own = move-owns x s.mem (s.pc i) inv.word (omega (arith, split, inv.owners)) in
      record {
        word = own.0;
        owners = omega (arith, sum_over-update owns n i s.pc p' lt, split, own.1, inv.owners);
      }

  -- A thread that is no owner becomes another that is none.
  swap-Inv :
      (i : ℕ) (q : Pc)
      → i < n
      → owns (s.pc i) ≡ 0
      → owns q ≡ 0
      → Inv n (record { mem = s.mem; pc = update s.pc i q })
  swap-Inv i q lt a b = record {
    word = inv.word;
    owners =
        omega
          (arith, sum_over-update owns n i s.pc q lt, sum_over-split owns n i s.pc lt, inv.owners);
  }

-- Every step of the system keeps the invariant.
pub Step-Inv : {n : ℕ} {r : Bool} {s t : System} → Step n r s t → Inv n s → Inv n t
Step-Inv (run x i lt ne ok) inv = run-Inv inv x i lt
Step-Inv {s} (wake_one i j {q} li lj e a) inv =
    let sleeper = asleep-owns (s.pc j) a in
    swap-Inv (swap-Inv inv i idle li (rw e) refl) j q lj (ground arith) sleeper.1
Step-Inv (wake_none i li e none_asleep) inv = swap-Inv inv i idle li (rw e) refl

pub Reach-Inv : {n : ℕ} {r : Bool} {s : System} → Reach n r s → Inv n s
Reach-Inv {n} start = init-Inv n
Reach-Inv (later r st) = Step-Inv st (Reach-Inv r)

-- At most one thread is between the return of lock or trylock and the store that frees the lock,
-- for any number of threads and in every reachable state.
pub mutual_exclusion :
    {n : ℕ} {r : Bool} {s : System}
    → Reach n r s
    → (i j : ℕ) → i < n
    → j < n
    → owns (s.pc i) ≡ 1
    → owns (s.pc j) ≡ 1
    → i ≡ j
mutual_exclusion {n} {s = s} reach i j li lj oi oj =
    let inv = Reach-Inv reach in
    elim (Bool-cases (i == j)) [
      | inl same ↦ ground arith
      | inr other ↦ absurd (
          omega (
            arith,
            sum_over-split owns n i s.pc li,
            weight-le-sum_but owns n i j s.pc lj (ground arith),
            inv.owners,
            inv.word.locked_flag,
          ))
    ]

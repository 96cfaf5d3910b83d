-- ===== src/Htll/Refinement.antt =====
-- The lock of litl/src/htll.c and the abstract lock.
use htll.Common.{
  ℕ, ◌≤◌, ◌<◌, ◌≡◌, ◌∙◌, refl, sym, Bool, true, false, ◌&&◌, arith, List, [], ◌∷◌, Option, none,
  ==_refl, update, sum_over-pos,
}
use htll.Htll.Mutex.{Mutex, locked_of}
use htll.Htll.Thread.{Pc, idle, Input, move}
use htll.Htll.System.{System, run, wake_one, wake_none, Reach, start, later}
use htll.Htll.Exclusion.{owns, asleep-owns, mutual_exclusion, Reach-Inv}
use htll.Htll.Abstract.{Event, Spec, Runs, event, Agrees, Agrees-same, Turn, follow}

abbrev pub is_idle : Pc → Bool
is_idle idle = true
is_idle _ = false

pub at_idle : (p : Pc) → is_idle p ≡ true → p ≡ idle
at_idle idle e = refl
at_idle _ e = cc

-- What a move of thread `i` from `p` to `q` does to the abstract lock.
abbrev pub move_event : Input → ℕ → Pc → Pc → Event
move_event x i p q = event i (owns p) (owns q) (x.try && is_idle p)

abbrev pub trace : {n : ℕ} {r : Bool} {s : System} → Reach n r s → List Event
trace start = []
trace (later {s} reach (run x i lt ne ok)) =
    move_event x i (s.pc i) (move x s.mem (s.pc i)).1 ∷ trace reach
trace (later reach st) = Event.silent ∷ trace reach

-- What each thread has of the lock.
abbrev pub holds : System → ℕ → ℕ
holds s i = owns (s.pc i)

pub owns-le : (p : Pc) → owns p ≤ 1
owns-le p = ground arith

trylock_locked :
    (x : Input) (m : Mutex) → x.try ≡ true → owns (move x m idle).1 ≡ 0 → 0 < locked_of m.u
unfolding move
trylock_locked x m try failed = ground arith

-- A trylock that fails has found the byte `locked` set.
pub trylock_met :
    (x : Input) (m : Mutex) (p : Pc)
    → (x.try && is_idle p) ≡ true
    → owns p ≡ owns (move x m p).1
    → 0 < locked_of m.u
trylock_met x m p failed same =
    let here : p ≡ idle = at_idle p (ground arith) in
    trylock_locked x m (ground arith) (rw (sym here) (sym same ∙ rw here refl))

run-Turn :
    {n : ℕ} {r : Bool} {s : System} (reach : Reach n r s) (x : Input) (i : ℕ)
    → i < n
    → Reach n r
        (record { mem = (move x s.mem (s.pc i)).0; pc = update s.pc i (move x s.mem (s.pc i)).1 })
    → Turn n
        (holds s)
        (holds (record {
          mem = (move x s.mem (s.pc i)).0;
          pc = update s.pc i (move x s.mem (s.pc i)).1;
        }))
        i
        (owns (move x s.mem (s.pc i)).1)
        (x.try && is_idle (s.pc i))
run-Turn {n} {s = s} reach x i lt next = record {
  small = lt;
  after_h' = rw (==_refl i) refl;
  others = λ k other. rw other refl;
  le = λ k. owns-le (s.pc k);
  le' = λ k. owns-le (update s.pc i (move x s.mem (s.pc i)).1 k);
  alone = mutual_exclusion reach;
  alone' = mutual_exclusion next;
  met = λ failed same.
      sum_over-pos owns n s.pc
        (omega (arith, (Reach-Inv reach).owners, trylock_met x s.mem (s.pc i) failed same));
}

-- A thread that owns nothing becomes another that owns nothing.
swap-holds :
    (s : System) (i : ℕ) (q : Pc)
    → owns (s.pc i) ≡ owns q
    → (k : ℕ) → owns (update s.pc i q k) ≡ owns (s.pc k)
swap-holds s i q same k = ground arith

-- Every execution of any number of threads over the lock, inside and outside of segments, is an
-- execution of the abstract lock: a call takes it only while it is free, only the owner frees it,
-- and trylock returns EBUSY only while it has an owner.
pub trace-Runs :
    {n : ℕ} {r : Bool} {s : System} (reach : Reach n r s)
    → (o : Option ℕ) × Runs (trace reach) o × Agrees n (holds s) o
trace-Runs start = (none, Runs.empty, λ i lt. refl)
trace-Runs {n} (later {s} reach (run x i lt ne ok)) =
    let (o, runs, a) = trace-Runs reach in
    let (o', st, a') = follow (run-Turn reach x i lt (later reach (run x i lt ne ok))) o a in
    (o', Runs.more runs st, a')
trace-Runs {n} (later {s} reach (wake_one i j {q} li lj e sleeping)) =
    let (o, runs, a) = trace-Runs reach in
    let sleeper = asleep-owns (s.pc j) sleeping in
    let s' : System = record { mem = s.mem; pc = update s.pc i idle } in
    let woken = Agrees-same n (holds s) (holds s') o (swap-holds s i idle (rw e refl)) a in
    (
      o,
      Runs.more runs (Spec.silent o),
      Agrees-same n (holds s') (λ k. owns (update s'.pc j q k)) o (swap-holds s' j q (ground arith))
          woken,
    )
trace-Runs {n} (later {s} reach (wake_none i li e none_asleep)) =
    let (o, runs, a) = trace-Runs reach in
    (
      o,
      Runs.more runs (Spec.silent o),
      Agrees-same n (holds s) (λ k. owns (update s.pc i idle k)) o (swap-holds s i idle (rw e refl))
          a,
    )

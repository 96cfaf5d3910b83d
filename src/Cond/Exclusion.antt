-- ===== src/Cond/Exclusion.antt =====
-- The lock of litl/src/htll.c has one owner at most when its owners wait on a condition variable,
-- inside and outside of segments.
use htll.Common.{
  ℕ, ◌+◌, ◌≤◌, ◌<◌, ◌≡◌, refl, arith, ap, Bool, false, subst, ok, ◌==◌, Bool-cases, inl, inr,
  update, sum_over, sum_over-split, sum_over-update, sum_over-zero, weight-le-sum_but,
}
use htll.Htll.Mutex.{Mutex, mutex_create, locked_of, IsWord}
use htll.Htll.Thread.{Pc, idle, held}
use htll.Segment.State.{Local}
use htll.Epoch.Lock.{local_move, input_of}
use htll.Epoch.Exclusion.{local_move-move}
use htll.Htll.Exclusion.{owns, move-owns}
use htll.Cond.Wait.{enter}
use htll.Cond.Owners.{wait_owns, Keeps, wait_move-Keeps}
use htll.Cond.System.{
  Activity, locking, waiting, System, shared, Step, starts, ends, locks, calls, waits, returns,
  signals, broadcasts, init, Reach, start, later,
}

abbrev pub holds : Activity → ℕ
holds (locking p) = owns p
holds (waiting d p) = wait_owns p

pub record HasOwners (n : ℕ) (s : System) : Type 0 where
  pub word : IsWord s.mem.u
  pub owners : sum_over holds n s.activity ≡ locked_of s.mem.u

init-HasOwners : (n : ℕ) (t : Local) → HasOwners n (init t)
unfolding mutex_create
init-HasOwners n t = record {
  word = omega arith;
  owners = omega (arith, sum_over-zero holds n (λ _. locking idle) (λ _ _. refl));
}

-- A thread that changes its share of the owners and the byte `locked` alike.
alike :
    {n : ℕ} {s t : System} (inv : HasOwners n s) (i : ℕ) (a : Activity)
    → i < n
    → t.activity ≡ update s.activity i a
    → IsWord t.mem.u
    → locked_of t.mem.u + holds (s.activity i) ≡ locked_of s.mem.u + holds a
    → HasOwners n t
alike {n} {s} {t} inv i a lt e word same = record {
  word = word;
  owners = rw e (
      omega (
        arith,
        sum_over-update holds n i s.activity a lt,
        sum_over-split holds n i s.activity lt,
        same,
        inv.owners,
      ));
}

-- The share of one thread is a part of the owners.
share :
    {n : ℕ} {s : System} {a : Activity} (inv : HasOwners n s) (i : ℕ)
    → i < n
    → s.activity i ≡ a
    → (holds (s.activity i) ≡ holds a) × (holds a ≤ locked_of s.mem.u)
share {n} {s} inv i lt e =
    let same = ap holds e in
    (same, omega (arith, same, sum_over-split holds n i s.activity lt, inv.owners))

-- A move of a thread with segments changes the byte `locked` as the ownership of the thread.
local_move-owns :
    (try : Bool) (now : ℕ) (m : Mutex) (t : Local) (p : Pc) (r : Local × Mutex × Pc)
    → IsWord m.u
    → owns p ≤ locked_of m.u
    → local_move try now m t p ≡ ok r
    → IsWord r.1.u × (locked_of r.1.u + owns p ≡ locked_of m.u + owns r.2)
local_move-owns try now m t p r word part e =
    let own = move-owns (input_of try now t) m p word part in
    elim (local_move-move try now m t p r e) [
      | inl one ↦
          subst
            (λ (q : Mutex × Pc).
              IsWord q.0.u × (locked_of q.0.u + owns p ≡ locked_of m.u + owns q.1))
            one own
      | inr (l, sleeps, mem, pc) ↦
          let (_, count) =
            subst
              (λ (q : Mutex × Pc).
                IsWord q.0.u × (locked_of q.0.u + owns p ≡ locked_of m.u + owns q.1))
              sleeps own in
          rw (mem, pc) (word, count)
    ]

-- Every step of the segments, the locks, the waits and the notices keeps the lock word to its two
-- flags, and the byte `locked` equal to the number of owners: threads in lock and unlock, before
-- the unlock of a wait and behind its return.
Step-HasOwners : {n m : ℕ} {s t : System} → Step n m s t → HasOwners n s → HasOwners n t
unfolding Keeps
Step-HasOwners (starts i id now lt e between done) inv = record {
  word = inv.word;
  owners = inv.owners;
}
Step-HasOwners (ends i id required now lt e between done) inv = record {
  word = inv.word;
  owners = inv.owners;
}
Step-HasOwners {n} {m} {s} (locks try now i {p} {r} lt e moved) inv =
    let (same, part) = share inv i lt e in
    let (word, count) = local_move-owns try now s.mem (s.local i) p r inv.word part moved in
    alike inv i (locking r.2) lt refl word (omega (arith, same, count))
Step-HasOwners {n} {m} {s} (calls d i {w} lt e) inv =
    let (same, part) = share inv i lt e in
    alike inv i (waiting d enter) lt refl inv.word (omega (arith, same))
Step-HasOwners {n} {m} {s} (waits x tv i {d} {p} {p'} {v} lt e moved) inv =
    let (same, part) = share inv i lt e in
    let kept : Keeps (shared s i) p (ok (v, p')) =
      subst (Keeps (shared s i) p) moved (wait_move-Keeps m d x tv (shared s i) p inv.word part) in
    alike inv i (waiting d p') lt refl kept.0 (omega (arith, same, kept.1))
Step-HasOwners {n} {m} {s} (returns i ret lt e) inv =
    let (same, part) = share inv i lt e in
    alike inv i (locking (held false)) lt refl inv.word (omega (arith, same))
Step-HasOwners signals inv = record { word = inv.word; owners = inv.owners }
Step-HasOwners broadcasts inv = record { word = inv.word; owners = inv.owners }

Reach-HasOwners : {n m : ℕ} {t : Local} {s : System} → Reach n m t s → HasOwners n s
Reach-HasOwners {n} {t = t} start = init-HasOwners n t
Reach-HasOwners (later r st) = Step-HasOwners st (Reach-HasOwners r)

-- Of any number of threads that start and end segments, lock, wait on a condition variable with or
-- without a deadline, and notify it, at most one owns the lock in every reachable state; a thread
-- whose wait has returned is an owner, also when it has slept in the loop that takes the lock again.
pub exclusion_with_waits :
    {n m : ℕ} {t : Local} {s : System}
    → Reach n m t s
    → (i j : ℕ) → i < n
    → j < n
    → holds (s.activity i) ≡ 1
    → holds (s.activity j) ≡ 1
    → i ≡ j
exclusion_with_waits {n} {s = s} reach i j li lj oi oj =
    let inv = Reach-HasOwners reach in
    elim (Bool-cases (i == j)) [
      | inl same ↦ ground arith
      | inr other ↦ absurd (
          omega (
            arith,
            sum_over-split holds n i s.activity li,
            weight-le-sum_but holds n i j s.activity lj (ground arith),
            inv.owners,
            inv.word.locked_flag,
          ))
    ]

-- ===== src/Interpose/Once.antt =====
-- The initialisation in litl/src/interpose.c by many threads at once.
use htll.Common.{
  ℕ, ◌+◌, ◌≤◌, ◌<◌, ◌≡◌, refl, arith, ◌==◌, if◌then◌else◌, ok, update, sum_over, sum_over-split,
  sum_over-update, sum_over-zero, sum_over-le,
}
use htll.Interpose.Startup.{
  Loader, take_id, Point, outside, clearing, numbering, loading, returned, init_move,
}

pub record Starting : Type 0 where
  pub loader : Loader
  pub pc : ℕ → Point

-- One move of thread `i` that does not end the process.
pub data Step (n : ℕ) (s : Starting) : Starting → Type 0 where
  run :
      (i : ℕ) {l : Loader} {q : Point}
      → i < n
      → init_move s.loader (s.pc i) ≡ ok (l, q)
      → Step n s (record { loader = l; pc = update s.pc i q })

abbrev pub loaded : Starting
loaded = record {
  loader = record { init_spinlock = 0; last_thread_id = 0; clears = 0 };
  pc = λ _. outside;
}

pub data Reach (n : ℕ) : Starting → Type 0 where
  start : Reach n loaded
  later : {s t : Starting} → Reach n s → Step n s t → Reach n t

-- A thread that initialises, and one that has not cleared the table yet.
abbrev pub initialising : Point → ℕ
initialising clearing = 1
initialising numbering = 1
initialising (loading _) = 1
initialising _ = 0

abbrev pub is_clearing : Point → ℕ
is_clearing clearing = 1
is_clearing _ = 0

-- The least value of `init_spinlock` while a thread is at a point.
abbrev pub floor : Point → ℕ
floor outside = 0
floor returned = 2
floor _ = 1

-- How many threads initialise at a value of `init_spinlock`, and how often one has begun.
abbrev pub during : ℕ → ℕ
during s = if s == 1 then 1 else 0

abbrev pub begun : ℕ → ℕ
begun s = if s == 0 then 0 else 1

pub record Inv (n : ℕ) (s : Starting) : Type 0 where
  pub range : s.loader.init_spinlock ≤ 2
  pub one : sum_over initialising n s.pc ≡ during s.loader.init_spinlock
  pub cleared : s.loader.clears + sum_over is_clearing n s.pc ≡ begun s.loader.init_spinlock
  pub ready : (i : ℕ) → floor (s.pc i) ≤ s.loader.init_spinlock

loaded-Inv : (n : ℕ) → Inv n loaded
loaded-Inv n = record {
  range = omega arith;
  one = sum_over-zero initialising n (λ _. outside) (λ _ _. refl);
  cleared = omega (arith, sum_over-zero is_clearing n (λ _. outside) (λ _ _. refl));
  ready = λ i. omega arith;
}

-- One move, with the threads that initialise and that clear beside the one that moves.
record Moved (l : Loader) (p : Point) (l' : Loader) (q : Point) : Type 0 where
  range : l'.init_spinlock ≤ 2
  one : initialising q + during l.init_spinlock ≡ initialising p + during l'.init_spinlock
  cleared :
      l'.clears + is_clearing q + begun l.init_spinlock
      ≡ l.clears + is_clearing p + begun l'.init_spinlock
  ready : floor q ≤ l'.init_spinlock
  rises : l.init_spinlock ≤ l'.init_spinlock

init_move-Moved :
    (l l' : Loader) (p q : Point)
    → l.init_spinlock ≤ 2
    → initialising p ≤ during l.init_spinlock
    → floor p ≤ l.init_spinlock
    → init_move l p ≡ ok (l', q)
    → Moved l p l' q
unfolding init_move take_id
init_move-Moved l l' p q range some_one ready e = record {
  range = ground arith;
  one = ground arith;
  cleared = ground arith;
  ready = ground arith;
  rises = ground arith;
}

Step-Inv : {n : ℕ} {s t : Starting} → Step n s t → Inv n s → Inv n t
Step-Inv {n} {s} (run i {l} {q} lt e) inv =
    let split = sum_over-split initialising n i s.pc lt in
    let split' = sum_over-split is_clearing n i s.pc lt in
    let moved =
      init_move-Moved s.loader l (s.pc i) q inv.range (omega (arith, split, inv.one)) (inv.ready i)
        e in
    record {
      range = moved.range;
      one = omega (arith, sum_over-update initialising n i s.pc q lt, split, moved.one, inv.one);
      cleared =
          omega
            (arith, sum_over-update is_clearing n i s.pc q lt, split', moved.cleared, inv.cleared);
      ready = λ j. ground (arith, moved.ready, moved.rises, inv.ready j);
    }

pub Reach-Inv : {n : ℕ} {s : Starting} → Reach n s → Inv n s
Reach-Inv {n} start = loaded-Inv n
Reach-Inv (later r st) = Step-Inv st (Reach-Inv r)

is_clearing_le : (p : Point) → is_clearing p ≤ initialising p
is_clearing_le p = ground arith

-- However many threads come to the initialisation at once: when one of them returns from it, the
-- table has been cleared exactly once, `init_spinlock` is 2, and no thread is in the
-- initialisation.
pub initialised_once :
    {n : ℕ} {s : Starting}
    → Reach n s
    → (i : ℕ) → i < n
    → s.pc i ≡ returned
    → (s.loader.clears ≡ 1) × (s.loader.init_spinlock ≡ 2) × (sum_over initialising n s.pc ≡ 0)
initialised_once {n} {s} reach i lt e =
    let inv = Reach-Inv reach in
    let two : s.loader.init_spinlock ≡ 2 = ground (arith, inv.ready i, inv.range) in
    let none_left : sum_over initialising n s.pc ≡ 0 = ground (arith, inv.one) in
    let no_clear = sum_over-le is_clearing initialising n s.pc (λ p. is_clearing_le p) in
    (ground (arith, inv.cleared, no_clear), two, none_left)

-- ===== src/Bench/Counts.antt =====
-- The shared words of litl/bench/bench_block.c and the counters of its threads.
use htll.Common.{
  ℕ, ◌+◌, ◌*◌, ◌%◌, ◌^◌, ◌<◌, ◌≡◌, ◌≢◌, refl, ap, subst, arith, Bool, true, false, Bool-cases, inl,
  inr, ◌||◌, ◌==◌, ==_iff, update, u64, sum_over, sum_over-split, sum_over-update, sum_over-zero,
}
use htll.Htll.Thread.{Pc, held, wake, Input, move}
use htll.Htll.System
use htll.Htll.Exclusion.{mutual_exclusion}
use htll.Bench.Access.{Area, out, done, head, access_move}
use htll.Bench.Pending.{
  pending, Reads, head-Reads, access_move-Reads, access_move-pending, inside, outside,
  access_move-inside,
}
use htll.Bench.Tally.{share, requests, begun_share, counted}
use htll.Bench.Threads.{
  Bench, Setup, area_of, Step, locks, begins, works, unlocks, init, Reach, start, later,
}

module _ (u : Setup) (n : ℕ) (r : Bool) (areas : ℕ → Area) where
  pub record Inv (s : Bench) : Type 0 where
    pub reach : System.Reach n r s.lock
    pub holder : (i : ℕ) → inside (s.body i) ≡ true → (i < n) × (w : Bool) × (s.lock.pc i ≡ held w)
    pub reads : (i : ℕ) → Reads s.areas (s.body i)
    pub words :
        (a k : ℕ)
        → k < u.number a
        → (s.areas a (8 * k + 7) + 2 * sum_over (pending a k) n s.body) % 2 ^ 64
          ≡ (areas a (8 * k + 7) + 2 * requests u n a s.global_cnt) % 2 ^ 64

  init-Inv : Inv (init areas)
  init-Inv = record {
    reach = System.start;
    holder = λ i e. cc;
    reads = λ i. tt;
    words = λ a k lt. omega (
      arith,
      sum_over-zero (pending a k) n (λ _. out) (λ i less. refl),
      sum_over-zero (λ c. c) n (share u a (λ _. 0)) (λ i less. ground arith),
    );
  }

  locks-Inv :
      {s : Bench} {t : System.System}
      → System.Step n r s.lock t
      → ((i : ℕ) (w : Bool) → s.lock.pc i ≡ held w → t.pc i ≡ held w)
      → Inv s
      → Inv (record s { lock = t })
  locks-Inv st stay inv = record {
    reach = System.later inv.reach st;
    holder = λ i e. let (lt, w, at) = inv.holder i e in (lt, w, stay i w at);
    reads = inv.reads;
    words = inv.words;
  }

  -- Only one thread is in a request.
  alone :
      {s : Bench} (inv : Inv s) (i j : ℕ)
      → inside (s.body i) ≡ true
      → inside (s.body j) ≡ true
      → i ≡ j
  alone inv i j ei ej =
      let (li, w, at) = inv.holder i ei in
      let (lj, w', at') = inv.holder j ej in
      mutual_exclusion inv.reach i j li lj (rw at refl) (rw at' refl)

  others-Reads :
      {s : Bench} (i j : ℕ)
      → Inv s
      → (i == j) ≡ false
      → Reads (access_move u.number s.areas (s.body i)).0 (s.body j)
  unfolding access_move
  others-Reads {s} i j inv ne = elim (Bool-cases (inside (s.body j))) [
    | inr none_there ↦ rw (outside (s.body j) none_there) tt
    | inl there ↦ elim (Bool-cases (inside (s.body i))) [
      | inr none_here ↦ rw (outside (s.body i) none_here) (inv.reads j)
      | inl here ↦ absurd (ground (arith, alone inv i j here there))
    ]
  ]

  works-Inv :
      {s : Bench} (i : ℕ)
      → i < n
      → Inv s
      → Inv (record s {
        areas = (access_move u.number s.areas (s.body i)).0;
        body = update s.body i (access_move u.number s.areas (s.body i)).1;
      })
  works-Inv {s} i lt inv = record {
    reach = inv.reach;
    holder = λ j e. elim (Bool-cases (i == j)) [
      | inl same ↦ inv.holder j (ground (arith, access_move-inside u.number s.areas (s.body i)))
      | inr other ↦ inv.holder j (ground arith)
    ];
    reads = λ j. elim (Bool-cases (i == j)) [
      | inl same ↦ rw same (access_move-Reads u.number s.areas (s.body i) (inv.reads i))
      | inr other ↦ rw other (others-Reads i j inv other)
    ];
    words = λ a k less. omega (
      arith,
      access_move-pending u.number s.areas (s.body i) a k less (inv.reads i),
      sum_over-update (pending a k) n i s.body (access_move u.number s.areas (s.body i)).1 lt,
      sum_over-split (pending a k) n i s.body lt,
      inv.words a k less,
    );
  }

  begins-Inv :
      {s : Bench} (i : ℕ) (w : Bool)
      → i < n
      → s.lock.pc i ≡ held w
      → s.body i ≡ out
      → Inv s
      → Inv (record s {
        global_cnt = update s.global_cnt i (u64 (s.global_cnt i + 1));
        body = update s.body i (head (u.number (area_of u i)) (area_of u i) 0);
      })
  begins-Inv {s} i w lt at was_out inv = record {
    reach = inv.reach;
    holder = λ j e. elim (Bool-cases (i == j)) [
      | inl same ↦
          subst (λ x. (x < n) × (w : Bool) × (s.lock.pc x ≡ held w)) ((==_iff i j).0 same)
            (lt, w, at)
      | inr other ↦ inv.holder j (ground arith)
    ];
    reads = λ j. elim (Bool-cases (i == j)) [
      | inl same ↦ rw same (head-Reads s.areas (u.number (area_of u i)) (area_of u i) 0)
      | inr other ↦ rw other (inv.reads j)
    ];
    words = λ a k less. omega (
      arith,
      sum_over-update (pending a k) n i s.body (head (u.number (area_of u i)) (area_of u i) 0) lt,
      sum_over-split (pending a k) n i s.body lt,
      ap (pending a k) was_out,
      begun_share u n i a k less,
      counted u n s.global_cnt i a lt,
      inv.words a k less,
    );
  }

  abbrev Released : Input → Bench → ℕ → Pc → Type 0
  Released x s i p =
      System.Reach n r
        (record { mem = (move x s.lock.mem p).0; pc = update s.lock.pc i (move x s.lock.mem p).1 })

  held_not_wake : (s : Bench) (i : ℕ) (w : Bool) → s.lock.pc i ≡ held w → s.lock.pc i ≢ wake
  held_not_wake s i w at e = ground arith

  unlocks-Inv :
      (x : Input) {s : Bench} (i : ℕ) (w : Bool)
      → i < n
      → s.lock.pc i ≡ held w
      → s.body i ≡ done
      → (x.outside || r) ≡ true
      → Inv s
      → Inv (record s {
        lock = record {
          mem = (move x s.lock.mem (held w)).0;
          pc = update s.lock.pc i (move x s.lock.mem (held w)).1;
        };
        body = update s.body i out;
      })
  unlocks-Inv x {s} i w lt at was_done ok inv = record {
    reach =
        subst (Released x s i) at
          (System.later inv.reach (System.run x i lt (held_not_wake s i w at) ok));
    holder = λ j e. elim (Bool-cases (i == j)) [
      | inl same ↦ absurd (ground arith)
      | inr other ↦ let (lj, v, at') = inv.holder j (ground arith) in (lj, v, rw other at')
    ];
    reads = λ j. elim (Bool-cases (i == j)) [
      | inl same ↦ rw same tt
      | inr other ↦ rw other (inv.reads j)
    ];
    words = λ a k less. omega (
      arith,
      sum_over-update (pending a k) n i s.body out lt,
      sum_over-split (pending a k) n i s.body lt,
      ap (pending a k) was_done,
      inv.words a k less,
    );
  }

  Step-Inv : {s t : Bench} → Step u n r s t → Inv s → Inv t
  Step-Inv (locks st stay) inv = locks-Inv st stay inv
  Step-Inv (begins i {w} lt small at was_out) inv = begins-Inv i w lt at was_out inv
  Step-Inv (works i lt) inv = works-Inv i lt inv
  Step-Inv (unlocks x i {w} lt at was_done ok) inv = unlocks-Inv x i w lt at was_done ok inv

  Reach-Inv : {s : Bench} → Reach u n r areas s → Inv s
  Reach-Inv start = init-Inv
  Reach-Inv (later reach st) = Step-Inv st (Reach-Inv reach)

-- No update of the shared words is lost: with any number of threads that run requests of both
-- kinds under the lock, inside and outside of segments, whenever no thread is in the critical
-- section, word 7 of each variable of an area is, modulo 2^64, what malloc had found there and
-- twice the number of requests that the counters of the threads of this area tell.
pub no_lost_update :
    (u : Setup) (n : ℕ) {r : Bool} {areas : ℕ → Area} {s : Bench}
    → Reach u n r areas s
    → ((i : ℕ) → s.body i ≡ out)
    → (a k : ℕ) → k < u.number a
    → s.areas a (8 * k + 7) % 2 ^ 64
      ≡ (areas a (8 * k + 7) + 2 * requests u n a s.global_cnt) % 2 ^ 64
no_lost_update u n {r} {areas} {s} reach quiet a k less = omega (
  arith,
  (Reach-Inv u n r areas reach).words a k less,
  sum_over-zero (pending a k) n s.body (λ i lt. rw (quiet i) refl),
)

-- ===== src/Concurrent/Exclusion.antt =====
-- The holders of a pthread mutex that has been initialised: the table of litl/src/interpose.c and
-- the lock of litl/src/htll.c together.
use htll.Common.{
  ℕ, ◌≡◌, ◌≢◌, ◌<◌, inl, inr, refl, sym, arith, ap, ◌==◌, ◌∙◌, if◌then◌else◌, Bool-cases, subst,
  ==_iff, ==_refl, sum_over-split, sum_over-zero, weight-le-sum_but,
}
use htll.Htll.Mutex.{mutex_create}
use htll.Htll.Thread.{Pc}
use htll.Htll.Exclusion.{owns}
use htll.Concurrent.Slots.{Slots, Call, outside, got, stored, System, init}
use htll.Concurrent.Slots
use htll.Concurrent.Claims.{Knows}
use htll.Concurrent.Invariant
use htll.Concurrent.Lookups.{IsFirst, Follows, stored-IsFirst}
use htll.Concurrent.Owners.{Steps-IsOwned, init-IsOwned}
use htll.Concurrent.Program.{Work, apart, missed, using, Program, Steps, here, next}
use htll.Concurrent.Guards.{owns_at, Fits, Guarded, Step-Guarded}

-- Whether a thread owns the lock of a mutex.
abbrev pub holds : ℕ → Work → ℕ
holds m (using q v c) = if q == m then owns c else 0
holds m _ = 0

holds-using :
    (m : ℕ) (w : Work) → holds m w ≡ 1 → (v : ℕ) × (c : Pc) × (w ≡ using m v c) × (owns c ≡ 1)
holds-using m (using q v c) e = elim (Bool-cases (q == m)) [
  | inl same ↦ (v, c, ap (λ x. using x v c) ((==_iff q m).0 same), ground arith)
  | inr other ↦ absurd (ground arith)
]
holds-using m apart e = cc
holds-using m (missed q) e = cc

-- A program whose main thread `b` has initialised the mutex `m`: its insertion has returned, no
-- other thread has called the library yet, and all locks are as new.
pub record IsReady (owner : ℕ → ℕ) (m b : ℕ) (s : Program) : Type 0 where
  pub reached : Slots.Steps owner init s.table
  pub impl : ℕ
  pub index : ℕ
  pub main : s.table.call b ≡ stored m impl index
  pub others : (a : ℕ) → a ≢ b → s.table.call a ≡ outside
  pub working : (a : ℕ) → s.work a ≡ apart
  pub new : (v : ℕ) → s.locks v ≡ mutex_create

module _ {owner : ℕ → ℕ} {m b : ℕ} (n : ℕ) {s : Program} (ready : IsReady owner m b s) where
  known : Knows s.table.slots (stored m ready.impl ready.index)
  known =
      subst (Knows s.table.slots) ready.main
        ((Invariant.Steps-Inv ready.reached Invariant.init-Inv).knows b)

  pub first : (f : ℕ) × IsFirst s.table.slots m f
  first = stored-IsFirst s.table.slots m ready.impl ready.index known

  ready-Follows : (a : ℕ) → Follows s.table.slots m first.0 (s.table.call a)
  ready-Follows a = elim (Bool-cases (a == b)) [
    | inl same ↦ rw ((==_iff a b).0 same, ready.main) tt
    | inr other ↦ rw (ready.others a (ground arith)) tt
  ]

  ready-Guarded : Guarded owner n m first.0 s
  unfolding mutex_create
  ready-Guarded = record {
    table = Invariant.Steps-Inv ready.reached Invariant.init-Inv;
    owned = Steps-IsOwned owner Invariant.init-Inv ready.reached (init-IsOwned owner);
    first = first.1;
    follows = ready-Follows;
    fits = λ a. rw (ready.working a) tt;
    word = λ v o. rw (ready.new v) (omega arith);
    owners = λ v o.
        rw (ready.new v) (sum_over-zero (owns_at v) n s.work (λ a lt. rw (ready.working a) refl));
  }

  pub Steps-Guarded : {t : Program} → Steps owner n s t → Guarded owner n m first.0 t
  Steps-Guarded here = ready-Guarded
  Steps-Guarded (next r st) = Step-Guarded owner n m first.0 known.0 st (Steps-Guarded r)

-- When the main thread has initialised a pthread mutex, then of any number of threads that look
-- its lock up in the table, lock, try and unlock it, at most one owns it at any time, whatever the
-- threads do with other mutexes, those included that are used for the first time by several
-- threads at once.
pub mutex_exclusion :
    {owner : ℕ → ℕ} {m b : ℕ} (n : ℕ) {s t : Program}
    → IsReady owner m b s
    → Steps owner n s t
    → (i j : ℕ) → i < n
    → j < n
    → holds m (t.work i) ≡ 1
    → holds m (t.work j) ≡ 1
    → i ≡ j
mutex_exclusion {owner} {m} n {s} {t} ready run i j li lj hi hj =
    let g = Steps-Guarded n ready run in
    let (v, c, e, oc) = holds-using m (t.work i) hi in
    let (v', c', e', oc') = holds-using m (t.work j) hj in
    let fits = subst (Fits owner n m (first n ready).0 t.table.slots) e (g.fits i) in
    let fits' = subst (Fits owner n m (first n ready).0 t.table.slots) e' (g.fits j) in
    let same : v' ≡ v = (fits'.1 refl).0 ∙ sym (fits.1 refl).0 in
    let mine : owns_at v (t.work i) ≡ 1 = ap (owns_at v) e ∙ rw (==_refl v) oc in
    let yours : owns_at v (t.work j) ≡ 1 = ap (owns_at v) e' ∙ rw (same, ==_refl v) oc' in
    elim (Bool-cases (i == j)) [
      | inl equal ↦ (==_iff i j).0 equal
      | inr other ↦ absurd (
          omega (
            arith,
            mine,
            yours,
            sum_over-split (owns_at v) n i t.work li,
            weight-le-sum_but (owns_at v) n i j t.work lj (ground arith),
            g.owners v fits.0,
            (g.word v fits.0).locked_flag,
          ))
    ]

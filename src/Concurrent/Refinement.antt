-- ===== src/Concurrent/Refinement.antt =====
-- An initialised pthread mutex behind litl/src/interpose.c and litl/src/htll.c, and the abstract
-- lock.
use htll.Common.{
  ℕ, ◌≤◌, ◌<◌, ◌≡◌, ◌∙◌, refl, sym, ap, subst, true, ◌&&◌, arith, List, [], ◌∷◌, Option, none, ◌==◌,
  ==_iff, ==_refl, if◌then◌else◌, update, sum_over-pos, Bool-cases, inl, inr,
}
use htll.Htll.Thread.{Pc, idle, held, release, Input, move}
use htll.Htll.Exclusion.{owns}
use htll.Htll.Abstract.{Event, Spec, Runs, event, Agrees, Agrees-same, Turn, follow}
use htll.Htll.Refinement.{is_idle, move_event, trylock_met, owns-le}
use htll.Concurrent.Slots.{Slots}
use htll.Concurrent.Program.{
  Work, apart, missed, using, Program, Step, table_step, finds, misses, creates, locks_move,
  unlocks, leaves, Steps, here, next,
}
use htll.Concurrent.Guards.{owns_at, Fits}
use htll.Concurrent.Exclusion.{holds, IsReady, first, Steps-Guarded, mutex_exclusion}

-- What a step does to the abstract lock of the mutex `m`.
abbrev pub step_event : {owner : ℕ → ℕ} {n : ℕ} (m : ℕ) {s t : Program} → Step owner n s t → Event
step_event m {s} (locks_move x a {m = q} {v} {q = c} lt w free) =
    if q == m then move_event x a c (move x (s.locks v) c).1 else Event.silent
step_event m st = Event.silent

abbrev pub trace : {owner : ℕ → ℕ} {n : ℕ} (m : ℕ) {s t : Program} → Steps owner n s t → List Event
trace m here = []
trace m (next run st) = step_event m st ∷ trace m run

holds-le : (m : ℕ) (w : Work) → holds m w ≤ 1
holds-le m (using q v c) = ground (arith, owns-le c)
holds-le m apart = omega arith
holds-le m (missed q) = omega arith

-- A thread that changes its work, and has as much of the lock as before.
work-holds :
    (m : ℕ) (work : ℕ → Work) (a : ℕ) (w w' : Work)
    → work a ≡ w
    → holds m w ≡ holds m w'
    → (k : ℕ) → holds m (update work a w' k) ≡ holds m (work k)
work-holds m work a w w' e same k = elim (Bool-cases (a == k)) [
  | inl mover ↦ rw mover (
      subst (λ x. holds m w' ≡ holds m (work x)) ((==_iff a k).0 mover)
        (sym same ∙ sym (ap (holds m) e)))
  | inr other ↦ rw other refl
]

-- Who has a share of the lock of the mutex holds the mutex.
share-holds :
    (owner : ℕ → ℕ) (n m f v : ℕ) (t : Slots) (w : Work)
    → owner v ≡ m
    → Fits owner n m f t w
    → 0 < owns_at v w
    → 0 < holds m w
share-holds owner n m f v t (using q u c) o fits pos = elim (Bool-cases (u == v)) [
  | inl same ↦
      let mutex : q ≡ m = sym fits.0 ∙ ap owner ((==_iff u v).0 same) ∙ o in
      rw (mutex, ==_refl m) (ground arith)
  | inr other ↦ absurd (ground arith)
]
share-holds owner n m f v t apart o fits pos = absurd (omega arith)
share-holds owner n m f v t (missed q) o fits pos = absurd (omega arith)

-- A move in a function of the lock of the mutex itself.
module _ {owner : ℕ → ℕ} {m b n : ℕ} {s t : Program} (ready : IsReady owner m b s)
    (run : Steps owner n s t) where
  abbrev moved : Input → ℕ → ℕ → Pc → Program
  moved x a v c = record t {
    locks = update t.locks v (move x (t.locks v) c).0;
    work = update t.work a (using m v (move x (t.locks v) c).1);
  }

  met_owner :
      (x : Input) (a v : ℕ) (c : Pc)
      → t.work a ≡ using m v c
      → (x.try && is_idle c) ≡ true
      → owns c ≡ owns (move x (t.locks v) c).1
      → (k : ℕ) × (k < n) × (0 < holds m (t.work k))
  met_owner x a v c w failed same =
      let g = Steps-Guarded n ready run in
      let f = (first n ready).0 in
      let own : owner v ≡ m = (subst (Fits owner n m f t.table.slots) w (g.fits a)).0 in
      let busy = trylock_met x (t.locks v) c failed same in
      let (k, lt, pos) =
        sum_over-pos (owns_at v) n t.work (subst (λ d. 0 < d) (sym (g.owners v own)) busy) in
      (k, lt, share-holds owner n m f v t.table.slots (t.work k) own (g.fits k) pos)

  move-Turn :
      (x : Input) (a v : ℕ) (c : Pc)
      → a < n
      → t.work a ≡ using m v c
      → Steps owner n s (moved x a v c)
      → Turn n
          (λ k. holds m (t.work k))
          (λ k. holds m ((moved x a v c).work k))
          a
          (owns (move x (t.locks v) c).1)
          (x.try && is_idle c)
  move-Turn x a v c lt w run' = record {
    small = lt;
    after_h' = rw (==_refl a, ==_refl m) refl;
    others = λ k other. rw other refl;
    le = λ k. holds-le m (t.work k);
    le' = λ k. holds-le m ((moved x a v c).work k);
    alone = mutex_exclusion n ready run;
    alone' = mutex_exclusion n ready run';
    met = λ failed same.
        met_owner x a v c w failed (sym (ap (holds m) w ∙ rw (==_refl m) refl) ∙ same);
  }

  abbrev Follows : Event → Program → Type 0
  Follows e u =
      (o : Option ℕ)
      → Agrees n (λ k. holds m (t.work k)) o
      → (o' : Option ℕ) × Spec e o o' × Agrees n (λ k. holds m (u.work k)) o'

  move-Follows :
      (x : Input) (a v : ℕ) (c : Pc)
      → a < n
      → t.work a ≡ using m v c
      → Steps owner n s (moved x a v c)
      → Follows (move_event x a c (move x (t.locks v) c).1) (moved x a v c)
  move-Follows x a v c lt w run' o agrees =
      let mine : holds m (t.work a) ≡ owns c = ap (holds m) w ∙ rw (==_refl m) refl in
      let (o', st, agrees') = follow (move-Turn x a v c lt w run') o agrees in
      (
        o',
        subst (λ h. Spec (event a h (owns (move x (t.locks v) c).1) (x.try && is_idle c)) o o') mine
            st,
        agrees',
      )

  silent-Follows :
      (u : Program) → ((k : ℕ) → holds m (u.work k) ≡ holds m (t.work k)) → Follows Event.silent u
  silent-Follows u same o agrees = (
    o,
    Spec.silent o,
    Agrees-same n (λ k. holds m (t.work k)) (λ k. holds m (u.work k)) o same agrees,
  )

  abbrev located : Input → ℕ → ℕ → ℕ → Pc → Program
  located x a q v c = record t {
    locks = update t.locks v (move x (t.locks v) c).0;
    work = update t.work a (using q v (move x (t.locks v) c).1);
  }

  -- A move in a function of the lock of any mutex.
  abbrev Located : Input → ℕ → ℕ → Pc → ℕ → Type 0
  Located x a v c q =
      t.work a ≡ using q v c
      → Steps owner n s (located x a q v c)
      → Follows (if q == m then move_event x a c (move x (t.locks v) c).1 else Event.silent)
          (located x a q v c)

  locks-Follows : (x : Input) (a q v : ℕ) (c : Pc) → a < n → Located x a v c q
  locks-Follows x a q v c lt = elim (Bool-cases (q == m)) [
    | inl same ↦
        subst (Located x a v c) (sym ((==_iff q m).0 same))
          (λ w run'. rw (==_refl m) (move-Follows x a v c lt w run'))
    | inr other ↦ λ w run'. rw other (
        silent-Follows (located x a q v c) (
          work-holds m t.work a (using q v c) (using q v (move x (t.locks v) c).1) w
            (rw other refl)))
  ]

  step-Follows :
      {u : Program} (st : Step owner n t u) → Steps owner n s u → Follows (step_event m st) u
  step-Follows {u} (table_step st) run' = silent-Follows u (λ k. refl)
  step-Follows {u} (finds a q v lt e w) run' =
      silent-Follows u (work-holds m t.work a apart (using q v idle) w (ground arith))
  step-Follows {u} (misses a q lt e w) run' =
      silent-Follows u (work-holds m t.work a apart (missed q) w refl)
  step-Follows {u} (creates a q v i lt e w) run' =
      silent-Follows u (work-holds m t.work a (missed q) (using q v idle) w (ground arith))
  step-Follows {u} (locks_move x a {m = q} {v} {q = c} lt w free) run' =
      locks-Follows x a q v c lt w run'
  step-Follows {u} (unlocks a v' {m = q} {v} {w = d} lt e w) run' =
      silent-Follows u (work-holds m t.work a (using q v (held d)) (using q v' release) w refl)
  step-Follows {u} (leaves a {m = q} {v} lt w) run' =
      silent-Follows u (work-holds m t.work a (using q v idle) apart w (ground arith))

-- When the main thread has initialised a pthread mutex, then every execution of any number of
-- threads that look its lock up, lock, try and unlock it is an execution of the abstract lock, of
-- this mutex alone: whatever the threads do with other mutexes at the same time, a call takes the
-- mutex only while it is free, only its owner frees it, and trylock returns EBUSY only while it
-- has an owner.
pub mutex-Runs :
    {owner : ℕ → ℕ} {m b : ℕ} (n : ℕ) {s t : Program}
    → IsReady owner m b s
    → (run : Steps owner n s t)
    → (o : Option ℕ) × Runs (trace m run) o × Agrees n (λ k. holds m (t.work k)) o
mutex-Runs {m = m} n ready here = (none, Runs.empty, λ i lt. rw (ready.working i) refl)
mutex-Runs {m = m} n ready (next run st) =
    let (o, runs, agrees) = mutex-Runs n ready run in
    let (o', spec, agrees') = step-Follows ready run st (next run st) o agrees in
    (o', Runs.more runs spec, agrees')

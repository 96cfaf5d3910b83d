-- ===== src/Concurrent/Guards.antt =====
-- The invariant of the table of litl/src/interpose.c and the locks of litl/src/htll.c together, for
-- a mutex that has been initialised.
use htll.Common.{
  ℕ, ◌+◌, ◌≡◌, ◌≢◌, ◌≤◌, ◌<◌, inl, inr, refl, arith, ap, Bool, none, some, ◌==◌, ◌∙◌, if◌then◌else◌,
  update, Bool-cases, subst, ==_iff, ==_refl, sum_over, sum_over-split, sum_over-update,
}
use htll.Interpose.Table.{my_hash}
use htll.Htll.Mutex.{Mutex, locked_of, IsWord}
use htll.Htll.Thread.{Pc, idle, held, release, Input, move}
use htll.Htll.Exclusion.{owns, move-owns}
use htll.Concurrent.Slots.{Slots, Call, outside, got, stored, System, init}
use htll.Concurrent.Slots
use htll.Concurrent.Claims.{Grows, Inv}
use htll.Concurrent.Invariant
use htll.Concurrent.Lookups.{IsFirst, Follows, Step-Grows, Grows-IsFirst, Step-Follows}
use htll.Concurrent.Owners.{IsOwned, Belongs, Step-IsOwned}
use htll.Concurrent.Program.{
  Work, apart, missed, using, Program, Step, table_step, finds, misses, creates, locks_move,
  unlocks, leaves,
}

-- A thread's share of the lock at `v`.
abbrev pub owns_at : ℕ → Work → ℕ
owns_at v (using m u q) = if u == v then owns q else 0
owns_at v _ = 0

module _ (owner : ℕ → ℕ) (n m f : ℕ) where
  -- A thread that works on the mutex has the lock of its first slot.
  abbrev pub Fits : Slots → Work → Type 0
  Fits t apart = Unit
  Fits t (missed q) = q ≢ m
  Fits t (using q v c) = (owner v ≡ q) × (q ≡ m → (v ≡ (t (my_hash m) f).value) × (v ≢ 0))

  pub record Guarded (s : Program) : Type 0 where
    pub table : Inv s.table
    pub owned : IsOwned owner s.table
    pub first : IsFirst s.table.slots m f
    pub follows : (a : ℕ) → Follows s.table.slots m f (s.table.call a)
    pub fits : (a : ℕ) → Fits s.table.slots (s.work a)
    pub word : (v : ℕ) → owner v ≡ m → IsWord (s.locks v).u
    pub owners : (v : ℕ) → owner v ≡ m → sum_over (owns_at v) n s.work ≡ locked_of (s.locks v).u

  Grows-Fits : (t t' : Slots) (w : Work) → Grows t t' → Fits t w → Fits t' w
  Grows-Fits t t' apart g k = tt
  Grows-Fits t t' (missed q) g k = k
  Grows-Fits t t' (using q v c) g k = (k.0, λ e. ground (arith, g.values (my_hash m) f, k.1 e))

  table_step-Guarded :
      {s : Program} {t : System}
      → m ≢ 0
      → Guarded s
      → Slots.Step owner s.table t
      → Guarded (record s { table = t })
  table_step-Guarded {s} {t} nm g st =
      let grows = Step-Grows g.table st in
      record {
        table = Invariant.Step-Inv st g.table;
        owned = Step-IsOwned owner g.table st g.owned;
        first = Grows-IsFirst s.table.slots t.slots m f nm grows g.first;
        follows = λ a. Step-Follows m f a nm g.table st g.first (g.follows a);
        fits = λ a. Grows-Fits s.table.slots t.slots (s.work a) grows (g.fits a);
        word = g.word;
        owners = g.owners;
      }

  -- A thread that goes on to other work, and changes the locks by its own share of each.
  works-Guarded :
      {s : Program} (a : ℕ) (w : Work) (locks : ℕ → Mutex)
      → a < n
      → Guarded s
      → Fits s.table.slots w
      → ((v : ℕ)
          → owner v ≡ m
          → IsWord (locks v).u
            × (locked_of (locks v).u + owns_at v (s.work a)
                ≡ locked_of (s.locks v).u + owns_at v w))
      → Guarded (record s { locks = locks; work = update s.work a w })
  works-Guarded {s} a w locks lt g k share = record {
    table = g.table;
    owned = g.owned;
    first = g.first;
    follows = g.follows;
    fits =
        λ b. elim (Bool-cases (a == b)) [ inl same ↦ rw same k | inr other ↦ rw other (g.fits b) ];
    word = λ v o. (share v o).0;
    owners = λ v o. omega (
      arith,
      sum_over-update (owns_at v) n a s.work w lt,
      sum_over-split (owns_at v) n a s.work lt,
      (share v o).1,
      g.owners v o,
    );
  }

  -- The locks stay as they are.
  idles-Guarded :
      {s : Program} (a : ℕ) (w w' : Work)
      → a < n
      → Guarded s
      → s.work a ≡ w
      → Fits s.table.slots w'
      → ((v : ℕ) → owner v ≡ m → owns_at v w ≡ owns_at v w')
      → Guarded (record s { work = update s.work a w' })
  idles-Guarded {s} a w w' lt g e k same =
      works-Guarded a w' s.locks lt g k
        (λ v o. (g.word v o, ap (λ x. locked_of (s.locks v).u + x) (ap (owns_at v) e ∙ same v o)))

  -- A lock that a lookup of the mutex has found, and one of another.
  found-Fits :
      {s : Program} (a q v : ℕ) (c : Pc)
      → Guarded s
      → s.table.call a ≡ got q (some v)
      → Fits s.table.slots (using q v c)
  found-Fits {s} a q v c g e =
      let own : owner v ≡ q = subst (Belongs owner s.table.slots) e (g.owned.calls a) in
      let follows = subst (Follows s.table.slots m f) e (g.follows a) in
      (own, λ same. ground (arith, follows same))

  missed-Fits : {s : Program} (a q : ℕ) → Guarded s → s.table.call a ≡ got q none → q ≢ m
  missed-Fits {s} a q g e same =
      let follows = subst (Follows s.table.slots m f) e (g.follows a) in
      ground (arith, follows same)

  -- What a move in a function of the lock at `v` does to the lock at `u` and to the share of it.
  abbrev Shares : Program → ℕ → ℕ → Input → Pc → ℕ → Type 0
  Shares s a v x c u =
      IsWord (update s.locks v (move x (s.locks v) c).0 u).u
      × (locked_of (update s.locks v (move x (s.locks v) c).0 u).u + owns_at u (s.work a)
          ≡ locked_of (s.locks u).u + (if v == u then owns (move x (s.locks v) c).1 else 0))

  own_share :
      {s : Program} (x : Input) (a : ℕ) {q : ℕ} (v : ℕ) (c : Pc)
      → a < n
      → Guarded s
      → s.work a ≡ using q v c
      → owner v ≡ m
      → Shares s a v x c v
  own_share {s} x a {q} v c lt g w o =
      let mine : owns_at v (s.work a) ≡ owns c = ap (owns_at v) w ∙ rw (==_refl v) refl in
      let part : owns c ≤ locked_of (s.locks v).u =
        omega (arith, mine, sum_over-split (owns_at v) n a s.work lt, g.owners v o) in
      rw (mine, ==_refl v) (move-owns x (s.locks v) c (g.word v o) part)

  lock_share :
      {s : Program} (x : Input) (a : ℕ) {q : ℕ} (v : ℕ) (c : Pc)
      → a < n
      → Guarded s
      → s.work a ≡ using q v c
      → (u : ℕ) → owner u ≡ m
      → Shares s a v x c u
  lock_share {s} x a v c lt g w u o = elim (Bool-cases (v == u)) [
    | inl same ↦
        let here : v ≡ u = (==_iff v u).0 same in
        subst (Shares s a v x c) here (own_share x a v c lt g w (ap owner here ∙ o))
    | inr other ↦
        let mine : owns_at u (s.work a) ≡ 0 = ap (owns_at u) w ∙ rw other refl in
        rw (mine, other) (g.word u o, refl)
  ]

  -- The lock that a lookup at unlock has found is the lock that the thread holds, where it matters.
  same_share :
      (u q v v' : ℕ) (b : Bool) (value : ℕ)
      → owner u ≡ m
      → (owner v ≡ q) × (q ≡ m → (v ≡ value) × (v ≢ 0))
      → (owner v' ≡ q) × (q ≡ m → (v' ≡ value) × (v' ≢ 0))
      → owns_at u (using q v (held b)) ≡ owns_at u (using q v' release)
  same_share u q v v' b value o old new = elim (Bool-cases (q == m)) [
    | inl same ↦ ground (arith, old.1, new.1)
    | inr other ↦ ground (arith, old.0, new.0)
  ]

  pub Step-Guarded : {s t : Program} → m ≢ 0 → Step owner n s t → Guarded s → Guarded t
  Step-Guarded nm (table_step st) g = table_step-Guarded nm g st
  Step-Guarded {s} nm (finds a q v lt e w) g =
      idles-Guarded a apart (using q v idle) lt g w (found-Fits a q v idle g e)
        (λ u o. ground arith)
  Step-Guarded {s} nm (misses a q lt e w) g =
      idles-Guarded a apart (missed q) lt g w (missed-Fits a q g e) (λ u o. refl)
  Step-Guarded {s} nm (creates a q v i lt e w) g =
      let other = subst (Fits s.table.slots) w (g.fits a) in
      let own : owner v ≡ q = subst (Belongs owner s.table.slots) e (g.owned.calls a) in
      idles-Guarded a (missed q) (using q v idle) lt g w (own, λ same. absurd (other same))
        (λ u o. ground arith)
  Step-Guarded {s} nm (locks_move x a {m = q} {v} {q = c} lt w free) g =
      works-Guarded a (using q v (move x (s.locks v) c).1)
        (update s.locks v (move x (s.locks v) c).0) lt g (subst (Fits s.table.slots) w (g.fits a))
        (λ u o. lock_share x a v c lt g w u o)
  Step-Guarded {s} nm (unlocks a v' {m = q} {v} {w = b} lt e w) g =
      let old = subst (Fits s.table.slots) w (g.fits a) in
      let new = found-Fits a q v' release g e in
      idles-Guarded a (using q v (held b)) (using q v' release) lt g w new
        (λ u o. same_share u q v v' b (s.table.slots (my_hash m) f).value o old new)
  Step-Guarded {s} nm (leaves a {m = q} {v} lt w) g =
      idles-Guarded a (using q v idle) apart lt g w tt (λ u o. ground arith)

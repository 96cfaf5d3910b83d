-- ===== src/Htll/Abstract.antt =====
-- An abstract lock, the specification of litl/src/htll.c: it is free or has an owner.
use htll.Common.{
  ℕ, ◌≤◌, ◌<◌, ◌≡◌, ◌∙◌, refl, sym, subst, Bool, true, false, arith, List, [], ◌∷◌, Option, none,
  some, ◌==◌, ==_iff, if◌then◌else◌, Bool-cases, inl, inr,
}

-- What a thread does to the abstract lock.
pub data Event : Type 0 where
  takes : ℕ → Event
  frees : ℕ → Event
  finds_busy : ℕ → Event  -- trylock returns EBUSY
  silent : Event

-- A thread takes the lock only if it is free, and only its owner frees it; trylock fails only if
-- it has an owner.
pub data Spec : Event → Option ℕ → Option ℕ → Type 0 where
  takes : (i : ℕ) → Spec (Event.takes i) none (some i)
  frees : (i : ℕ) → Spec (Event.frees i) (some i) none
  finds_busy : (i j : ℕ) → Spec (Event.finds_busy i) (some j) (some j)
  silent : (o : Option ℕ) → Spec Event.silent o o

-- A run of the abstract lock; the last event stands first.
pub data Runs : List Event → Option ℕ → Type 0 where
  empty : Runs [] none
  more :
      {es : List Event} {e : Event} {o o' : Option ℕ} → Runs es o → Spec e o o' → Runs (e ∷ es) o'

-- The event of thread `i` when its hold of the lock goes from `before` to `after`; `failed` says
-- whether it is in a trylock.
abbrev pub event : ℕ → ℕ → ℕ → Bool → Event
event i before after failed =
    if before == after
    then (if failed then Event.finds_busy i else Event.silent)
    else if before == 0
    then Event.takes i
    else Event.frees i

module _ (n : ℕ) where
  -- The abstract owner holds the lock, and without one nobody does.
  abbrev pub Agrees : (ℕ → ℕ) → Option ℕ → Type 0
  Agrees h none = (i : ℕ) → i < n → h i ≡ 0
  Agrees h (some j) = (j < n) × (h j ≡ 1)

  abbrev pub IsAlone : (ℕ → ℕ) → Type 0
  IsAlone h = (i j : ℕ) → i < n → j < n → h i ≡ 1 → h j ≡ 1 → i ≡ j

  pub Agrees-same :
      (h h' : ℕ → ℕ) (o : Option ℕ) → ((i : ℕ) → h' i ≡ h i) → Agrees h o → Agrees h' o
  Agrees-same h h' none same a = λ i lt. same i ∙ a i lt
  Agrees-same h h' (some j) same a = (a.0, same j ∙ a.1)

  pub owned :
      (h : ℕ → ℕ) (o : Option ℕ) (i : ℕ) → i < n → 0 < h i → Agrees h o → (j : ℕ) × (o ≡ some j)
  owned h none i lt pos a = absurd (omega (arith, a i lt))
  owned h (some j) i lt pos a = (j, refl)

-- A step of thread `i`, of which the holds are `h` before and `h'` behind it.
pub record Turn (n : ℕ) (h h' : ℕ → ℕ) (i after : ℕ) (failed : Bool) : Type 0 where
  pub small : i < n
  pub after_h' : h' i ≡ after
  pub others : (k : ℕ) → (i == k) ≡ false → h' k ≡ h k
  pub le : (k : ℕ) → h k ≤ 1
  pub le' : (k : ℕ) → h' k ≤ 1
  pub alone : IsAlone n h
  pub alone' : IsAlone n h'
  -- A trylock that fails has met an owner.
  pub met : failed ≡ true → h i ≡ after → (k : ℕ) × (k < n) × (0 < h k)

module _ {n : ℕ} {h h' : ℕ → ℕ} {i after : ℕ} {failed : Bool} (t : Turn n h h' i after failed) where
  abbrev Follows : Option ℕ → Type 0
  Follows o = (o' : Option ℕ) × Spec (event i (h i) after failed) o o' × Agrees n h' o'

  unchanged : (h i == after) ≡ true → (k : ℕ) → h' k ≡ h k
  unchanged same k = elim (Bool-cases (i == k)) [
    | inl mover ↦
        subst (λ x. h' x ≡ h x) ((==_iff i k).0 mover)
          (t.after_h' ∙ sym ((==_iff (h i) after).0 same))
    | inr other ↦ t.others k other
  ]

  stays : (o : Option ℕ) → Agrees n h o → (h i == after) ≡ true → Follows o
  stays o a same =
      let kept = Agrees-same n h h' o (unchanged same) a in
      elim (Bool-cases failed) [
        | inl busy ↦
            let (k, lt, pos) = t.met busy ((==_iff (h i) after).0 same) in
            let (j, e) = owned n h o k lt pos a in
            (o, rw (same, busy, e) (Spec.finds_busy i j), kept)
        | inr other ↦ (o, rw (same, other) (Spec.silent o), kept)
      ]

  -- A new owner finds no other.
  acquires : (o : Option ℕ) → Agrees n h o → h i ≡ 0 → after ≡ 1 → Follows o
  acquires none a before now =
      (some i, rw (before, now) (Spec.takes i), (t.small, t.after_h' ∙ now))
  acquires (some j) a before now = elim (Bool-cases (i == j)) [
    | inl same ↦ absurd (ground (arith, (==_iff i j).0 same))
    | inr other ↦ absurd (ground (arith, t.alone' i j t.small a.0, t.others j other, t.after_h'))
  ]

  gives_up : (o : Option ℕ) → Agrees n h o → h i ≡ 1 → after ≡ 0 → Follows o
  gives_up none a before now = absurd (omega (arith, a i t.small))
  gives_up (some j) a before now =
      let same : i ≡ j = t.alone i j t.small a.0 before a.1 in
      (
        none,
        rw (before, now, sym same) (Spec.frees i),
        λ k less. elim (Bool-cases (i == k)) [
          | inl mover ↦ subst (λ x. h' x ≡ 0) ((==_iff i k).0 mover) (t.after_h' ∙ now)
          | inr other ↦ ground (arith, t.alone i k t.small less before, t.le k, t.others k other)
        ],
      )

  pub follow : (o : Option ℕ) → Agrees n h o → Follows o
  follow o a = elim (Bool-cases (h i == after)) [
    | inl same ↦ stays o a same
    | inr other ↦ elim (Bool-cases (after == 0)) [
      | inl free ↦ gives_up o a (ground (arith, t.le i)) (ground arith)
      | inr owner ↦
          acquires o a (ground (arith, t.le i, t.le' i, t.after_h'))
            (ground (arith, t.le' i, t.after_h'))
    ]
  ]

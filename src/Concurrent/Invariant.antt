-- ===== src/Concurrent/Invariant.antt =====
-- The invariant of the table of litl/src/interpose.c under interleaved accesses, step by step.
use htll.Common.{ℕ, ◌+◌, ◌≡◌, inl, inr, refl, arith, true, false, ◌==◌, ◌∙◌, update, Bool-cases}
use htll.Concurrent.Slots.{
  Slots, Call, get_key, put_key, claim, publish, next_put, next_get, table_move, System, Step,
  moves, gets, puts, init, Steps, here, next,
}
use htll.Concurrent.Claims.{
  Knows, publishes, Grows, Inv, publishes-key, table_move-Grows, Knows-Grows, table_move-Knows,
}

next_put-publishes : (h i m p j : ℕ) → publishes h i (next_put m p j) ≡ false
next_put-publishes h i m p j = ground arith

next_get-publishes : (h i m j : ℕ) → publishes h i (next_get m j) ≡ false
next_get-publishes h i m j = ground arith

-- Only the claim of a free slot leads to the write of a value.
table_move-publishes :
    (t : Slots) (c : Call) (h i : ℕ) → publishes h i (table_move t c).1 ≡ true → (t h i).key ≡ 0
unfolding table_move
table_move-publishes t (get_key m j) h i e = ground (arith, next_get-publishes h i m (j + 1))
table_move-publishes t (put_key m p j) h i e = ground (arith, next_put-publishes h i m p (j + 1))
table_move-publishes t (claim m p j) h i e = ground (arith, next_put-publishes h i m p (j + 1))
table_move-publishes t c h i e = ground arith

table_move-value :
    (t : Slots) (c : Call) (h i : ℕ)
    → publishes h i c ≡ false
    → ((table_move t c).0 h i).value ≡ (t h i).value
unfolding table_move
table_move-value t (claim m p j) h i e = ground arith
table_move-value t (publish m p j) h i e = ground arith
table_move-value t c h i e = refl

table_move-written :
    (t : Slots) (c : Call)
    → Knows t c
    → ((h i : ℕ) → (t h i).key ≡ 0 → (t h i).value ≡ 0)
    → (h i : ℕ) → ((table_move t c).0 h i).key ≡ 0
    → ((table_move t c).0 h i).value ≡ 0
unfolding table_move
table_move-written t (claim m p j) k w h i e = ground (arith, w h i)
table_move-written t (publish m p j) k w h i e = ground (arith, w h i)
table_move-written t c k w h i e = w h i e

module _ {s : System} (inv : Inv s) (a : ℕ) where
  after : Slots
  after = (table_move s.slots (s.call a)).0

  grows : Grows s.slots after
  unfolding after
  grows = table_move-Grows s.slots (s.call a) (inv.empty a)

  c' : Call
  c' = (table_move s.slots (s.call a)).1

  -- The slot that the thread that moves has claimed, and one that another has.
  new_claim : (h i : ℕ) → publishes h i c' ≡ true → (after h i).value ≡ 0
  unfolding after c'
  new_claim h i e =
      let free = table_move-publishes s.slots (s.call a) h i e in
      elim (Bool-cases (publishes h i (s.call a))) [
        | inl own ↦ absurd (publishes-key s.slots (s.call a) h i (inv.knows a) own free)
        | inr other ↦ table_move-value s.slots (s.call a) h i other ∙ inv.written h i free
      ]

  old_claim :
      (b h i : ℕ) → (a == b) ≡ false → publishes h i (s.call b) ≡ true → (after h i).value ≡ 0
  unfolding after
  old_claim b h i ne e = elim (Bool-cases (publishes h i (s.call a))) [
    | inl own ↦ absurd (ground (arith, inv.alone a b h i own e))
    | inr other ↦ table_move-value s.slots (s.call a) h i other ∙ inv.empty b h i e
  ]

  -- The new claim of the thread that moves is no other's.
  apart : (b h i : ℕ) → publishes h i c' ≡ true → ¬ (publishes h i (s.call b) ≡ true)
  unfolding c'
  apart b h i e f =
      publishes-key s.slots (s.call b) h i (inv.knows b) f
        (table_move-publishes s.slots (s.call a) h i e)

  moves-Inv : Inv (record {
    slots = (table_move s.slots (s.call a)).0;
    call = update s.call a (table_move s.slots (s.call a)).1;
  })
  unfolding after c'
  moves-Inv = record {
    knows = λ b. elim (Bool-cases (a == b)) [
      | inl same ↦ rw same (table_move-Knows s.slots (s.call a) (inv.knows a))
      | inr other ↦ rw other (Knows-Grows s.slots after (s.call b) grows (inv.knows b))
    ];
    empty = λ b h i e. elim (Bool-cases (a == b)) [
      | inl same ↦ new_claim h i (ground arith)
      | inr other ↦ old_claim b h i other (ground arith)
    ];
    alone = λ b d h i e f. ground (arith, apart b h i, apart d h i, inv.alone b d h i);
    written = table_move-written s.slots (s.call a) (inv.knows a) inv.written;
  }

-- A call that begins publishes nothing.
begins-Inv :
    {s : System} (inv : Inv s) (a : ℕ) (c : Call)
    → Knows s.slots c
    → ((h i : ℕ) → publishes h i c ≡ false)
    → Inv (record { slots = s.slots; call = update s.call a c })
begins-Inv {s} inv a c k quiet = record {
  knows =
      λ b. elim (Bool-cases (a == b)) [ inl same ↦ rw same k | inr other ↦ rw other (inv.knows b) ];
  empty = λ b h i e. ground (arith, quiet h i, inv.empty b h i);
  alone = λ b d h i e f. ground (arith, quiet h i, inv.alone b d h i);
  written = inv.written;
}

pub Step-Inv : {owner : ℕ → ℕ} {s t : System} → Step owner s t → Inv s → Inv t
Step-Inv (moves a) inv = moves-Inv inv a
Step-Inv {s} (gets a m idle nm) inv = begins-Inv inv a (get_key m 0) tt (λ h i. refl)
Step-Inv {s} (puts a m p idle nm np own) inv =
    begins-Inv inv a (put_key m p 0) (nm, np, omega arith, λ j lt. absurd (omega arith))
      (λ h i. refl)

pub Steps-Inv : {owner : ℕ → ℕ} {s t : System} → Steps owner s t → Inv s → Inv t
Steps-Inv here inv = inv
Steps-Inv (next r st) inv = Step-Inv st (Steps-Inv r inv)

pub init-Inv : Inv init
init-Inv = record {
  knows = λ a. tt;
  empty = λ a h i e. refl;
  alone = λ a b h i e f. cc;
  written = λ h i e. refl;
}

-- ===== src/Concurrent/Claims.antt =====
-- What the threads in `hash_put` of litl/src/interpose.c have of the table to themselves.
use htll.Common.{
  ℕ, ◌+◌, ◌≡◌, ◌≢◌, ◌<◌, inl, inr, refl, arith, Bool, true, false, leb, ◌&&◌, ◌==◌, Bool-cases,
}
use htll.Interpose.Table.{my_hash, bucket_length}
use htll.Concurrent.Slots.{
  Slots, Call, outside, get_key, get_value, got, put_key, claim, publish, stored, refused, next_put,
  table_move, System,
}

-- What a thread knows of the slots by itself: the keys that it has passed are taken, and one that
-- it has claimed is its own mutex's, with no value until it writes one.
abbrev pub Knows : Slots → Call → Type 0
Knows t (put_key m p i) =
    (m ≢ 0) × (p ≢ 0) × (i < bucket_length) × ((j : ℕ) → j < i → (t (my_hash m) j).key ≢ 0)
Knows t (claim m p i) =
    (m ≢ 0) × (p ≢ 0) × (i < bucket_length) × ((j : ℕ) → j < i → (t (my_hash m) j).key ≢ 0)
Knows t (publish m p i) =
    (m ≢ 0)
    × (p ≢ 0)
    × (i < bucket_length)
    × ((j : ℕ) → j < i → (t (my_hash m) j).key ≢ 0)
    × ((t (my_hash m) i).key ≡ m)
Knows t (stored m p i) =
    (m ≢ 0)
    × (p ≢ 0)
    × (i < bucket_length)
    × ((j : ℕ) → j < i → (t (my_hash m) j).key ≢ 0)
    × ((t (my_hash m) i).key ≡ m)
Knows t c = Unit

-- A thread is about to write the value of a slot.
abbrev pub publishes : ℕ → ℕ → Call → Bool
publishes h i (publish m p j) = (my_hash m == h) && (j == i)
publishes h i c = false

-- No key is ever replaced, and no value behind one that is written.
pub record Grows (t t' : Slots) : Type 0 where
  pub keys : (h i : ℕ) → (t h i).key ≢ 0 → (t' h i).key ≡ (t h i).key
  pub values : (h i : ℕ) → (t h i).value ≢ 0 → (t' h i).value ≡ (t h i).value

pub record Inv (s : System) : Type 0 where
  pub knows : (a : ℕ) → Knows s.slots (s.call a)
  pub empty : (a h i : ℕ) → publishes h i (s.call a) ≡ true → (s.slots h i).value ≡ 0
  pub alone :
      (a b h i : ℕ) → publishes h i (s.call a) ≡ true → publishes h i (s.call b) ≡ true → a ≡ b
  -- A value that is written has a key.
  pub written : (h i : ℕ) → (s.slots h i).key ≡ 0 → (s.slots h i).value ≡ 0

publishes_own : (m p i : ℕ) → publishes (my_hash m) i (publish m p i) ≡ true
publishes_own m p i = ground arith

-- The slot of a thread that publishes has a key.
pub publishes-key :
    (t : Slots) (c : Call) (h i : ℕ) → Knows t c → publishes h i c ≡ true → (t h i).key ≢ 0
publishes-key t (publish m p j) h i k e = ground arith
publishes-key t c h i k e = cc

pub table_move-Grows :
    (t : Slots) (c : Call)
    → ((h i : ℕ) → publishes h i c ≡ true → (t h i).value ≡ 0)
    → Grows t (table_move t c).0
unfolding table_move
table_move-Grows t (claim m p i) empty = record {
  keys = λ h j ne. ground arith;
  values = λ h j ne. ground arith;
}
table_move-Grows t (publish m p i) empty = record {
  keys = λ h j ne. ground arith;
  values = λ h j ne. ground (arith, empty h j);
}
table_move-Grows t c empty = record { keys = λ h j ne. refl; values = λ h j ne. refl }

pub Knows-Grows : (t t' : Slots) (c : Call) → Grows t t' → Knows t c → Knows t' c
Knows-Grows t t' (put_key m p i) g k =
    (k.0, k.1, k.2, λ j lt. ground (arith, g.keys (my_hash m) j, k.3 j))
Knows-Grows t t' (claim m p i) g k =
    (k.0, k.1, k.2, λ j lt. ground (arith, g.keys (my_hash m) j, k.3 j))
Knows-Grows t t' (publish m p i) g k = (
  k.0,
  k.1,
  k.2,
  λ j lt. ground (arith, g.keys (my_hash m) j, k.3 j),
  ground (arith, g.keys (my_hash m) i),
)
Knows-Grows t t' (stored m p i) g k = (
  k.0,
  k.1,
  k.2,
  λ j lt. ground (arith, g.keys (my_hash m) j, k.3 j),
  ground (arith, g.keys (my_hash m) i),
)
Knows-Grows t t' outside g k = tt
Knows-Grows t t' (get_key _ _) g k = tt
Knows-Grows t t' (get_value _ _) g k = tt
Knows-Grows t t' (got _ _) g k = tt
Knows-Grows t t' (refused _ _) g k = tt

-- One more key that is passed.
passed :
    (t : Slots) (h i : ℕ)
    → ((j : ℕ) → j < i → (t h j).key ≢ 0)
    → (t h i).key ≢ 0
    → (j : ℕ) → j < i + 1
    → (t h j).key ≢ 0
passed t h i before ne j lt = elim (Bool-cases (j == i)) [
  | inl same ↦ ground arith
  | inr other ↦ before j (ground arith)
]

next_put-Knows :
    (t : Slots) (m p i : ℕ)
    → m ≢ 0
    → p ≢ 0
    → ((j : ℕ) → j < i → (t (my_hash m) j).key ≢ 0)
    → Knows t (next_put m p i)
next_put-Knows t m p i nm np before = elim (Bool-cases (leb bucket_length i)) [
  | inl full ↦ rw full tt
  | inr more ↦ rw more (nm, np, ground arith, before)
]

-- A thread that moves knows what it has seen.
pub table_move-Knows :
    (t : Slots) (c : Call) → Knows t c → Knows (table_move t c).0 (table_move t c).1
unfolding table_move
table_move-Knows t (get_key m i) k = elim (Bool-cases ((t (my_hash m) i).key == m)) [
  | inl same ↦ rw same tt
  | inr other ↦ elim (Bool-cases (leb bucket_length (i + 1))) [
    | inl full ↦ rw (other, full) tt
    | inr more ↦ rw (other, more) tt
  ]
]
table_move-Knows t (get_value m i) k = elim (Bool-cases ((t (my_hash m) i).value == 0)) [
  | inl zero ↦ rw zero tt
  | inr some_value ↦ rw some_value tt
]
table_move-Knows t (put_key m p i) k = elim (Bool-cases ((t (my_hash m) i).key == 0)) [
  | inl free ↦ rw free k
  | inr taken ↦
      rw taken (next_put-Knows t m p (i + 1) k.0 k.1 (passed t (my_hash m) i k.3 (ground arith)))
]
table_move-Knows t (claim m p i) k = elim (Bool-cases ((t (my_hash m) i).key == 0)) [
  | inl free ↦ rw free (k.0, k.1, k.2, λ j lt. ground (arith, k.3 j), ground arith)
  | inr taken ↦
      rw taken (next_put-Knows t m p (i + 1) k.0 k.1 (passed t (my_hash m) i k.3 (ground arith)))
]
table_move-Knows t (publish m p i) k = (k.0, k.1, k.2, λ j lt. ground (arith, k.3 j), ground arith)
table_move-Knows t outside k = tt
table_move-Knows t (got _ _) k = tt
table_move-Knows t (stored _ _ _) k = k
table_move-Knows t (refused _ _) k = tt

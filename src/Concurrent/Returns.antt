-- ===== src/Concurrent/Returns.antt =====
-- How long `hash_put` of litl/src/interpose.c runs beside other threads.
use htll.Common.{
  ℕ, ◌+◌, ◌-◌, ◌*◌, ◌≤◌, ◌<◌, ◌≡◌, refl, arith, true, List, [], ◌∷◌, length, leb, ◌==◌, Bool-cases,
  inl, inr,
}
use htll.Interpose.Table.{my_hash, bucket_length}
use htll.Concurrent.Slots.{
  Slots, Call, outside, get_key, get_value, got, put_key, claim, publish, stored, refused, next_put,
  table_move, is_idle,
}

-- The most moves that an insertion still makes; 0 for what is none.
abbrev pub moves_left : Call → ℕ
moves_left (put_key m p i) = 2 * (bucket_length - i) + 1
moves_left (claim m p i) = 2 * (bucket_length - i)
moves_left (publish m p i) = 1
moves_left _ = 0

-- Where an insertion may stand: not behind the row.
abbrev pub IsInside : Call → Type 0
IsInside (put_key m p i) = i < bucket_length
IsInside (claim m p i) = i < bucket_length
IsInside (publish m p i) = i < bucket_length
IsInside (stored m p i) = i < bucket_length
IsInside (refused m p) = Unit
IsInside _ = ⊥

-- A thread that finds the table in the given states, one at each of its moves.
unfoldable pub drive : List Slots → Call → Call
drive [] c = c
drive (t ∷ seen) c = drive seen (table_move t c).1

next_put-moves_left :
    (m p i : ℕ)
    → IsInside (next_put m p i) × (moves_left (next_put m p i) ≤ 2 * (bucket_length - i) + 1)
next_put-moves_left m p i = elim (Bool-cases (leb bucket_length i)) [
  | inl full ↦ rw full (tt, omega arith)
  | inr more ↦ rw more (ground arith, omega arith)
]

table_move-moves_left :
    (t : Slots) (c : Call)
    → IsInside c
    → IsInside (table_move t c).1 × (moves_left (table_move t c).1 ≤ moves_left c - 1)
unfolding table_move
table_move-moves_left t (put_key m p i) k = elim (Bool-cases ((t (my_hash m) i).key == 0)) [
  | inl free ↦ rw free (k, omega arith)
  | inr taken ↦
      let (inside, fewer) = next_put-moves_left m p (i + 1) in rw taken (inside, omega arith)
]
table_move-moves_left t (claim m p i) k = elim (Bool-cases ((t (my_hash m) i).key == 0)) [
  | inl free ↦ rw free (k, omega arith)
  | inr taken ↦
      let (inside, fewer) = next_put-moves_left m p (i + 1) in rw taken (inside, omega arith)
]
table_move-moves_left t (publish m p i) k = (k, omega arith)
table_move-moves_left t (stored m p i) k = (k, omega arith)
table_move-moves_left t (refused m p) k = (tt, omega arith)
table_move-moves_left t outside k = elim k [ ]
table_move-moves_left t (get_key _ _) k = elim k [ ]
table_move-moves_left t (get_value _ _) k = elim k [ ]
table_move-moves_left t (got _ _) k = elim k [ ]

returned_at : (c : Call) → IsInside c → moves_left c ≤ 0 → is_idle c ≡ true
returned_at (put_key m p i) k few = absurd (omega arith)
returned_at (claim m p i) k few = absurd (omega arith)
returned_at (publish m p i) k few = absurd (omega arith)
returned_at (stored m p i) k few = refl
returned_at (refused m p) k few = refl
returned_at outside k few = elim k [ ]
returned_at (get_key _ _) k few = elim k [ ]
returned_at (get_value _ _) k few = elim k [ ]
returned_at (got _ _) k few = elim k [ ]

drive-IsInside :
    (seen : List Slots) (c : Call)
    → IsInside c
    → moves_left c ≤ length seen
    → IsInside (drive seen c) × (is_idle (drive seen c) ≡ true)
unfolding drive
drive-IsInside [] c k few = (k, returned_at c k few)
drive-IsInside (t ∷ seen) c k few =
    let (inside, fewer) = table_move-moves_left t c k in
    drive-IsInside seen (table_move t c).1 inside (omega arith)

-- An insertion is wait-free: it has returned, with a slot of the row or with -1, behind 21 accesses
-- of its own, whatever states of the table the other threads leave for it to find.
pub put_returns :
    (seen : List Slots) (m p : ℕ)
    → 21 ≤ length seen
    → IsInside (drive seen (put_key m p 0)) × (is_idle (drive seen (put_key m p 0)) ≡ true)
put_returns seen m p enough = drive-IsInside seen (put_key m p 0) (omega arith) (omega arith)

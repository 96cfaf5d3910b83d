-- ===== src/Interpose/Table.antt =====
-- litl/src/interpose.c, lines 76-122: the table from the address of a pthread mutex to its lock.
use htll.Common.{
  ℕ, ◌+◌, ◌/◌, ◌%◌, ◌<◌, ◌≡◌, Option, none, some, List, [], ◌∷◌, arith, bit_and, ◌^◌, ◌==◌,
  if◌then◌else◌, replicate, update,
}
use htll.Common.Bits.{and_0x9fff}
use mathlib.Core.Option

abbrev pub bucket_size : ℕ
bucket_size = 40960

abbrev pub bucket_length : ℕ
bucket_length = 10

-- `key` is a 64-bit address; the sum of the shifted values does not wrap.
unfoldable pub my_hash : ℕ → ℕ
my_hash key = bit_and (key / 2 ^ 4 + key / 2 ^ 24) 0x9fff

-- `struct lock_table`. The null pointer is 0.
pub record Entry : Type 0 where
  pub key : ℕ
  pub value : ℕ

-- `pthread_lock_table[BUCKET_SIZE][BUCKET_LENGTH]`, a row for each hash.
abbrev pub Table : Type 0
Table = ℕ → List Entry

abbrev pub empty_entry : Entry
empty_entry = record { key = 0; value = 0 }

-- What the `memset` of `interpose_init` leaves.
abbrev pub empty_table : Table
empty_table _ = replicate bucket_length empty_entry

-- The loop of `hash_put` over what is left of a row, with no other thread in it: then the
-- compare-and-exchange of a key that was read as 0 succeeds.
unfoldable pub put_row : ℕ → ℕ → List Entry → Option (List Entry)
put_row mutex impl [] = none
put_row mutex impl (e ∷ row) =
    if e.key == 0
    then some (record { key = mutex; value = impl } ∷ row)
    else Option.map (λ rest. e ∷ rest) (put_row mutex impl row)

-- `none` is the result -1.
unfoldable pub hash_put : Table → ℕ → ℕ → Option Table
unfolding put_row
hash_put t mutex impl =
    Option.map (update t (my_hash mutex)) (put_row mutex impl (t (my_hash mutex)))

-- `hash_get` returns NULL, or loops while the value is not written yet, or returns the value.
pub data Lookup : Type 0 where
  missing waiting : Lookup
  found : ℕ → Lookup

unfoldable pub get_row : ℕ → List Entry → Lookup
get_row mutex [] = missing
get_row mutex (e ∷ row) =
    if e.key == mutex then (if e.value == 0 then waiting else found e.value) else get_row mutex row

unfoldable pub hash_get : Table → ℕ → Lookup
unfolding get_row
hash_get t mutex = get_row mutex (t (my_hash mutex))

-- Every hash is an index of the table; but the mask BUCKET_SIZE - 1 has no bits 13 and 14, so that
-- only rows whose index has neither bit are used: 16384 of the 40960.
pub my_hash_range : (key : ℕ) → (my_hash key < bucket_size) × (my_hash key / 8192 % 4 ≡ 0)
unfolding my_hash
my_hash_range key = omega (arith, and_0x9fff (key / 2 ^ 4 + key / 2 ^ 24))

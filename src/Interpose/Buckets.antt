-- ===== src/Interpose/Buckets.antt =====
-- What a lookup finds behind an insertion.
use htll.Common.{
  ℕ, ◌≡◌, ◌≢◌, ◌≤◌, ◌↔◌, refl, none, some, List, [], ◌∷◌, arith, ◌==◌, if◌then◌else◌, replicate,
  update, length, Option-cases, Bool-cases, inl, inr, zero, suc, ◌+◌, sym, false,
}
use htll.Interpose.Table.{
  my_hash, Entry, Table, empty_entry, empty_table, put_row, hash_put, Lookup, missing, waiting,
  found, get_row, hash_get, bucket_length,
}

abbrev pub or_else : Lookup → Lookup → Lookup
or_else missing b = b
or_else waiting b = waiting
or_else (found p) b = found p

-- Free entries stand at the end of a row only.
abbrev AllFree : List Entry → Type 0
AllFree [] = Unit
AllFree (e ∷ row) = (e.key ≡ 0) × AllFree row

abbrev pub IsPacked : List Entry → Type 0
IsPacked [] = Unit
IsPacked (e ∷ row) = (e.key ≡ 0 → AllFree row) × IsPacked row

get_row_free : (q : ℕ) (row : List Entry) → q ≢ 0 → AllFree row → get_row q row ≡ missing
unfolding get_row
get_row_free q [] ne free = refl
get_row_free q (e ∷ row) ne free = ground (arith, get_row_free q row)

IsPacked-free : (row : List Entry) → AllFree row → IsPacked row
IsPacked-free [] h = tt
IsPacked-free (e ∷ row) h = ((λ _. h.1), IsPacked-free row h.1)

put_row-get_row :
    (k v q : ℕ) (row : List Entry) {row' : List Entry}
    → k ≢ 0
    → v ≢ 0
    → q ≢ 0
    → IsPacked row
    → put_row k v row ≡ some row'
    → get_row q row' ≡ or_else (get_row q row) (if k == q then found v else missing)
unfolding put_row get_row
put_row-get_row k v q [] nk nv nq packed e = cc
put_row-get_row k v q (a ∷ row) nk nv nq packed e = elim (Option-cases (put_row k v row)) [
  | inl full ↦ ground (arith, get_row_free q row)
  | inr (rest, r) ↦
      ground
        (arith, put_row-get_row k v q row {row' = rest} nk nv nq packed.1 r, get_row_free q row)
]

put_row-IsPacked :
    (k v : ℕ) (row : List Entry) {row' : List Entry}
    → k ≢ 0
    → IsPacked row
    → put_row k v row ≡ some row'
    → IsPacked row'
unfolding put_row
put_row-IsPacked k v [] nk packed e = cc
put_row-IsPacked k v (a ∷ row) {row'} nk packed e = elim (Bool-cases (a.key == 0)) [
  | inl free ↦
      let here : row' ≡ record { key = k; value = v } ∷ row = ground arith in
      rw here ((λ z. absurd (nk z)), packed.1)
  | inr taken ↦ elim (Option-cases (put_row k v row)) [
    | inl full ↦ ground arith
    | inr (rest, r) ↦
        let there : row' ≡ a ∷ rest = ground arith in
        rw there ((λ z. absurd (ground arith)), put_row-IsPacked k v row nk packed.1 r)
  ]
]

unfoldable pub used : List Entry → ℕ
used [] = 0
used (e ∷ row) = (if e.key == 0 then 0 else 1) + used row

used-le : (row : List Entry) → used row ≤ length row
unfolding used
used-le [] = omega arith
used-le (e ∷ row) = ground (arith, used-le row)

-- An insertion is refused exactly if every entry of the row is taken.
put_row-eq-none : (k v : ℕ) (row : List Entry) → (put_row k v row ≡ none) ↔ (used row ≡ length row)
unfolding put_row used
put_row-eq-none k v [] = ground arith
put_row-eq-none k v (e ∷ row) = (
  (λ h. ground (arith, (put_row-eq-none k v row).0)),
  λ h. ground (arith, (put_row-eq-none k v row).1, used-le row),
)

-- Every row of the table is packed.
abbrev pub AllPacked : Table → Type 0
AllPacked t = (b : ℕ) → IsPacked (t b)

free_row-IsPacked : (n : ℕ) → IsPacked (replicate n empty_entry)
free_row-IsPacked zero = tt
free_row-IsPacked (suc n) = ((λ _. free n), free_row-IsPacked n)
  where
    free : (m : ℕ) → AllFree (replicate m empty_entry)
    free zero = tt
    free (suc m) = (refl, free m)

pub empty_table-AllPacked : AllPacked empty_table
empty_table-AllPacked b = free_row-IsPacked bucket_length

hash_put-eq-some :
    (t : Table) (k v : ℕ) {t' : Table}
    → hash_put t k v ≡ some t'
    → (row' : List Entry) × (put_row k v (t (my_hash k)) ≡ some row')
      × (t' ≡ update t (my_hash k) row')
unfolding hash_put
hash_put-eq-some t k v e = elim (Option-cases (put_row k v (t (my_hash k)))) [
  | inl full ↦ ground arith
  | inr (row', r) ↦ (row', r, ground arith)
]

or_else-missing : (a : Lookup) → or_else a missing ≡ a
or_else-missing missing = refl
or_else-missing waiting = refl
or_else-missing (found p) = refl

pub hash_put-AllPacked :
    (t : Table) (k v : ℕ) {t' : Table}
    → k ≢ 0
    → AllPacked t
    → hash_put t k v ≡ some t'
    → AllPacked t'
hash_put-AllPacked t k v nk packed e b =
    let (row', r, new) = hash_put-eq-some t k v e in
    rw new (elim (Bool-cases (my_hash k == b)) [
      | inl same ↦ rw same (put_row-IsPacked k v (t (my_hash k)) nk (packed (my_hash k)) r)
      | inr other ↦ rw other (packed b)
    ])

-- Insertion and lookup: behind an insertion of a lock for the mutex `k` into a table with packed
-- rows, where no address is NULL, the lookup of every mutex finds what it found before, and else, for `k` alone, the new lock. So the first lock that is
-- stored for a mutex stays its lock.
pub hash_get-hash_put :
    (t : Table) (k v q : ℕ) {t' : Table}
    → k ≢ 0
    → v ≢ 0
    → q ≢ 0
    → AllPacked t
    → hash_put t k v ≡ some t'
    → hash_get t' q ≡ or_else (hash_get t q) (if k == q then found v else missing)
unfolding hash_get
hash_get-hash_put t k v q nk nv nq packed e =
    let (row', r, new) = hash_put-eq-some t k v e in
    let here = put_row-get_row k v q (t (my_hash k)) nk nv nq (packed (my_hash k)) r in
    rw new (elim (Bool-cases (my_hash k == my_hash q)) [
      | inl same ↦ let h : my_hash k ≡ my_hash q = ground arith in rw (same, ← h) here
      | inr other ↦
          let ne : (k == q) ≡ false = ground arith in
          rw (other, ne) (sym (or_else-missing (get_row q (t (my_hash q)))))
    ])

pub hash_put-eq-none :
    (t : Table) (k v : ℕ)
    → (hash_put t k v ≡ none) ↔ (used (t (my_hash k)) ≡ length (t (my_hash k)))
unfolding hash_put
hash_put-eq-none t k v =
    let row = put_row-eq-none k v (t (my_hash k)) in
    ((λ h. row.0 (ground arith)), λ h. let full = row.1 h in ground arith)

pub empty_table_missing : (q : ℕ) → q ≢ 0 → hash_get empty_table q ≡ missing
unfolding hash_get
empty_table_missing q nq = ground arith

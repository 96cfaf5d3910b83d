-- ===== src/Concurrent/Slots.antt =====
-- `hash_put` and `hash_get` of litl/src/interpose.c, one access to the table at a time, by any
-- number of threads.
use htll.Common.{
  ℕ, ◌+◌, ◌≡◌, ◌≢◌, Bool, true, false, Option, none, some, leb, ◌==◌, if◌then◌else◌, update,
}
use htll.Interpose.Table.{Entry, my_hash, bucket_length, empty_entry}

-- The entry at an index of the row of a hash.
abbrev pub Slots : Type 0
Slots = ℕ → ℕ → Entry

abbrev pub put_slot : Slots → ℕ → ℕ → Entry → Slots
put_slot t h i e = update t h (update (t h) i e)

-- Where a thread stands in a call, with its arguments and its `i`.
pub data Call : Type 0 where
  outside : Call
  get_key : (mutex i : ℕ) → Call  -- the test of line 114
  get_value : (mutex i : ℕ) → Call  -- the loop of line 115
  got : (mutex : ℕ) → Option ℕ → Call  -- hash_get has returned; none for NULL
  put_key : (mutex impl i : ℕ) → Call  -- the test of line 95
  claim : (mutex impl i : ℕ) → Call  -- the compare-and-exchange
  publish : (mutex impl i : ℕ) → Call  -- line 101
  stored : (mutex impl i : ℕ) → Call  -- hash_put has returned 0, behind line 101 at `i`
  refused : (mutex impl : ℕ) → Call  -- hash_put has returned -1

-- The heads of the two loops.
abbrev pub next_get : ℕ → ℕ → Call
next_get mutex i = if leb bucket_length i then got mutex none else get_key mutex i

abbrev pub next_put : ℕ → ℕ → ℕ → Call
next_put mutex impl i = if leb bucket_length i then refused mutex impl else put_key mutex impl i

unfoldable pub table_move : Slots → Call → Slots × Call
table_move t (get_key m i) =
    (t, if (t (my_hash m) i).key == m then get_value m i else next_get m (i + 1))
table_move t (get_value m i) =
    let v = (t (my_hash m) i).value in (t, if v == 0 then get_value m i else got m (some v))
table_move t (put_key m p i) =
    (t, if (t (my_hash m) i).key == 0 then claim m p i else next_put m p (i + 1))
table_move t (claim m p i) =
    let e = t (my_hash m) i in
    if e.key == 0
    then (put_slot t (my_hash m) i (record e { key = m }), publish m p i)
    else (t, next_put m p (i + 1))
table_move t (publish m p i) =
    (put_slot t (my_hash m) i (record (t (my_hash m) i) { value = p }), stored m p i)
table_move t c = (t, c)

-- A thread in neither function.
abbrev pub is_idle : Call → Bool
is_idle outside = true
is_idle (got _ _) = true
is_idle (stored _ _ _) = true
is_idle (refused _ _) = true
is_idle _ = false

pub record System : Type 0 where
  pub slots : Slots
  pub call : ℕ → Call

-- Any thread moves, or calls one of the two functions, with addresses that are not null. A lock is
-- inserted for one mutex only, its `owner`: ht_lock_create allocates a new one for each insertion.
pub data Step (owner : ℕ → ℕ) (s : System) : System → Type 0 where
  moves :
      (a : ℕ)
      → Step owner s (record {
        slots = (table_move s.slots (s.call a)).0;
        call = update s.call a (table_move s.slots (s.call a)).1;
      })
  gets :
      (a m : ℕ)
      → is_idle (s.call a) ≡ true
      → m ≢ 0
      → Step owner s (record { slots = s.slots; call = update s.call a (get_key m 0) })
  puts :
      (a m p : ℕ)
      → is_idle (s.call a) ≡ true
      → m ≢ 0
      → p ≢ 0
      → owner p ≡ m
      → Step owner s (record { slots = s.slots; call = update s.call a (put_key m p 0) })

abbrev pub init : System
init = record { slots = λ _ _. empty_entry; call = λ _. outside }

-- From one system to another in any number of steps.
pub data Steps (owner : ℕ → ℕ) (s : System) : System → Type 0 where
  here : Steps owner s s
  next : {t u : System} → Steps owner s t → Step owner t u → Steps owner s u

-- ===== src/Bench/Access.antt =====
-- `access_variables` of litl/bench/bench_block.c (lines 57-65), one access to the memory at a time.
use htll.Common.{ℕ, ◌+◌, ◌*◌, ltb, if◌then◌else◌, update, u64}

-- The words of a memory area, and the areas by their numbers: the one of the short critical
-- sections and the one of the long ones.
abbrev pub Area : Type 0
Area = ℕ → ℕ

abbrev pub short_area : ℕ
short_area = 0

abbrev pub long_area : ℕ
long_area = 1

-- Where a thread stands in the function, with the area and its `i`.
pub data Body : Type 0 where
  out : Body
  load_last : (area i : ℕ) → Body  -- the read of word 7 on line 62
  store_copy : (area i value : ℕ) → Body  -- the write of word 2
  load_copy : (area i : ℕ) → Body  -- the read of word 2 on line 63
  store_last : (area i value : ℕ) → Body  -- the write of word 7
  done : Body  -- the function has returned

-- The head of the loop.
abbrev pub head : ℕ → ℕ → ℕ → Body
head number area i = if ltb i number then load_last area i else done

abbrev pub put_word : (ℕ → Area) → ℕ → ℕ → ℕ → ℕ → Area
put_word m area w v = update m area (update (m area) w v)

-- `number` gives the `number_of_variables` of each area.
unfoldable pub access_move : (ℕ → ℕ) → (ℕ → Area) → Body → (ℕ → Area) × Body
access_move number m (load_last a i) = (m, store_copy a i (m a (8 * i + 7)))
access_move number m (store_copy a i v) = (put_word m a (8 * i + 2) (u64 (v + 1)), load_copy a i)
access_move number m (load_copy a i) = (m, store_last a i (m a (8 * i + 2)))
access_move number m (store_last a i v) =
    (put_word m a (8 * i + 7) (u64 (v + 1)), head (number a) a (i + 1))
access_move number m b = (m, b)

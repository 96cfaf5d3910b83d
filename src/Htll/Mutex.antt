-- ===== src/Htll/Mutex.antt =====
-- `htll_mutex_t` of litl/include/htll.h and the accesses to it: the union of the word `u` with
-- its bytes `locked` and `contended` (little endian), the two exchanges, and the counters.
use htll.Common.{
  ℕ, ◌+◌, ◌-◌, ◌*◌, ◌/◌, ◌%◌, ◌≤◌, ◌≡◌, arith, ltb, ◌==◌, if◌then◌else◌, u8, u32, sub_u32,
}
use htll.Htll.Constants.{
  spin_tries_lock, adjust_threshold, wake_max_threshold, wake_min_threshold, increase_unit,
  decrease_unit,
}

-- `struct htll_lock`, without its padding. All fields are 32-bit unsigned values.
pub record Mutex : Type 0 where
  pub u : ℕ
  pub ticks_spin : ℕ
  pub cnt_unlock : ℕ
  pub cnt_wake : ℕ
  pub flag : ℕ

unfoldable pub mutex_create : Mutex
mutex_create = record {
  u = 0;
  ticks_spin = spin_tries_lock;
  cnt_unlock = 0;
  cnt_wake = 0;
  flag = 0;
}

-- The union's members: byte 0 of `u` is `b.locked` and byte 1 is `b.contended`.
abbrev pub locked_of : ℕ → ℕ
locked_of u = u % 256

abbrev pub contended_of : ℕ → ℕ
contended_of u = u / 256 % 256

abbrev pub store_locked : Mutex → ℕ → Mutex
store_locked m x = record m { u = m.u - locked_of m.u + u8 x }

abbrev pub store_contended : Mutex → ℕ → Mutex
store_contended m x = record m { u = m.u - contended_of m.u * 256 + u8 x * 256 }

-- `htll_swap_uint8(&m->l.b.locked, x)`: the old byte, and the lock after it.
abbrev pub swap_uint8 : Mutex → ℕ → ℕ × Mutex
swap_uint8 m x = (locked_of m.u, store_locked m x)

-- `htll_swap_uint32(&m->l.u, x)`.
abbrev pub swap_uint32 : Mutex → ℕ → ℕ × Mutex
swap_uint32 m x = (m.u, record m { u = u32 x })

-- `__sync_val_compare_and_swap(&m->l.u, expected, x)`.
abbrev pub compare_and_swap : Mutex → ℕ → ℕ → ℕ × Mutex
compare_and_swap m expected x = (m.u, if m.u == expected then record m { u = u32 x } else m)

-- The counters are plain unsigned fields, and wrap.
unfoldable pub adjust_spin_ticks : Mutex → Mutex
adjust_spin_ticks m =
    record (if ltb wake_max_threshold m.cnt_wake
      then record m { ticks_spin = u32 (m.ticks_spin + increase_unit) }
      else if ltb m.cnt_wake wake_min_threshold
      then record m { ticks_spin = sub_u32 m.ticks_spin decrease_unit }
      else m) { cnt_wake = 0 }

-- Lines 114-117: `cnt_unlock++`, and an adjustment each time its low eleven bits are 0. The mask
-- ADJUST_THRESHOLD is 2 ^ 11 - 1, so `&` is `%`.
unfoldable pub count_unlock : Mutex → Mutex
unfolding adjust_spin_ticks
count_unlock m =
    let m' = record m { cnt_unlock = u32 (m.cnt_unlock + 1) } in
    if m'.cnt_unlock % (adjust_threshold + 1) == 0 then adjust_spin_ticks m' else m'

abbrev pub ebusy : ℕ
ebusy = 16

-- `htll_mutex_trylock`, with its result.
unfoldable pub mutex_trylock : Mutex → Mutex × ℕ
mutex_trylock m = let (c, m') = swap_uint8 m 1 in (m', if c == 0 then 0 else ebusy)

-- The values that the lock word takes: two flags, in the low bits of its two low bytes.
pub record IsWord (u : ℕ) : Type 0 where
  pub locked_flag : locked_of u ≤ 1
  pub contended_flag : contended_of u ≤ 1
  pub rest : u ≡ locked_of u + 256 * contended_of u

-- The counters never touch the lock word.
pub count_unlock-u : (m : Mutex) → (count_unlock m).u ≡ m.u
unfolding count_unlock
count_unlock-u m = ground arith

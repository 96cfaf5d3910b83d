-- ===== src/Cond/Ops.antt =====
-- `upmutex_cond1_t` of litl/include/htll.h, and the functions of litl/src/htll.c on it that do not
-- wait (lines 160-201).
use htll.Common.{ℕ, ◌+◌, List, [], ◌∷◌, ◌==◌, if◌then◌else◌, u32}

-- `m` is the address of the lock, 0 for NULL; `seq` is kept as a 32-bit pattern.
pub record Cond : Type 0 where
  pub m : ℕ
  pub seq : ℕ

-- The futex calls on `seq` that these functions make: FUTEX_WAKE with the number to wake, and
-- FUTEX_REQUEUE with it, the number to requeue at most, and the lock's address.
pub data Call : Type 0 where
  futex_wake : (count : ℕ) → Call
  futex_requeue : (count limit mutex : ℕ) → Call

abbrev pub int_max : ℕ
int_max = 0x7fff_ffff

unfoldable pub cond_init : Cond → ℕ × Cond
cond_init c = (0, record { m = 0; seq = 0 })

unfoldable pub cond_destroy : Cond → ℕ × Cond
cond_destroy c = (0, c)

-- Each returns 0, with the calls that it makes.
unfoldable pub cond_signal : Cond → Cond × List Call
cond_signal c = (record c { seq = u32 (c.seq + 1) }, futex_wake 1 ∷ [])

unfoldable pub cond_broadcast : Cond → Cond × List Call
cond_broadcast c =
    if c.m == 0
    then (c, [])
    else (record c { seq = u32 (c.seq + 1) }, futex_requeue 1 int_max c.m ∷ [])

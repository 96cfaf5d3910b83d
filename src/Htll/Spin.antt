-- ===== src/Htll/Spin.antt =====
-- The bounded spin of litl/include/htll.h: HTLL_FOR_N_CYCLES.
use htll.Common.{ℕ, ◌+◌, ◌-◌, ◌^◌, Bool, ltb, if◌then◌else◌, sub_u64}

-- `(___e - ___s) > n` compares a uint64_t with an `int`, which is sign-extended first. `n` is its
-- 32-bit pattern.
abbrev pub sign_extend : ℕ → ℕ
sign_extend n = if ltb n (2 ^ 31) then n else n + 2 ^ 64 - 2 ^ 32

unfoldable pub cycles_over : ℕ → ℕ → ℕ → Bool
cycles_over n s e = ltb (sign_extend n) (sub_u64 e s)

-- ===== src/Aligned/Alloc.antt =====
-- litl/include/padding.h, lines 30-34, and litl/src/utils.c, lines 67-75, on a 64-bit size_t. The
-- length of a cache line, which the build finds out, is the argument `line`.
use htll.Common.{
  ℕ, ◌+◌, ◌-◌, ◌^◌, bit_and, ◌||◌, ◌==◌, if◌then◌else◌, ℤ, is_negative, Outcome, ok, fault, stopped,
  u64, sub_u64,
}

-- `((n) + (r)-1) & -(r)`, where `r` is above 0 and `-(r)` is converted to a size_t.
unfoldable pub r_align : ℕ → ℕ → ℕ
r_align n r = bit_and (u64 (n + r + (2 ^ 64 - 1))) (2 ^ 64 - r)

unfoldable pub cache_align : ℕ → ℕ → ℕ
unfolding r_align
cache_align line n = r_align n line

unfoldable pub pad_to_cache_line : ℕ → ℕ → ℕ
unfolding cache_align
pad_to_cache_line line n = sub_u64 (cache_align line n) n

-- `memalign alignment size` is what posix_memalign returns, and what it leaves in a pointer that
-- was NULL.
unfoldable pub alloc_cache_align : (ℕ → ℕ → ℤ × ℕ) → ℕ → ℕ → Outcome ℕ
unfolding cache_align
alloc_cache_align memalign line n =
    let r = memalign line (cache_align line n) in
    if is_negative r.0 || (r.1 == 0) then fault stopped else ok r.1

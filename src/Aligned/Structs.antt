-- ===== src/Aligned/Structs.antt =====
-- The structures of litl/include/htll.h (lines 97-125) and litl/include/mcssteal.h (lines 35-54), with
-- int and unsigned of 4 bytes and pointers of 8.
use htll.Common.{ℕ, ◌-◌, List, [], ◌∷◌}
use htll.Aligned.Alloc.{pad_to_cache_line}
use htll.Aligned.Layout.{Member}

abbrev pub cache_line_size : ℕ
cache_line_size = 64

-- A scalar has its size as its alignment.
abbrev pub scalar : ℕ → Member
scalar n = record { size = n; align = n }

abbrev pub bytes : ℕ → Member
bytes n = record { size = n; align = 1 }

-- Members that are each followed by `char __pad[pad_to_cache_line(sizeof(member))]`.
unfoldable pub padded : ℕ → List ℕ → List Member
unfolding pad_to_cache_line
padded line [] = []
padded line (s ∷ ss) = scalar s ∷ bytes (pad_to_cache_line line s) ∷ padded line ss

-- `struct htll_lock`: the union `l`, which is as large as its member `u`, and the four other fields.
unfoldable pub htll_lock : List Member
htll_lock =
    scalar 4
    ∷ bytes (cache_line_size - 4)
    ∷ scalar 4
    ∷ bytes (cache_line_size - 4)
    ∷ scalar 4
    ∷ bytes (cache_line_size - 4)
    ∷ scalar 4
    ∷ bytes (cache_line_size - 4)
    ∷ scalar 4
    ∷ bytes (cache_line_size - 4)
    ∷ []

-- `struct upmutex_cond1`: m, seq, pad and the padding.
unfoldable pub upmutex_cond1 : List Member
upmutex_cond1 = scalar 8 ∷ scalar 4 ∷ scalar 4 ∷ bytes (cache_line_size - 16) ∷ []

-- `struct mcssteal_node`: next, status, time and spin, which is aligned to the line.
unfoldable pub mcssteal_node : ℕ → List Member
unfolding pad_to_cache_line
mcssteal_node line =
    scalar 8
    ∷ bytes (pad_to_cache_line line 8)
    ∷ scalar 4
    ∷ bytes (pad_to_cache_line line 4)
    ∷ scalar 4
    ∷ bytes (pad_to_cache_line line 4)
    ∷ record { size = 4; align = line }
    ∷ []

-- `struct mcssteal_mutex` without COND_VAR: no_stealing and tail.
unfoldable pub mcssteal_mutex : ℕ → List Member
unfolding pad_to_cache_line
mcssteal_mutex line =
    scalar 4 ∷ bytes (pad_to_cache_line line 4) ∷ record { size = 8; align = line } ∷ []

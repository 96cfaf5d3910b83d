-- ===== src/Aligned/Layout.antt =====
-- How C lays out the members of the structures of litl/include, on x86-64: each member at the next
-- multiple of its alignment, and the whole rounded up to the largest alignment.
use htll.Common.{ℕ, ◌+◌, ◌-◌, ◌*◌, ◌/◌, List, [], ◌∷◌, max}

pub record Member : Type 0 where
  pub size : ℕ
  pub align : ℕ

-- Alignments are above 0.
abbrev pub round_up : ℕ → ℕ → ℕ
round_up n a = (n + a - 1) / a * a

-- The offsets of the members, the first of which stands at `at` or behind it.
unfoldable pub offsets : ℕ → List Member → List ℕ
offsets at [] = []
offsets at (m ∷ ms) = round_up at m.align ∷ offsets (round_up at m.align + m.size) ms

-- Where the last member ends.
unfoldable pub end_of : ℕ → List Member → ℕ
end_of at [] = at
end_of at (m ∷ ms) = end_of (round_up at m.align + m.size) ms

unfoldable pub align_of : List Member → ℕ
align_of [] = 1
align_of (m ∷ ms) = max m.align (align_of ms)

-- `sizeof` of a structure that is declared with the attribute `aligned(line)`.
unfoldable pub size_of : ℕ → List Member → ℕ
unfolding end_of align_of
size_of line ms = round_up (end_of 0 ms) (max line (align_of ms))

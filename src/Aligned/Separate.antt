-- ===== src/Aligned/Separate.antt =====
-- Which members of the structures share a cache line.
use native.Mathlib.Nat.{
  mul-add-div, mul_assoc, mul_comm, div-eq_of_lt, mul-one, mul-suc, mul-zero, zero-add, div-add-mod,
  pow-le-pow_right, pow-suc,
}
use htll.Common.{
  ℤ, ok, get_elem?, some, ℕ, zero, suc, ◌+◌, ◌-◌, ◌*◌, ◌/◌, ◌%◌, ◌^◌, ◌≤◌, ◌<◌, ◌≡◌, ◌∙◌, sym, ap,
  refl, arith, List, [], ◌∷◌, ◌++◌, length, subst, two_pow_pos, sub_u64,
}
use htll.Aligned.Alloc.{pad_to_cache_line, cache_align, r_align, alloc_cache_align}
use htll.Aligned.Lines.{r_align-div, MemalignLaws, alloc_cache_align_lem}
use htll.Aligned.Layout.{Member, round_up, offsets, end_of, size_of}
use htll.Aligned.Structs.{cache_line_size, padded, htll_lock, mcssteal_node, mcssteal_mutex}

-- A multiple of the alignment stays.
round_up_multiple : (x s : ℕ) → 0 < s → round_up (s * x) s ≡ s * x
round_up_multiple x s some_size =
    let sum : s * x + s - 1 ≡ s * x + (s - 1) = omega arith in
    let quotient : (s * x + s - 1) / s ≡ x =
      ap (λ y. y / s) sum
      ∙ mul-add-div some_size x (s - 1)
      ∙ ap (λ y. x + y) (div-eq_of_lt (omega arith))
      ∙ omega arith in
    ap (λ y. y * s) quotient ∙ mul_comm x s

pad-small : (k s : ℕ) → k ≤ 60 → 0 < s → s ≤ 2 ^ k → pad_to_cache_line (2 ^ k) s ≡ 2 ^ k - s
unfolding pad_to_cache_line cache_align
pad-small k s le some_size fits =
    let small : 2 ^ k ≤ 2 ^ 60 = pow-le-pow_right {n = 2} (omega arith) le in
    let sum : s + 2 ^ k - 1 ≡ 2 ^ k * 1 + (s - 1) = omega (arith, mul-one (2 ^ k), two_pow_pos k) in
    let quotient : (s + 2 ^ k - 1) / 2 ^ k ≡ 1 =
      ap (λ y. y / 2 ^ k) sum
      ∙ mul-add-div (two_pow_pos k) 1 (s - 1)
      ∙ ap (λ y. 1 + y) (div-eq_of_lt (omega arith)) in
    let rounded : r_align s (2 ^ k) ≡ 1 * 2 ^ k =
      r_align-div k s (omega arith) (omega arith) ∙ ap (λ y. y * 2 ^ k) quotient in
    ap (λ y. sub_u64 y s) rounded ∙ omega arith

at_multiple : (s q c : ℕ) {line : ℕ} → s * q ≡ line → line * c ≡ s * (q * c)
at_multiple s q c divides = rw (sym divides) (mul_assoc s q c)

-- The size of a member is above 0 and divides the line.
abbrev pub AllFit : ℕ → List ℕ → Type 0
AllFit line [] = Unit
AllFit line (s ∷ ss) = (0 < s) × (s ≤ line) × ((q : ℕ) × (s * q ≡ line)) × AllFit line ss

one_padded :
    (k c s : ℕ)
    → k ≤ 60
    → 0 < s
    → s ≤ 2 ^ k
    → (q : ℕ) → s * q ≡ 2 ^ k
    → (round_up (2 ^ k * c) s ≡ 2 ^ k * c)
      × (round_up (2 ^ k * c + s) 1 ≡ 2 ^ k * c + s)
      × (pad_to_cache_line (2 ^ k) s ≡ 2 ^ k - s)
      × (2 ^ k * c + s + (2 ^ k - s) ≡ 2 ^ k * (c + 1))
one_padded k c s le some_size fits q divides =
    let next : 2 ^ k * (c + 1) ≡ 2 ^ k * suc c = ap (λ x. 2 ^ k * x) (omega arith) in
    (
      ap (λ y. round_up y s) (at_multiple s q c divides)
          ∙ round_up_multiple (q * c) s some_size
          ∙ sym (at_multiple s q c divides),
      omega arith,
      pad-small k s le some_size fits,
      omega (arith, mul-suc (2 ^ k) c, next),
    )

-- Each member at the start of a line of its own, and its padding behind it.
abbrev pub lines_from : ℕ → ℕ → List ℕ → List ℕ
lines_from line c [] = []
lines_from line c (s ∷ ss) = line * c ∷ (line * c + s) ∷ lines_from line (c + 1) ss

-- Members that are padded with pad_to_cache_line, and whose sizes divide the line, each begin a
-- cache line of their own, one behind the other, for every line that is a power of two.
pub padded-offsets :
    (k c : ℕ) (ss : List ℕ)
    → k ≤ 60
    → AllFit (2 ^ k) ss
    → offsets (2 ^ k * c) (padded (2 ^ k) ss) ≡ lines_from (2 ^ k) c ss
unfolding offsets padded
padded-offsets k c [] le fit = refl
padded-offsets k c (s ∷ ss) le (some_size, fits, (q, divides), fit) =
    let (first, behind, pad, next) = one_padded k c s le some_size fits q divides in
    rw (first, behind, pad, next)
      (ap (λ os. 2 ^ k * c ∷ (2 ^ k * c + s) ∷ os) (padded-offsets k (c + 1) ss le fit))

-- Where they end.
padded-end_of :
    (k c : ℕ) (ss : List ℕ)
    → k ≤ 60
    → AllFit (2 ^ k) ss
    → end_of (2 ^ k * c) (padded (2 ^ k) ss) ≡ 2 ^ k * (c + length ss)
unfolding end_of padded
padded-end_of k c [] le fit = ap (λ x. 2 ^ k * x) (omega arith)
padded-end_of k c (s ∷ ss) le (some_size, fits, (q, divides), fit) =
    let (first, behind, pad, next) = one_padded k c s le some_size fits q divides in
    let line_end : round_up (round_up (2 ^ k * c) s + s) 1 + pad_to_cache_line (2 ^ k) s
        ≡ 2 ^ k * (c + 1) =
      rw (first, behind, pad, next) refl in
    ap (λ x. end_of x (padded (2 ^ k) ss)) line_end
    ∙ (padded-end_of k (c + 1) ss le fit ∙ ap (λ x. 2 ^ k * x) (omega arith))

offsets-append :
    (at : ℕ) (ms ns : List Member)
    → offsets at (ms ++ ns) ≡ offsets at ms ++ offsets (end_of at ms) ns
unfolding offsets end_of
offsets-append at [] ns = refl
offsets-append at (m ∷ ms) ns =
    ap (λ os. round_up at m.align ∷ os) (offsets-append (round_up at m.align + m.size) ms ns)

-- Behind them a member that is aligned to the line.
tail_offset :
    (k : ℕ) (ss : List ℕ) (size : ℕ)
    → k ≤ 60
    → AllFit (2 ^ k) ss
    → offsets 0 (padded (2 ^ k) ss ++ record { size = size; align = 2 ^ k } ∷ [])
      ≡ lines_from (2 ^ k) 0 ss ++ 2 ^ k * length ss ∷ []
unfolding offsets
tail_offset k ss size le fit =
    let line : Member = record { size = size; align = 2 ^ k } in
    let from_zero : 2 ^ k * 0 ≡ 0 = mul-zero (2 ^ k) in
    let here =
      subst (λ x. offsets x (padded (2 ^ k) ss) ≡ lines_from (2 ^ k) 0 ss) from_zero
        (padded-offsets k 0 ss le fit) in
    let end =
      subst (λ x. end_of x (padded (2 ^ k) ss) ≡ 2 ^ k * (0 + length ss)) from_zero
        (padded-end_of k 0 ss le fit) in
    offsets-append 0 (padded (2 ^ k) ss) (line ∷ [])
    ∙ rw (here, end, round_up_multiple (0 + length ss) (2 ^ k) (two_pow_pos k))
        (ap (λ x. lines_from (2 ^ k) 0 ss ++ 2 ^ k * x ∷ []) (omega arith))

power_multiple : (j k : ℕ) → j ≤ k → (q : ℕ) × (2 ^ j * q ≡ 2 ^ k)
power_multiple zero k le = (2 ^ k, omega (arith, zero-add (2 ^ k)))
power_multiple (suc j) zero le = absurd (omega arith)
power_multiple (suc j) (suc k) le =
    let (q, same) = power_multiple j k (omega arith) in
    (
      q,
      ap (λ x. x * q) (pow-suc 2 j ∙ mul_comm (2 ^ j) 2)
          ∙ mul_assoc 2 (2 ^ j) q
          ∙ ap (λ x. 2 * x) same
          ∙ mul_comm 2 (2 ^ k)
          ∙ sym (pow-suc 2 k),
    )

-- An address that begins a large line begins a small one.
begins_line : (k a : ℕ) → 6 ≤ k → a % 2 ^ k ≡ 0 → a % 64 ≡ 0
begins_line k a low aligned =
    let (q, same) = power_multiple 6 k low in
    let whole : 2 ^ k * (a / 2 ^ k) ≡ 64 * (q * (a / 2 ^ k)) = at_multiple 64 q (a / 2 ^ k) same in
    omega (arith, div-add-mod a (2 ^ k), whole)

-- The members next, status, time and spin of a node of the stealing lock stand in four lines, one
-- behind the other, and no_stealing and tail of its mutex in two, for every line that is a power of
-- two from 8 bytes on.
pub mcssteal-offsets :
    (k : ℕ)
    → 3 ≤ k
    → k ≤ 60
    → (offsets 0 (mcssteal_node (2 ^ k)) ≡ lines_from (2 ^ k) 0 (8 ∷ 4 ∷ 4 ∷ []) ++ 2 ^ k * 3 ∷ [])
      × (offsets 0 (mcssteal_mutex (2 ^ k)) ≡ lines_from (2 ^ k) 0 (4 ∷ []) ++ 2 ^ k * 1 ∷ [])
unfolding mcssteal_node mcssteal_mutex padded
mcssteal-offsets k low high =
    let (q, eight) = power_multiple 3 k low in
    let pointer : AllFit (2 ^ k) (8 ∷ []) =
      (omega arith, omega (arith, eight, two_pow_pos k), (q, eight), tt) in
    let word : AllFit (2 ^ k) (4 ∷ []) =
      (omega arith, omega (arith, eight, two_pow_pos k), (2 * q, omega (arith, eight)), tt) in
    (
      tail_offset k (8 ∷ 4 ∷ 4 ∷ []) 4 high
          (pointer.0, pointer.1, pointer.2, (word.0, word.1, word.2, word)),
      tail_offset k (4 ∷ []) 8 high word,
    )

-- A lock that htll_mutex_create has got from alloc_cache_align, with lines of 64 bytes or a larger
-- power of two, lies in 320 bytes of its block, and its word and each of its four other fields
-- stand at the start of 64 bytes of their own.
pub lock_lines :
    (memalign : ℕ → ℕ → ℤ × ℕ) (laws : MemalignLaws memalign) (k a : ℕ)
    → 6 ≤ k
    → k ≤ 60
    → alloc_cache_align memalign (2 ^ k) (size_of cache_line_size htll_lock) ≡ ok a
    → (320 ≤ laws.granted a)
      × ((i : ℕ)
          → i < 5
          → (o : ℕ) × (get_elem? (offsets 0 htll_lock) (2 * i) ≡ some o)
            × ((a + o) / 64 ≡ a / 64 + i)
            × ((a + o) % 64 ≡ 0))
unfolding htll_lock offsets size_of
lock_lines memalign laws k a low high e =
    let small = pow-le-pow_right {n = 2} (omega arith) high in
    let (some_block, aligned, room) =
      alloc_cache_align_lem memalign laws k 320 a (omega arith) (omega arith) e in
    let begins : a % 64 ≡ 0 = begins_line k a low aligned in (room, λ i lt. at i lt begins)
  where
    at :
        (i : ℕ)
        → i < 5
        → a % 64 ≡ 0
        → (o : ℕ) × (get_elem? (offsets 0 htll_lock) (2 * i) ≡ some o)
          × ((a + o) / 64 ≡ a / 64 + i)
          × ((a + o) % 64 ≡ 0)
    at zero lt begins = (0, refl, omega arith, omega arith)
    at (suc zero) lt begins = (64, refl, omega arith, omega arith)
    at (suc (suc zero)) lt begins = (128, refl, omega arith, omega arith)
    at (suc (suc (suc zero))) lt begins = (192, refl, omega arith, omega arith)
    at (suc (suc (suc (suc zero)))) lt begins = (256, refl, omega arith, omega arith)
    at (suc (suc (suc (suc (suc i))))) lt begins = absurd (omega arith)

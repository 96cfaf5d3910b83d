-- ===== src/Aligned/Lines.antt =====
-- The sizes that litl/include/padding.h rounds up, and the blocks of litl/src/utils.c.
use native.Mathlib.Nat.{div-mul-le_self, lt-div-mul-add}
use htll.Common.{
  ℕ, zero, suc, negsuc, subst, refl, ◌+◌, ◌-◌, ◌*◌, ◌/◌, ◌%◌, ◌^◌, ◌≤◌, ◌<◌, ◌≡◌, ◌≢◌, arith, ap,
  ◌∙◌, bit_and, ok, fault, stopped, ℤ, pos, u64, two_pow_pos, if◌then◌else◌, ◌==◌, ◌||◌,
  is_negative,
}
use htll.Common.Masks.{and-negated}
use htll.Aligned.Alloc.{r_align, cache_align, pad_to_cache_line, alloc_cache_align}

-- For every line that is a power of two, and as long as the sum stays below 2^64, the mask of
-- r_align rounds up by division to a multiple of the line.
pub r_align-div :
    (k n : ℕ) → k ≤ 63 → n + 2 ^ k ≤ 2 ^ 64 → r_align n (2 ^ k) ≡ (n + 2 ^ k - 1) / 2 ^ k * 2 ^ k
unfolding r_align
r_align-div k n le room =
    let sum : u64 (n + 2 ^ k + (2 ^ 64 - 1)) ≡ n + 2 ^ k - 1 = omega (arith, two_pow_pos k) in
    ap (λ x. bit_and x (2 ^ 64 - 2 ^ k)) sum
    ∙ and-negated 64 k (n + 2 ^ k - 1) (omega arith) (omega (arith, two_pow_pos k))

-- The rounded size holds the size, and less than one line more.
pub cache_align_bounds :
    (k n : ℕ)
    → k ≤ 63
    → n + 2 ^ k ≤ 2 ^ 64
    → (n ≤ cache_align (2 ^ k) n)
      × (cache_align (2 ^ k) n < n + 2 ^ k)
      × (pad_to_cache_line (2 ^ k) n < 2 ^ k)
unfolding cache_align pad_to_cache_line
cache_align_bounds k n le room =
    let round = r_align-div k n le room in
    let low = div-mul-le_self (n + 2 ^ k - 1) (2 ^ k) in
    let high = lt-div-mul-add {a = n + 2 ^ k - 1} (two_pow_pos k) in
    (omega (arith, two_pow_pos k), omega (arith, two_pow_pos k), omega (arith, two_pow_pos k))

-- What posix_memalign(3) of Linux says: it returns 0 and leaves an aligned block of at least the
-- size, or an error number, and then the pointer is as it was.
pub record MemalignLaws (memalign : ℕ → ℕ → ℤ × ℕ) : Type 0 where
  pub granted : ℕ → ℕ
  pub aligned : (line size : ℕ) → (memalign line size).0 ≡ pos 0 → (memalign line size).1 % line ≡ 0
  pub fits :
      (line size : ℕ) → (memalign line size).0 ≡ pos 0 → size ≤ granted (memalign line size).1
  pub fails : (line size : ℕ) → (memalign line size).0 ≢ pos 0 → (memalign line size).1 ≡ 0

returned_pointer :
    (r : ℤ × ℕ) (a : ℕ)
    → (r.0 ≢ pos 0 → r.1 ≡ 0)
    → (if is_negative r.0 || (r.1 == 0) then fault stopped else ok r.1) ≡ ok a
    → (r.0 ≡ pos 0) × (r.1 ≡ a) × (a ≢ 0)
returned_pointer (pos zero, p) a fails e = (refl, ground arith, ground arith)
returned_pointer (pos (suc c), p) a fails e = absurd (ground (arith, fails (λ x. cc)))
returned_pointer (negsuc c, p) a fails e = absurd (ground arith)

-- Over such a posix_memalign, with a line that is a power of two and a size that does not overflow,
-- an address that alloc_cache_align returns is not null, begins a cache line, and has room for the
-- size.
pub alloc_cache_align_lem :
    (memalign : ℕ → ℕ → ℤ × ℕ) (laws : MemalignLaws memalign) (k n a : ℕ)
    → k ≤ 63
    → n + 2 ^ k ≤ 2 ^ 64
    → alloc_cache_align memalign (2 ^ k) n ≡ ok a
    → (a ≢ 0) × (a % 2 ^ k ≡ 0) × (n ≤ laws.granted a)
unfolding alloc_cache_align
alloc_cache_align_lem memalign laws k n a le room e =
    let size = cache_align (2 ^ k) n in
    let (success, same, some_block) =
      returned_pointer (memalign (2 ^ k) size) a (laws.fails (2 ^ k) size) e in
    let bounds = cache_align_bounds k n le room in
    (
      some_block,
      subst (λ x. x % 2 ^ k ≡ 0) same (laws.aligned (2 ^ k) size success),
      omega (
        arith,
        bounds.0,
        subst (λ x. size ≤ laws.granted x) same (laws.fits (2 ^ k) size success),
      ),
    )

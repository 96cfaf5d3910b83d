-- ===== src/Common/Masks.antt =====
-- A mask of the high bits of a word rounds down to a power of two.
use Prim.Native.Nat.{ℕ, zero, suc, ◌+◌, ◌-◌, ◌*◌, ◌/◌, ◌^◌, ◌≤◌, ◌<◌, bit_and}
use mathlib.Core.Path.{◌≡◌, refl, sym, ap, ◌∙◌, subst}
use native.Mathlib.Omega.{arith}
use native.Mathlib.Nat.{
  pow-suc, mul_assoc, mul_comm, div-div-eq-div-mul, mul-one, div-one, add-zero, add-suc,
}
use htll.Common.Words.{two_pow_pos}
use htll.Common.Bits.{and_odd, and_even}

and_ones : (j x : ℕ) → x < 2 ^ j → bit_and x (2 ^ j - 1) ≡ x
and_ones zero x lt = let nothing : x ≡ 0 = omega arith in rw nothing refl
and_ones (suc j) x lt =
    let ones : 2 ^ suc j - 1 ≡ (2 ^ j - 1) * 2 + 1 = omega (arith, pow-suc 2 j, two_pow_pos j) in
    rw (ones, and_odd x (2 ^ j - 1))
      (omega (arith, and_ones j (x / 2) (omega (arith, pow-suc 2 j))))

-- The mask has `j` ones and below them `k` zeros.
pub and_high : (k j x : ℕ) → x < 2 ^ (j + k) → bit_and x ((2 ^ j - 1) * 2 ^ k) ≡ x / 2 ^ k * 2 ^ k
and_high zero j x lt =
    let small : x < 2 ^ j = subst (λ e. x < 2 ^ e) (add-zero j) lt in
    rw (mul-one (2 ^ j - 1), div-one x, mul-one x) (and_ones j x small)
and_high (suc k) j x lt =
    let small : x / 2 < 2 ^ (j + k) =
      omega (arith, pow-suc 2 (j + k), subst (λ e. x < 2 ^ e) (add-suc j k) lt) in
    let half : x / 2 ^ suc k ≡ x / 2 / 2 ^ k =
      ap (λ e. x / e) (pow-suc 2 k ∙ mul_comm (2 ^ k) 2) ∙ sym (div-div-eq-div-mul x 2 (2 ^ k)) in
    ap (bit_and x) (ap (λ e. (2 ^ j - 1) * e) (pow-suc 2 k) ∙ sym (mul_assoc (2 ^ j - 1) (2 ^ k) 2))
    ∙ and_even x ((2 ^ j - 1) * 2 ^ k)
    ∙ ap (λ e. e * 2) (and_high k j (x / 2) small)
    ∙ mul_assoc (x / 2 / 2 ^ k) (2 ^ k) 2
    ∙ sym (ap (λ e. e * 2 ^ suc k) half ∙ ap (λ e. x / 2 / 2 ^ k * e) (pow-suc 2 k))

mask : (k j : ℕ) → (2 ^ j - 1) * 2 ^ k ≡ 2 ^ (j + k) - 2 ^ k
mask zero j = mul-one (2 ^ j - 1) ∙ ap (λ e. 2 ^ e - 1) (sym (add-zero j))
mask (suc k) j =
    ap (λ e. (2 ^ j - 1) * e) (pow-suc 2 k)
    ∙ sym (mul_assoc (2 ^ j - 1) (2 ^ k) 2)
    ∙ ap (λ e. e * 2) (mask k j)
    ∙ (let top : 2 ^ (j + suc k) ≡ 2 ^ (j + k) * 2 =
          ap (λ e. 2 ^ e) (add-suc j k) ∙ pow-suc 2 (j + k) in
        omega (arith, top, pow-suc 2 k))

-- `x & -(2 ^ k)` on words of `w` bits.
pub and-negated : (w k x : ℕ) → k ≤ w → x < 2 ^ w → bit_and x (2 ^ w - 2 ^ k) ≡ x / 2 ^ k * 2 ^ k
and-negated w k x le lt =
    let width : w ≡ w - k + k = omega arith in
    ap (bit_and x) (ap (λ e. 2 ^ e - 2 ^ k) width ∙ sym (mask k (w - k)))
    ∙ and_high k (w - k) x (subst (λ e. x < 2 ^ e) width lt)

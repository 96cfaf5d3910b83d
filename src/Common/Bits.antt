-- ===== src/Common/Bits.antt =====
-- `a & mask` at a variable `a`, one binary digit of the mask at a time.
use Prim.Native.Nat.{ℕ, zero, suc, ◌+◌, ◌*◌, ◌/◌, ◌%◌, ◌≤◌, min, bit_and, digits, bit_and-bitwise}
use mathlib.Core.Path.{◌≡◌, refl}
use native.Mathlib.Omega.{arith}

abbrev conj : ℕ → ℕ → ℕ → ℕ
conj = digits (λ _. zero) min

-- More fuel than the left number makes no difference.
conj_any_fuel : (f g a b : ℕ) → a ≤ f → a ≤ g → conj f a b ≡ conj g a b
conj_any_fuel zero zero a b hf hg = refl
conj_any_fuel (suc f) zero zero b hf hg = refl
conj_any_fuel (suc f) zero (suc a) b hf hg = absurd (omega arith)
conj_any_fuel zero (suc g) zero b hf hg = refl
conj_any_fuel zero (suc g) (suc a) b hf hg = absurd (omega arith)
conj_any_fuel (suc f) (suc g) zero b hf hg = refl
conj_any_fuel (suc f) (suc g) (suc a) b hf hg =
    omega (arith, conj_any_fuel f g (suc a / 2) (b / 2) (omega arith) (omega arith))

-- The last digit apart.
and_digit : (a b : ℕ) → bit_and a b ≡ bit_and (a / 2) (b / 2) * 2 + min (a % 2) (b % 2)
and_digit zero b = omega (arith, bit_and-bitwise 0 b, bit_and-bitwise 0 (b / 2))
and_digit (suc a) b =
    let half = suc a / 2 in
    let same = conj_any_fuel a half half (b / 2) (omega arith) (omega arith) in
    omega (arith, same, bit_and-bitwise (suc a) b, bit_and-bitwise half (b / 2))

pub and_nothing : (f a : ℕ) → a ≤ f → bit_and a 0 ≡ 0
and_nothing f zero h = refl
and_nothing zero (suc a) h = absurd (omega arith)
and_nothing (suc f) (suc a) h =
    omega (arith, and_digit (suc a) 0, and_nothing f (suc a / 2) (omega arith))

-- A mask whose last digit is 1, and one whose last digit is 0.
pub and_odd : (a b : ℕ) → bit_and a (b * 2 + 1) ≡ bit_and (a / 2) b * 2 + a % 2
and_odd a b =
    let half : (b * 2 + 1) / 2 ≡ b = omega arith in rw (and_digit a (b * 2 + 1), half) (omega arith)

pub and_even : (a b : ℕ) → bit_and a (b * 2) ≡ bit_and (a / 2) b * 2
and_even a b =
    let half : b * 2 / 2 ≡ b = omega arith in rw (and_digit a (b * 2), half) (omega arith)

and_four : (a : ℕ) → bit_and a 4 ≡ a / 4 % 2 * 4
and_four a = omega (
  arith,
  and_even a 2,
  and_even (a / 2) 1,
  and_odd (a / 2 / 2) 0,
  and_nothing (a / 2 / 2 / 2) (a / 2 / 2 / 2) (omega arith),
)

and_0x9f : (a : ℕ) → bit_and a 0x9f ≡ a % 32 + a / 128 % 2 * 128
and_0x9f a = omega (
  arith,
  and_odd a 79,
  and_odd (a / 2) 39,
  and_odd (a / 2 / 2) 19,
  and_odd (a / 2 / 2 / 2) 9,
  and_odd (a / 2 / 2 / 2 / 2) 4,
  and_four (a / 2 / 2 / 2 / 2 / 2),
)

and_0x9ff : (a : ℕ) → bit_and a 0x9ff ≡ a % 512 + a / 2048 % 2 * 2048
and_0x9ff a = omega (
  arith,
  and_odd a 1279,
  and_odd (a / 2) 639,
  and_odd (a / 2 / 2) 319,
  and_odd (a / 2 / 2 / 2) 159,
  and_0x9f (a / 2 / 2 / 2 / 2),
)

-- 40959 is the mask of the bits 0 to 12 and 15.
pub and_0x9fff : (a : ℕ) → bit_and a 0x9fff ≡ a % 8192 + a / 32768 % 2 * 32768
and_0x9fff a = omega (
  arith,
  and_odd a 20479,
  and_odd (a / 2) 10239,
  and_odd (a / 2 / 2) 5119,
  and_odd (a / 2 / 2 / 2) 2559,
  and_0x9ff (a / 2 / 2 / 2 / 2),
)

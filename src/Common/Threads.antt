-- ===== src/Common/Threads.antt =====
-- What each of the first `n` threads holds, as a function of its index, and sums over it.
use Prim.Native.Nat.{ℕ, zero, suc, ◌+◌, ◌≤◌, ◌<◌}
use mathlib.Core.Path.{◌≡◌, refl}
use mathlib.Core.Logic.{◌≢◌, inl, inr}
use native.Mathlib.Omega.{arith}
use htll.Common.Tests.{◌==◌, if◌then◌else◌, Bool-cases}

abbrev pub update {ℓ} : {A : Type ℓ} → (ℕ → A) → ℕ → A → ℕ → A
update f i a j = if i == j then a else f j

module _ {ℓ} {A : Type ℓ} (w : A → ℕ) where
  -- The sum of the weights of threads 0 .. n - 1.
  pub sum_over : ℕ → (ℕ → A) → ℕ
  sum_over zero f = 0
  sum_over (suc n) f = w (f n) + sum_over n f

  -- The same sum with thread `i` left out.
  pub sum_but : ℕ → ℕ → (ℕ → A) → ℕ
  sum_but zero i f = 0
  sum_but (suc n) i f = (if i == n then 0 else w (f n)) + sum_but n i f

  pub sum_but-update : (n i : ℕ) (f : ℕ → A) (a : A) → sum_but n i (update f i a) ≡ sum_but n i f
  unfolding sum_but
  sum_but-update zero i f a = refl
  sum_but-update (suc n) i f a = ground (arith, sum_but-update n i f a)

  sum_but_of_le : (n i : ℕ) (f : ℕ → A) → n ≤ i → sum_but n i f ≡ sum_over n f
  unfolding sum_but sum_over
  sum_but_of_le zero i f h = refl
  sum_but_of_le (suc n) i f h = ground (arith, sum_but_of_le n i f)

  pub sum_over-split : (n i : ℕ) (f : ℕ → A) → i < n → sum_over n f ≡ w (f i) + sum_but n i f
  unfolding sum_but sum_over
  sum_over-split zero i f h = elim h [ ]
  sum_over-split (suc n) i f h = ground (arith, sum_over-split n i f, sum_but_of_le n i f)

  -- A change of thread `i` changes only its own share of the sum.
  pub sum_over-update :
      (n i : ℕ) (f : ℕ → A) (a : A) → i < n → sum_over n (update f i a) ≡ w a + sum_but n i f
  sum_over-update n i f a h =
      ground (arith, sum_over-split n i (update f i a) h, sum_but-update n i f a)

  -- A change of a thread that is not among those summed.
  pub sum_over-update_above :
      (n i : ℕ) (f : ℕ → A) (a : A) → n ≤ i → sum_over n (update f i a) ≡ sum_over n f
  unfolding sum_over
  sum_over-update_above zero i f a h = refl
  sum_over-update_above (suc n) i f a h = ground (arith, sum_over-update_above n i f a)

  pub sum_over-add_one : (n : ℕ) (f : ℕ → A) → sum_over (n + 1) f ≡ w (f n) + sum_over n f
  unfolding sum_over
  sum_over-add_one n f = let next : n + 1 ≡ suc n = omega arith in rw next refl

  -- Weights of at most 1.
  pub sum_over-le_count : (n : ℕ) (f : ℕ → A) → ((a : A) → w a ≤ 1) → sum_over n f ≤ n
  unfolding sum_over
  sum_over-le_count zero f one = omega arith
  sum_over-le_count (suc n) f one = omega (arith, one (f n), sum_over-le_count n f one)

  pub sum_but-lt : (n i : ℕ) (f : ℕ → A) → ((a : A) → w a ≤ 1) → i < n → sum_but n i f < n
  unfolding sum_but
  sum_but-lt zero i f one h = elim h [ ]
  sum_but-lt (suc n) i f one h = elim (Bool-cases (i == n)) [
    | inl same ↦ ground (arith, sum_but_of_le n i f (ground arith), sum_over-le_count n f one)
    | inr other ↦ ground (arith, sum_but-lt n i f one (ground arith), one (f n))
  ]

  pub weight-le-sum_but : (n i j : ℕ) (f : ℕ → A) → j < n → i ≢ j → w (f j) ≤ sum_but n i f
  unfolding sum_but
  weight-le-sum_but zero i j f h ne = elim h [ ]
  weight-le-sum_but (suc n) i j f h ne = ground (arith, weight-le-sum_but n i j f)

  pub sum_over-zero : (n : ℕ) (f : ℕ → A) → ((i : ℕ) → i < n → w (f i) ≡ 0) → sum_over n f ≡ 0
  unfolding sum_over
  sum_over-zero zero f h = refl
  sum_over-zero (suc n) f h =
      omega (arith, h n (omega arith), sum_over-zero n f (λ i lt. h i (omega arith)))

  pub sum_over-ext : (n : ℕ) (f g : ℕ → A) → ((i : ℕ) → f i ≡ g i) → sum_over n f ≡ sum_over n g
  unfolding sum_over
  sum_over-ext zero f g same = refl
  sum_over-ext (suc n) f g same = rw (same n, sum_over-ext n f g same) refl

  -- A positive sum has a thread that counts.
  pub sum_over-pos : (n : ℕ) (f : ℕ → A) → 0 < sum_over n f → (i : ℕ) × (i < n) × (0 < w (f i))
  unfolding sum_over
  sum_over-pos zero f h = absurd (omega arith)
  sum_over-pos (suc n) f h = elim (Bool-cases (w (f n) == 0)) [
    | inl none_here ↦ let (i, lt, pos) = sum_over-pos n f (ground arith) in (i, omega arith, pos)
    | inr here ↦ (n, omega arith, ground arith)
  ]

pub sum_over-le {ℓ} :
    {A : Type ℓ} (v w : A → ℕ) (n : ℕ) (f : ℕ → A)
    → ((a : A) → v a ≤ w a)
    → sum_over v n f ≤ sum_over w n f
unfolding sum_over
sum_over-le v w zero f h = omega arith
sum_over-le v w (suc n) f h = omega (arith, h (f n), sum_over-le v w n f h)

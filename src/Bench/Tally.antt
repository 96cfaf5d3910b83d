-- ===== src/Bench/Tally.antt =====
-- What the counters of litl/bench/bench_block.c tell of the requests on an area.
use htll.Common.{
  ℕ, ◌+◌, ◌%◌, ◌^◌, ◌<◌, ◌≡◌, refl, arith, Bool-cases, inl, inr, ◌==◌, ==_iff, ==_refl,
  if◌then◌else◌, update, u64, sum_over, sum_over-split, sum_over-update, sum_over-ext,
}
use htll.Bench.Access.{head}
use htll.Bench.Pending.{pending, new_pending}
use htll.Bench.Threads.{Setup, area_of}

-- The requests on an area that the counters of the first `n` threads tell.
abbrev pub share : Setup → ℕ → (ℕ → ℕ) → ℕ → ℕ
share u a cnt i = if area_of u i == a then cnt i else 0

abbrev pub requests : Setup → ℕ → ℕ → (ℕ → ℕ) → ℕ
requests u n a cnt = sum_over (λ c. c) n (share u a cnt)

module _ (u : Setup) (n : ℕ) where
  -- A new request has all words of its area before it.
  pub begun_share :
      (i a k : ℕ)
      → k < u.number a
      → pending a k (head (u.number (area_of u i)) (area_of u i) 0)
        ≡ (if area_of u i == a then 1 else 0)
  begun_share i a k less = new_pending u.number (area_of u i) a k less

  share-update :
      (cnt : ℕ → ℕ) (i a : ℕ)
      → requests u n a (update cnt i (u64 (cnt i + 1)))
        ≡ sum_over (λ c. c) n (update (share u a cnt) i (share u a (λ _. u64 (cnt i + 1)) i))
  share-update cnt i a =
      sum_over-ext (λ c. c) n (share u a (update cnt i (u64 (cnt i + 1))))
        (update (share u a cnt) i (share u a (λ _. u64 (cnt i + 1)) i))
        (λ j. elim (Bool-cases (i == j)) [
          | inl same ↦ rw ((==_iff i j).0 same, ==_refl j) refl
          | inr other ↦ rw other refl
        ])

  share_more :
      (cnt : ℕ → ℕ) (i a : ℕ)
      → share u a (λ _. u64 (cnt i + 1)) i % 2 ^ 64
        ≡ (share u a cnt i + (if area_of u i == a then 1 else 0)) % 2 ^ 64
  share_more cnt i a = elim (Bool-cases (area_of u i == a)) [
    | inl same ↦ rw same (omega arith)
    | inr other ↦ rw other refl
  ]

  pub counted :
      (cnt : ℕ → ℕ) (i a : ℕ)
      → i < n
      → requests u n a (update cnt i (u64 (cnt i + 1))) % 2 ^ 64
        ≡ (requests u n a cnt + (if area_of u i == a then 1 else 0)) % 2 ^ 64
  counted cnt i a lt = omega (
    arith,
    share-update cnt i a,
    sum_over-update (λ c. c) n i (share u a cnt) (share u a (λ _. u64 (cnt i + 1)) i) lt,
    sum_over-split (λ c. c) n i (share u a cnt) lt,
    share_more cnt i a,
  )

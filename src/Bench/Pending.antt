-- ===== src/Bench/Pending.antt =====
-- What a thread in `access_variables` of litl/bench/bench_block.c knows, and has still to do.
use htll.Common.{
  ℕ, ◌+◌, ◌*◌, ◌%◌, ◌^◌, ◌<◌, ◌≡◌, refl, arith, Bool, true, false, Bool-cases, inl, inr, ltb, leb,
  ◌&&◌, ◌==◌, if◌then◌else◌, u64,
}
use htll.Bench.Access.{
  Area, Body, out, load_last, store_copy, load_copy, store_last, done, head, access_move,
}

-- A thread that has not yet updated word 7 of the variable `k` of an area in its request.
abbrev pub pending : ℕ → ℕ → Body → ℕ
pending a k (load_last b i) = if b == a && leb i k then 1 else 0
pending a k (store_copy b i v) = if b == a && leb i k then 1 else 0
pending a k (load_copy b i) = if b == a && leb i k then 1 else 0
pending a k (store_last b i v) = if b == a && leb i k then 1 else 0
pending a k _ = 0

-- A thread knows what it has read and written.
abbrev pub Reads : (ℕ → Area) → Body → Type 0
Reads m (store_copy a i v) = v ≡ m a (8 * i + 7)
Reads m (load_copy a i) = m a (8 * i + 2) ≡ u64 (m a (8 * i + 7) + 1)
Reads m (store_last a i v) = v ≡ u64 (m a (8 * i + 7) + 1)
Reads m _ = Unit

pub head-Reads : (m : ℕ → Area) (number a i : ℕ) → Reads m (head number a i)
head-Reads m number a i = elim (Bool-cases (ltb i number)) [
  | inl more ↦ rw more tt
  | inr over ↦ rw over tt
]

pub access_move-Reads :
    (number : ℕ → ℕ) (m : ℕ → Area) (b : Body)
    → Reads m b
    → Reads (access_move number m b).0 (access_move number m b).1
unfolding access_move
access_move-Reads number m (store_copy a i v) r = ground arith
access_move-Reads number m (load_copy a i) r = r
access_move-Reads number m (store_last a i v) r =
    head-Reads (access_move number m (store_last a i v)).0 (number a) a (i + 1)
access_move-Reads number m (load_last a i) r = refl
access_move-Reads number m out r = tt
access_move-Reads number m done r = tt

-- What a move takes from a thread's share of the updates it adds to the word.
pub access_move-pending :
    (number : ℕ → ℕ) (m : ℕ → Area) (b : Body) (a k : ℕ)
    → k < number a
    → Reads m b
    → ((access_move number m b).0 a (8 * k + 7) + 2 * pending a k (access_move number m b).1)
        % 2 ^ 64
      ≡ (m a (8 * k + 7) + 2 * pending a k b) % 2 ^ 64
unfolding access_move
access_move-pending number m (store_last c i v) a k lt r = ground arith
access_move-pending number m (store_copy c i v) a k lt r = ground arith
access_move-pending number m b a k lt r = refl

abbrev pub inside : Body → Bool
inside out = false
inside _ = true

pub outside : (b : Body) → inside b ≡ false → b ≡ out
outside out e = refl
outside _ e = cc

pub access_move-inside :
    (number : ℕ → ℕ) (m : ℕ → Area) (b : Body) → inside (access_move number m b).1 ≡ inside b
unfolding access_move
access_move-inside number m b = ground arith

pub new_pending :
    (number : ℕ → ℕ) (b a k : ℕ)
    → k < number a
    → pending a k (head (number b) b 0) ≡ (if b == a then 1 else 0)
new_pending number b a k less = ground arith

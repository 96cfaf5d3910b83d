-- ===== src/Cores/Settled.antt =====
-- How long the lazy check of litl/src/utils.c keeps an old answer.
use htll.Common.{
  ℕ, zero, suc, ◌+◌, ◌%◌, ◌≤◌, ◌<◌, ◌≡◌, refl, arith, ap, some, leb, List, [], ◌∷◌, length,
  Bool-cases, inl, inr, Option-cases, ◌∙◌, replicate,
}
use htll.Cores.Lazy.{Core, is_big_core, update_core_type, lazy_check_threshold}

module _ (judge_big_core : ℕ → ℕ) where
  -- Calls on the given CPUs, one after another.
  abbrev pub calls : List ℕ → Core → Core
  calls [] c = c
  calls (cpu ∷ cpus) c = calls cpus (is_big_core judge_big_core cpu c).1

  abbrev known : ℕ → ℕ → Core
  known t k = record { core_type = some t; lazy_cnt = k }

  -- A call that keeps the answer, one that renews it, and the first one.
  kept :
      (cpu t k : ℕ)
      → k < lazy_check_threshold
      → (is_big_core judge_big_core cpu (known t k)).1 ≡ known t (k + 1)
  unfolding is_big_core
  kept cpu t k young = ground arith

  renewed :
      (cpu t k : ℕ)
      → lazy_check_threshold ≤ k
      → (is_big_core judge_big_core cpu (known t k)).1 ≡ known (judge_big_core cpu) 0
  unfolding is_big_core
  renewed cpu t k old = ground arith

  stays :
      (n cpu k : ℕ)
      → (calls (replicate n cpu) (known (judge_big_core cpu) k)).core_type
        ≡ some (judge_big_core cpu)
  stays zero cpu k = refl
  stays (suc n) cpu k = elim (Bool-cases (leb lazy_check_threshold k)) [
    | inl old ↦
        ap (λ d. (calls (replicate n cpu) d).core_type)
          (renewed cpu (judge_big_core cpu) k (ground arith))
        ∙ stays n cpu 0
    | inr young ↦
        ap (λ d. (calls (replicate n cpu) d).core_type)
          (kept cpu (judge_big_core cpu) k (ground arith))
        ∙ stays n cpu (k + 1)
  ]

  settles :
      (n cpu t k : ℕ)
      → lazy_check_threshold < k + n
      → 0 < n
      → (calls (replicate n cpu) (known t k)).core_type ≡ some (judge_big_core cpu)
  settles zero cpu t k enough some_call = absurd (omega arith)
  settles (suc n) cpu t k enough some_call = elim (Bool-cases (leb lazy_check_threshold k)) [
    | inl old ↦
        ap (λ d. (calls (replicate n cpu) d).core_type) (renewed cpu t k (ground arith))
        ∙ stays n cpu 0
    | inr young ↦
        ap (λ d. (calls (replicate n cpu) d).core_type) (kept cpu t k (ground arith))
        ∙ settles n cpu t (k + 1) (omega arith) (ground arith)
  ]

  -- A thread that has moved to another CPU and stays there knows the kind of its core after eleven
  -- calls of is_big_core, or more, whatever it knew before and however often it had asked.
  pub calls-core_type :
      (n cpu : ℕ) (c : Core)
      → lazy_check_threshold < n
      → (calls (replicate n cpu) c).core_type ≡ some (judge_big_core cpu)
  unfolding is_big_core
  calls-core_type zero cpu c enough = absurd (omega arith)
  calls-core_type (suc n) cpu c enough = elim (Option-cases c.core_type) [
    | inl new ↦
        ap (λ o. (calls (replicate (suc n) cpu) (record c { core_type = o })).core_type) new
        ∙ stays n cpu c.lazy_cnt
    | inr (t, old) ↦
        ap (λ o. (calls (replicate (suc n) cpu) (record c { core_type = o })).core_type) old
        ∙ settles (suc n) cpu t c.lazy_cnt (omega arith) (omega arith)
  ]

  keeps :
      (cpus : List ℕ) (t k : ℕ)
      → k + length cpus ≤ lazy_check_threshold
      → (calls cpus (known t k)).core_type ≡ some t
  keeps [] t k few = refl
  keeps (cpu ∷ cpus) t k few =
      ap (λ d. (calls cpus d).core_type) (kept cpu t k (omega arith))
      ∙ keeps cpus t (k + 1) (omega arith)

  -- What update_core_type has stored is what up to ten further calls of is_big_core keep, on
  -- whatever CPUs they are: the number of its CPU modulo 4, not the kind of its core.
  pub update_core_type-calls :
      (cpu : ℕ) (cpus : List ℕ) (c : Core)
      → length cpus ≤ lazy_check_threshold
      → (calls cpus (update_core_type cpu c).1).core_type ≡ some (cpu % 4)
  unfolding update_core_type
  update_core_type-calls cpu cpus c few = keeps cpus (cpu % 4) 0 (omega arith)

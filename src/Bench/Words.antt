-- ===== src/Bench/Words.antt =====
-- What `access_variables` of litl/bench/bench_block.c does to its area.
use htll.Common.{
  ℕ, zero, suc, ◌+◌, ◌*◌, ◌%◌, ◌≡◌, ◌≢◌, ◌≤◌, ◌<◌, refl, arith, ◌∙◌, List, some, get_elem?, set,
  length, ok, u64, get_elem?-some, get_elem?-set_self, get_elem?-set_ne, length-set, Bool-cases,
  inl, inr, ==_iff, ◌==◌, sym, subst,
}
use htll.Bench.Request.{access_from, access_variables}

-- The area behind one pass of the loop, and what it was at word 7.
pass : ℕ → ℕ → List ℕ → List ℕ
pass i x area = set (set area (8 * i + 2) (u64 (x + 1))) (8 * i + 7) (u64 (u64 (x + 1) + 1))

length-pass : (i x : ℕ) (area : List ℕ) → length (pass i x area) ≡ length area
unfolding pass
length-pass i x area =
    length-set (set area (8 * i + 2) (u64 (x + 1))) (8 * i + 7) (u64 (u64 (x + 1) + 1))
    ∙ length-set area (8 * i + 2) (u64 (x + 1))

pass_last :
    (i x : ℕ) (area : List ℕ)
    → 8 * i + 7 < length area
    → get_elem? (pass i x area) (8 * i + 7) ≡ some (u64 (x + 2))
unfolding pass
pass_last i x area room =
    get_elem?-set_self (set area (8 * i + 2) (u64 (x + 1))) (8 * i + 7) (u64 (u64 (x + 1) + 1))
      (omega (arith, length-set area (8 * i + 2) (u64 (x + 1))))
    ∙ (let same : u64 (u64 (x + 1) + 1) ≡ u64 (x + 2) = omega arith in rw same)

pass_copy :
    (i x : ℕ) (area : List ℕ)
    → 8 * i + 7 < length area
    → get_elem? (pass i x area) (8 * i + 2) ≡ some (u64 (x + 1))
unfolding pass
pass_copy i x area room =
    get_elem?-set_ne (set area (8 * i + 2) (u64 (x + 1))) (8 * i + 7) (8 * i + 2)
      (u64 (u64 (x + 1) + 1)) (omega arith)
    ∙ get_elem?-set_self area (8 * i + 2) (u64 (x + 1)) (omega arith)

pass_other :
    (i x j : ℕ) (area : List ℕ)
    → j ≢ 8 * i + 2
    → j ≢ 8 * i + 7
    → get_elem? (pass i x area) j ≡ get_elem? area j
unfolding pass
pass_other i x j area two seven =
    get_elem?-set_ne (set area (8 * i + 2) (u64 (x + 1))) (8 * i + 7) j (u64 (u64 (x + 1) + 1))
      (λ e. seven (sym e))
    ∙ get_elem?-set_ne area (8 * i + 2) j (u64 (x + 1)) (λ e. two (sym e))

pass_runs :
    (i left x : ℕ) (area : List ℕ)
    → 8 * i + 7 < length area
    → get_elem? area (8 * i + 7) ≡ some x
    → access_from i (suc left) area ≡ access_from (i + 1) left (pass i x area)
unfolding access_from pass
pass_runs i left x area room found = ground (
  arith,
  length-set area (8 * i + 2) (u64 (x + 1)),
  get_elem?-set_self area (8 * i + 2) (u64 (x + 1)),
)

-- The variables from `i` on have been updated, and nothing else.
pub record Updated (i number : ℕ) (area after : List ℕ) : Type 0 where
  pub same_length : length after ≡ length area
  pub last :
      (k x : ℕ)
      → i ≤ k
      → k < i + number
      → get_elem? area (8 * k + 7) ≡ some x
      → get_elem? after (8 * k + 7) ≡ some (u64 (x + 2))
  pub copy :
      (k x : ℕ)
      → i ≤ k
      → k < i + number
      → get_elem? area (8 * k + 7) ≡ some x
      → get_elem? after (8 * k + 2) ≡ some (u64 (x + 1))
  pub before : (j : ℕ) → j < 8 * i → get_elem? after j ≡ get_elem? area j
  pub others : (j : ℕ) → j % 8 ≢ 2 → j % 8 ≢ 7 → get_elem? after j ≡ get_elem? area j

access_from-Updated :
    (i left : ℕ) (area : List ℕ)
    → 8 * (i + left) ≤ length area
    → (after : List ℕ) × (access_from i left area ≡ ok after) × Updated i left area after
unfolding access_from
access_from-Updated i zero area room = (
  area,
  refl,
  record {
    same_length = refl;
    last = λ k x le lt found. absurd (omega arith);
    copy = λ k x le lt found. absurd (omega arith);
    before = λ j lt. refl;
    others = λ j two seven. refl;
  },
)
access_from-Updated i (suc left) area room =
    let (x, found) = get_elem?-some area (8 * i + 7) (omega arith) in
    let (after, ran, rest) =
      access_from-Updated (i + 1) left (pass i x area) (omega (arith, length-pass i x area)) in
    (
      after,
      pass_runs i left x area (omega arith) found ∙ ran,
      record {
        same_length = rest.same_length ∙ length-pass i x area;
        last = λ k y le lt e. elim (Bool-cases (i == k)) [
          | inl same ↦
              let here = (==_iff i k).0 same in
              let value : x ≡ y = cc in
              subst (λ z. get_elem? after (8 * z + 7) ≡ some (u64 (y + 2))) here
                (rest.before (8 * i + 7) (omega arith)
                  ∙ pass_last i x area (omega arith)
                  ∙ rw value refl)
          | inr other ↦
              rest.last k y (ground arith) (omega arith)
                (pass_other i x (8 * k + 7) area (ground arith) (ground arith) ∙ e)
        ];
        copy = λ k y le lt e. elim (Bool-cases (i == k)) [
          | inl same ↦
              let here = (==_iff i k).0 same in
              let value : x ≡ y = cc in
              subst (λ z. get_elem? after (8 * z + 2) ≡ some (u64 (y + 1))) here
                (rest.before (8 * i + 2) (omega arith)
                  ∙ pass_copy i x area (omega arith)
                  ∙ rw value refl)
          | inr other ↦
              rest.copy k y (ground arith) (omega arith)
                (pass_other i x (8 * k + 7) area (ground arith) (ground arith) ∙ e)
        ];
        before =
            λ j lt. rest.before j (omega arith) ∙ pass_other i x j area (omega arith) (omega arith);
        others = λ j two seven.
            rest.others j two seven ∙ pass_other i x j area (omega arith) (omega arith);
      },
    )

-- In an area of eight words for each variable, as main allocates it, access_variables stays inside
-- of the area, adds 2 to word 7 of every variable modulo 2^64, leaves in word 2 one less, and
-- changes no other word.
pub access_variables-Updated :
    (area : List ℕ) (number : ℕ)
    → length area ≡ 8 * number
    → (after : List ℕ) × (access_variables area number ≡ ok after) × Updated 0 number area after
unfolding access_variables
access_variables-Updated area number fits = access_from-Updated 0 number area (omega arith)

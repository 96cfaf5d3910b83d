-- ===== src/Cond/Timeout.antt =====
-- The time arithmetic of `htll_cond_timedwait` in litl/src/htll.c (lines 249-261, 270-276): from a
-- deadline to the time that is left.
use htll.Common.{
  ap, ◌==◌, ℕ, zero, suc, ◌+◌, ◌-◌, ◌*◌, ◌<◌, ◌≤◌, ◌≡◌, ◌⊎◌, arith, true, leb, ltb, if◌then◌else◌,
  ℤ, pos, negsuc, is_negative, Bool-cases, inl, inr,
}

-- `struct timespec`, of a deadline, and `struct timeval`, of the clock.
pub record Timespec : Type 0 where
  pub tv_sec : ℕ
  pub tv_nsec : ℕ

pub record Timeval : Type 0 where
  pub tv_sec : ℕ
  pub tv_usec : ℕ

-- a - b
abbrev pub diff : ℕ → ℕ → ℤ
diff a b = if leb b a then pos (a - b) else negsuc (b - a - 1)

-- a + n
abbrev pub add_pos : ℤ → ℕ → ℤ
add_pos (pos m) n = pos (m + n)
add_pos (negsuc m) n = diff n (m + 1)

-- a - 1
abbrev pub pred_ℤ : ℤ → ℤ
pred_ℤ (pos zero) = negsuc 0
pred_ℤ (pos (suc n)) = pos n
pred_ℤ (negsuc n) = negsuc (n + 1)

-- The seconds and nanoseconds of `rt`.
unfoldable pub relative : Timespec → Timeval → ℤ × ℤ
relative ts tv =
    let sec = diff ts.tv_sec tv.tv_sec in
    let nsec = diff ts.tv_nsec (tv.tv_usec * 1000) in
    if is_negative nsec then (pred_ℤ sec, add_pos nsec 1000000000) else (sec, nsec)

-- The nanoseconds of a deadline and of a clock value.
abbrev pub deadline_ns : Timespec → ℕ
deadline_ns ts = ts.tv_sec * 1000000000 + ts.tv_nsec

abbrev pub clock_ns : Timeval → ℕ
clock_ns tv = tv.tv_sec * 1000000000 + tv.tv_usec * 1000

diff_lt : (a b : ℕ) → a < b → diff a b ≡ negsuc (b - a - 1)
diff_lt a b h = ground arith

pred_diff : (a b : ℕ) → b < a → pred_ℤ (diff a b) ≡ pos (a - b - 1)
pred_diff (suc a) b h = rw (diff_suc a b h) (ap pos (omega arith))
  where
    diff_suc : (a b : ℕ) → b < suc a → diff (suc a) b ≡ pos (suc (a - b))
    diff_suc a b h = ground arith
pred_diff zero b h = absurd (omega arith)

diff_self : (a : ℕ) → diff a a ≡ pos 0
diff_self a = ground arith

pred_diff_negative : (a b : ℕ) → a ≤ b → is_negative (pred_ℤ (diff a b)) ≡ true
pred_diff_negative a b h = elim (Bool-cases (a == b)) [
  | inl same ↦ let is_b : a ≡ b = ground arith in rw (is_b, diff_self b)
  | inr other ↦ rw (diff_lt a b (ground arith))
]

borrowed :
    (n u : ℕ) → n < u → u < 1000000000 → add_pos (diff n u) 1000000000 ≡ pos (1000000000 - (u - n))
borrowed n u h k = rw (diff_lt n u h) (ground arith)

diff-is_negative : (n u : ℕ) → n < u → is_negative (diff n u) ≡ true
diff-is_negative n u h = rw (diff_lt n u h)

-- For a deadline and a clock value in range, the seconds are negative exactly if the deadline has
-- passed, and if not, the seconds and nanoseconds make up the difference, with the nanoseconds
-- below 10^9.
pub relative_lem :
    (ts : Timespec) (tv : Timeval)
    → ts.tv_nsec < 1000000000
    → tv.tv_usec < 1000000
    → ((deadline_ns ts < clock_ns tv) × (is_negative (relative ts tv).0 ≡ true))
      ⊎ ((s : ℕ) × (n : ℕ) × (relative ts tv ≡ (pos s, pos n))
          × (n < 1000000000)
          × (s * 1000000000 + n + clock_ns tv ≡ deadline_ns ts))
unfolding relative
relative_lem ts tv hn hu =
    let usec = tv.tv_usec * 1000 in
    elim (Bool-cases (leb usec ts.tv_nsec)) [
      | inl fits ↦ elim (Bool-cases (leb tv.tv_sec ts.tv_sec)) [
        | inl later ↦
            inr (
              ts.tv_sec - tv.tv_sec,
              ts.tv_nsec - usec,
              rw (fits, later),
              ground arith,
              ground arith,
            )
        | inr past ↦ inl (ground arith, rw (fits, past))
      ]
      | inr borrow ↦
          let less : ts.tv_nsec < usec = ground arith in
          elim (Bool-cases (ltb tv.tv_sec ts.tv_sec)) [
            | inl later ↦
                let lt : tv.tv_sec < ts.tv_sec = ground arith in
                inr (
                  ts.tv_sec - tv.tv_sec - 1,
                  1000000000 - (usec - ts.tv_nsec),
                  rw (
                    diff-is_negative ts.tv_nsec usec less,
                    pred_diff ts.tv_sec tv.tv_sec lt,
                    borrowed ts.tv_nsec usec less (omega arith),
                  ),
                  omega arith,
                  omega arith,
                )
            | inr past ↦
                let le : ts.tv_sec ≤ tv.tv_sec = ground arith in
                inl (
                  omega arith,
                  rw (diff-is_negative ts.tv_nsec usec less)
                      (pred_diff_negative ts.tv_sec tv.tv_sec le),
                )
          ]
    ]

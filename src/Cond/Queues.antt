-- ===== src/Cond/Queues.antt =====
-- The threads that signal and broadcast of litl/src/htll.c wake and requeue, with the futex as
-- futex(2) has it: nothing is said of which sleepers a call takes.
use htll.Common.{
  ℕ, ◌+◌, ◌≤◌, ◌<◌, ◌≡◌, ◌≢◌, ◌⊎◌, inl, inr, refl, arith, List, [], ◌∷◌, ◌++◌, length, ◌==◌,
  ==_refl, if◌then◌else◌, update, subst, ap,
}
use htll.Cond.Ops.{Cond, cond_signal, cond_broadcast, Call, futex_wake, futex_requeue, int_max}
use htll.Cond.Signals.{broadcast_bound}

-- The threads asleep on `seq` of the condition variable, and on the word at each address.
pub record Sleepers : Type 0 where
  pub on_seq : List ℕ
  pub on_word : ℕ → List ℕ

-- How often a thread is in a list.
abbrev pub times : ℕ → List ℕ → ℕ
times t [] = 0
times t (x ∷ xs) = if x == t then 1 + times t xs else times t xs

-- `n` threads of `queue` are taken, any of them, or all if there are fewer; the others are left.
pub record Takes (n : ℕ) (queue taken left : List ℕ) : Type 0 where
  pub sizes : length queue ≡ length taken + length left
  pub same : (t : ℕ) → times t queue ≡ times t taken + times t left
  pub most : length taken ≤ n
  pub all : (length taken ≡ n) ⊎ (left ≡ [])

-- FUTEX_WAKE and FUTEX_REQUEUE: the calls may wake the threads `woken` and leave `s'`.
abbrev pub Performs : List Call → Sleepers → List ℕ → Sleepers → Type 0
Performs [] s woken s' = (woken ≡ []) × (s' ≡ s)
Performs (futex_wake n ∷ cs) s woken s' =
    (first rest later : List ℕ) × Takes n s.on_seq first rest
    × Performs cs (record s { on_seq = rest }) later s'
    × (woken ≡ first ++ later)
Performs (futex_requeue n limit m ∷ cs) s woken s' =
    (first rest moved left later : List ℕ) × Takes n s.on_seq first rest
    × Takes limit rest moved left
    × Performs cs (record { on_seq = left; on_word = update s.on_word m (s.on_word m ++ moved) })
        later s'
    × (woken ≡ first ++ later)

times-++ : (t : ℕ) (xs ys : List ℕ) → times t (xs ++ ys) ≡ times t xs + times t ys
times-++ t [] ys = omega arith
times-++ t (x ∷ xs) ys = ground (arith, times-++ t xs ys)

append_nil : (xs : List ℕ) → xs ++ [] ≡ xs
append_nil [] = refl
append_nil (x ∷ xs) = ap (λ ys. x ∷ ys) (append_nil xs)

-- One sleeper on `seq` is woken, and the others sleep on.
abbrev pub WakesOne : Sleepers → List ℕ → Sleepers → Type 0
WakesOne s woken s' =
    (length woken ≡ 1)
    × ((t : ℕ) → times t s.on_seq ≡ times t woken + times t s'.on_seq)
    × ((a : ℕ) → s'.on_word a ≡ s.on_word a)

-- One sleeper on `seq` is woken, and the others sleep on the word at `m` now, beside those that
-- slept there before.
abbrev pub WakesAndMoves : ℕ → Sleepers → List ℕ → Sleepers → Type 0
WakesAndMoves m s woken s' =
    (length woken ≡ 1)
    × (s'.on_seq ≡ [])
    × ((t : ℕ) → times t s.on_seq + times t (s.on_word m) ≡ times t woken + times t (s'.on_word m))
    × ((a : ℕ) → a ≢ m → s'.on_word a ≡ s.on_word a)

Takes-one :
    {queue taken left : List ℕ} → Takes 1 queue taken left → 0 < length queue → length taken ≡ 1
Takes-one {queue} {taken} {left} took some_one = elim took.all [
  | inl one ↦ one
  | inr none_left ↦ omega (arith, took.sizes, took.most, ap length none_left)
]

Takes-all :
    {n : ℕ} {queue taken left : List ℕ} → Takes n queue taken left → length queue ≤ n → left ≡ []
Takes-all {left = []} took fits = refl
Takes-all {left = t ∷ left} took fits = elim took.all [
  | inl full ↦ absurd (omega (arith, took.sizes))
  | inr none_left ↦ none_left
]

futex_wake-WakesOne :
    (s s' : Sleepers) (woken : List ℕ)
    → 0 < length s.on_seq
    → Performs (futex_wake 1 ∷ []) s woken s'
    → WakesOne s woken s'
futex_wake-WakesOne s s' woken some_one (first, rest, later, took, (ended, now), parts) =
    rw (parts, ended, now, append_nil first) (Takes-one took some_one, took.same, λ a. refl)

futex_requeue-WakesAndMoves :
    (m : ℕ) (s s' : Sleepers) (woken : List ℕ)
    → 0 < length s.on_seq
    → length s.on_seq ≤ int_max + 1
    → Performs (futex_requeue 1 int_max m ∷ []) s woken s'
    → WakesAndMoves m s woken s'
futex_requeue-WakesAndMoves m s s' woken some_one fits
      (first, rest, moved, left, later, took, requeued, (ended, now), parts) =
    let one = Takes-one took some_one in
    let gone : left ≡ [] = Takes-all requeued (omega (arith, took.sizes)) in
    rw (parts, ended, now, append_nil first)
      (
        one,
        gone,
        λ t. rw (==_refl m) (
            omega (
              arith,
              took.same t,
              requeued.same t,
              ap (times t) gone,
              times-++ t (s.on_word m) moved,
            )),
        λ a ne. ground arith,
      )

-- On a bound condition variable with at least one sleeper, and at most INT_MAX + 1, whichever
-- threads the calls of the futex take: signal wakes exactly one, and all others sleep on where they
-- slept; broadcast wakes exactly one, too, nobody stays asleep on `seq`, and all others sleep on the
-- word of the lock that the condition variable is bound to, and nothing changes at other addresses.
pub signal-broadcast :
    (c : Cond) (s s₁ s₂ : Sleepers) (woken₁ woken₂ : List ℕ)
    → c.m ≢ 0
    → 0 < length s.on_seq
    → length s.on_seq ≤ int_max + 1
    → Performs (cond_signal c).1 s woken₁ s₁
    → Performs (cond_broadcast c).1 s woken₂ s₂
    → WakesOne s woken₁ s₁ × WakesAndMoves c.m s woken₂ s₂
unfolding cond_signal
signal-broadcast c s s₁ s₂ woken₁ woken₂ bound some_one fits signalled sent = (
  futex_wake-WakesOne s s₁ woken₁ some_one signalled,
  futex_requeue-WakesAndMoves c.m s s₂ woken₂ some_one fits
      (subst (λ (r : Cond × List Call). Performs r.1 s woken₂ s₂) (broadcast_bound c bound) sent),
)

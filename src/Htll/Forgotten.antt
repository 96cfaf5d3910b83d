-- ===== src/Htll/Forgotten.antt =====
-- A sleeper that is forgotten: litl/src/htll.c returns to the exchange of the byte (line 68) from
-- its timed wait, and so takes the lock without the mark that others still sleep.
use htll.Common.{ℕ, ◌≤◌, ◌≡◌, ◌≢◌, refl, arith, List, ◌∷◌, ◌++◌}
use htll.Htll.Mutex.{mutex_create}
use htll.Htll.System.{System, Reach}
use htll.Htll.Spin.{cycles_over}
use htll.Htll.Thread.{Pc, idle, napping, wake, asleep}
use htll.Htll.Wakeups.{sleeps}
use htll.Htll.Schedule.{play, Event, go, rouse, alice, bob, carol, out, inside, late, steps}
use htll.Common.{true, none, subst, Bool-cases, inl, inr, ◌==◌, ==_iff}
use htll.Htll.Prompt.{Prompt, runs, wakes, wakes_none, times_out, Prompts, done, next}

-- Bob waits inside of a segment, then Carol waits outside of all, both for Alice's lock.
abbrev both_wait : List Event
both_wait =
    steps 2 (go alice out)
    ++ steps 2 (go bob inside)
    ++ go bob late ∷ steps 2 (go bob inside)
    ++ steps 2 (go carol out)
    ++ go carol late ∷ steps 3 (go carol out)

-- Alice unlocks and wakes Bob, who locks and unlocks.
abbrev forget : List Event
forget = both_wait ++ steps 9 (go alice out) ++ rouse alice bob ∷ steps 4 (go bob out)

-- With threads that lock inside of a segment beside threads that lock outside, a sleeper can be
-- forgotten: for any number of threads from three on, a state is reachable in which the lock is
-- free, one thread sleeps in the wait without a timeout, and all others are idle.
pub forgotten_sleeper :
    (n : ℕ)
    → 3 ≤ n
    → (s : System) × Reach n true s
      × (sleeps (s.pc 2) ≡ 1)
      × (s.mem.u ≡ 0)
      × ((i : ℕ) → i ≢ 2 → s.pc i ≡ idle)
unfolding play cycles_over mutex_create
forgotten_sleeper n few =
    let r = play few forget in (r.last, r.reach, refl, refl, λ i ne. ground arith)

no_sleep : (p : Pc) → sleeps p ≡ 1 → asleep p ≢ none
no_sleep p down e = ground arith

not_waking :
    (s : System) → sleeps (s.pc 2) ≡ 1 → ((i : ℕ) → i ≢ 2 → s.pc i ≡ idle) → (i : ℕ) → s.pc i ≢ wake
not_waking s down others i at = elim (Bool-cases (i == 2)) [
  | inl two ↦ absurd (ground (arith, subst (λ k. s.pc k ≡ wake) ((==_iff i 2).0 two) at))
  | inr other ↦ absurd (ground (arith, others i (ground arith)))
]

-- Where thread 2 sleeps and all others are idle, nothing happens any more.
rests :
    {n : ℕ} {s t : System}
    → sleeps (s.pc 2) ≡ 1
    → ((i : ℕ) → i ≢ 2 → s.pc i ≡ idle)
    → Prompt n s t
    → ⊥
rests {s = s} down others (runs x i lt ni ne awake out) = elim (Bool-cases (i == 2)) [
  | inl two ↦
      absurd
        (no_sleep (s.pc 2) down (subst (λ k. asleep (s.pc k) ≡ none) ((==_iff i 2).0 two) awake))
  | inr other ↦ absurd (ni (others i (ground arith)))
]
rests {s = s} down others (wakes i j li lj at a) = not_waking s down others i at
rests {s = s} down others (wakes_none i lt at quiet) = not_waking s down others i at
rests {s = s} down others (times_out i {l} lt at) = elim (Bool-cases (i == 2)) [
  | inl two ↦ absurd (ground (arith, subst (λ k. s.pc k ≡ napping l) ((==_iff i 2).0 two) at))
  | inr other ↦ absurd (ground (arith, others i (ground arith)))
]

-- The sleeper is forgotten for good: in that state, as long as no new call is begun and none returns
-- from the untimed wait but by a wake-up, the lock stays free, the thread sleeps on, and nothing else happens.
pub forgotten_for_good :
    (n : ℕ)
    → 3 ≤ n
    → (s : System) × Reach n true s
      × (sleeps (s.pc 2) ≡ 1)
      × (s.mem.u ≡ 0)
      × ((t : System) → Prompts n s t → t ≡ s)
forgotten_for_good n few =
    let (s, reach, down, free, others) = forgotten_sleeper n few in
    (s, reach, down, free, λ t steps. stays s t down others steps)
  where
    stays :
        (s t : System)
        → sleeps (s.pc 2) ≡ 1
        → ((i : ℕ) → i ≢ 2 → s.pc i ≡ idle)
        → Prompts n s t
        → t ≡ s
    stays s t down others done = refl
    stays s t down others (next step steps) = absurd (rests down others step)

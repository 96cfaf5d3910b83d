-- ===== src/Htll/Schedule.antt =====
-- Reachable states by evaluation: run three of the threads in a given order.
use htll.Common.{
  ℕ, zero, suc, ◌≤◌, ◌<◌, ◌≡◌, ◌≢◌, refl, Bool, true, false, ◌||◌, arith, List, [], ◌∷◌, Bool-cases,
  Option-cases, inl, inr,
}
use mathlib.Core.List.{foldl}
use htll.Htll.Thread.{Pc, wake, Input, move, asleep}
use htll.Htll.System.{System, run, wake_one, init, Reach, start, later}

abbrev pub is_wake : Pc → Bool
is_wake wake = true
is_wake _ = false

pub not_wake : (p : Pc) → is_wake p ≡ false → p ≢ wake
not_wake p e q = ground arith

pub at_wake : (p : Pc) → is_wake p ≡ true → p ≡ wake
at_wake wake e = refl
at_wake _ e = cc

-- A system state with the proof that it can be reached.
pub record Run (n : ℕ) (r : Bool) : Type 0 where
  pub last : System
  pub open last use *
  pub reach : Reach n r last

-- Threads 0, 1 and 2.
pub data Name : Type 0 where
  alice bob carol : Name

abbrev pub index : Name → ℕ
index alice = 0
index bob = 1
index carol = 2

pub data Event : Type 0 where
  go : Name → Input → Event  -- a move of its own
  rouse : Name → Name → Event  -- a wake-up, by the first of the second

pub index-lt : {n : ℕ} → 3 ≤ n → (a : Name) → index a < n
index-lt h a = ground arith

module _ {n : ℕ} {r : Bool} (few : 3 ≤ n) where
  -- An event that is not possible changes nothing.
  go_on : Run n r → Name → Input → Run n r
  unfolding move
  go_on s a x = elim (Bool-cases (is_wake (s.pc (index a)))) [
    | inl _ ↦ s
    | inr ne ↦ elim (Bool-cases (x.outside || r)) [
      | inr _ ↦ s
      | inl allowed ↦ record {
        last = _;
        reach = later s.reach (run x (index a) (index-lt few a) (not_wake _ ne) allowed);
      }
    ]
  ]

  wake_up : Run n r → Name → Name → Run n r
  wake_up s a b = elim (Bool-cases (is_wake (s.pc (index a)))) [
    | inr _ ↦ s
    | inl at ↦ elim (Option-cases (asleep (s.pc (index b)))) [
      | inl _ ↦ s
      | inr (q, e) ↦ record {
        last = _;
        reach =
            later s.reach
              (wake_one (index a) (index b) (index-lt few a) (index-lt few b) (at_wake _ at) e);
      }
    ]
  ]

  turn : Run n r → Event → Run n r
  unfolding go_on wake_up
  turn s (go a x) = go_on s a x
  turn s (rouse a b) = wake_up s a b

  unfoldable pub play : List Event → Run n r
  unfolding turn
  play = foldl turn (record { last = init; reach = start })

-- A move of a thread outside of all segments, and of one inside.
abbrev pub out : Input
out = record { try = false; outside = true; now = 0 }

abbrev pub inside : Input
inside = record { try = false; outside = false; now = 0 }

-- The same at a later time, when the spin is over.
abbrev pub late : Input
late = record { try = false; outside = true; now = 9000 }

abbrev pub steps : ℕ → Event → List Event
steps zero e = []
steps (suc k) e = e ∷ steps k e

-- ===== src/Waiting/Handoff.antt =====
-- One sleeper and one waker over the variable of litl/src/waiting_policy.h, in any interleaving.
use htll.Common.{◌≡◌, ◌≢◌, refl, sym, arith, Bool, true, false, ◌&&◌, List, [], ◌∷◌}
use htll.Waiting.Policy.{
  Policy, spinlock, spinlock_atomic, spin_then_park, park, Shared, Sleeper, spin, call, parked,
  linger, awake, Waker, wake, done, failed, start_sleep, start_wake, sleep_move, wake_move, woken,
}

pub record Pair : Type 0 where
  pub mem : Shared
  pub sleeper : Sleeper
  pub waker : Waker

pub data Step (p : Policy) (s : Pair) : Pair → Type 0 where
  sleeps :
      (r : Bool)
      → Step p s (record {
        mem = (sleep_move p r s.mem s.sleeper).0;
        sleeper = (sleep_move p r s.mem s.sleeper).1;
        waker = s.waker;
      })
  wakes :
      s.waker ≢ wake
      → Step p s (record {
        mem = (wake_move p s.mem s.waker).0;
        sleeper = s.sleeper;
        waker = (wake_move p s.mem s.waker).1;
      })
  -- FUTEX_WAKE wakes the sleeper if it sleeps.
  hit :
      s.waker ≡ wake
      → s.sleeper ≡ parked
      → Step p s (record { mem = s.mem; sleeper = woken p; waker = done })
  miss :
      s.waker ≡ wake
      → s.sleeper ≢ parked
      → Step p s (record { mem = s.mem; sleeper = s.sleeper; waker = done })

-- The variable is LOCKED, and both are at their starts.
abbrev pub init : Policy → Pair
init p = record {
  mem = record { var = 0; spin_cnt = 0; park_cnt = 0; wake_cnt = 0 };
  sleeper = start_sleep p;
  waker = start_wake p;
}

pub data Reach (p : Policy) : Pair → Type 0 where
  start : Reach p (init p)
  later : {s t : Pair} → Reach p s → Step p s t → Reach p t

-- The waker has set the variable.
abbrev pub stored : Waker → Bool
stored wake = true
stored done = true
stored _ = false

abbrev pub is_awake : Sleeper → Bool
is_awake awake = true
is_awake _ = false

abbrev pub is_parked : Sleeper → Bool
is_parked parked = true
is_parked _ = false

abbrev pub is_done : Waker → Bool
is_done done = true
is_done _ = false

abbrev pub is_failed : Waker → Bool
is_failed failed = true
is_failed _ = false

-- The points that a policy has.
abbrev pub fits : Policy → Sleeper → Bool
fits _ awake = true
fits spinlock (spin _) = true
fits spinlock_atomic (spin _) = true
fits spin_then_park _ = true
fits park call = true
fits park parked = true
fits park linger = true
fits _ _ = false

abbrev pub atomic : Policy → Bool
atomic spinlock_atomic = true
atomic _ = false

pub record Inv (p : Policy) (s : Pair) : Type 0 where
  pub early : stored s.waker ≡ false → (s.mem.var ≡ 0) × (is_awake s.sleeper ≡ false)
  pub set : stored s.waker ≡ true → is_awake s.sleeper && atomic p ≡ false → s.mem.var ≡ 1
  pub no_sleep : is_done s.waker ≡ true → is_parked s.sleeper ≡ false
  pub no_failure : is_failed s.waker ≡ false
  pub point : fits p s.sleeper ≡ true

init-Inv : (p : Policy) → Inv p (init p)
init-Inv p = record {
  early = λ e. ground arith;
  set = λ e f. ground arith;
  no_sleep = λ e. ground arith;
  no_failure = ground arith;
  point = ground arith;
}

abbrev pair : Shared → Sleeper → Waker → Pair
pair m q w = record { mem = m; sleeper = q; waker = w }

sleeps-Inv :
    (p : Policy) (r : Bool) (m : Shared) (q : Sleeper) (w : Waker)
    → Inv p (pair m q w)
    → Inv p (pair (sleep_move p r m q).0 (sleep_move p r m q).1 w)
unfolding sleep_move
sleeps-Inv p r m q w inv = record {
  early = λ e. ground (arith, inv.early, inv.set, inv.no_sleep, inv.no_failure, inv.point);
  set = λ e f. ground (arith, inv.early, inv.set, inv.no_sleep, inv.no_failure, inv.point);
  no_sleep = λ e. ground (arith, inv.early, inv.set, inv.no_sleep, inv.no_failure, inv.point);
  no_failure = ground (arith, inv.early, inv.set, inv.no_sleep, inv.no_failure, inv.point);
  point = ground (arith, inv.early, inv.set, inv.no_sleep, inv.no_failure, inv.point);
}

wakes-Inv :
    (p : Policy) (m : Shared) (q : Sleeper) (w : Waker)
    → w ≢ wake
    → Inv p (pair m q w)
    → Inv p (pair (wake_move p m w).0 q (wake_move p m w).1)
unfolding wake_move
wakes-Inv p m q w ne inv = record {
  early = λ e. ground (arith, inv.early, inv.set, inv.no_sleep, inv.no_failure, inv.point);
  set = λ e f. ground (arith, inv.early, inv.set, inv.no_sleep, inv.no_failure, inv.point);
  no_sleep = λ e. ground (arith, inv.early, inv.set, inv.no_sleep, inv.no_failure, inv.point);
  no_failure = ground (arith, inv.early, inv.set, inv.no_sleep, inv.no_failure, inv.point);
  point = ground (arith, inv.early, inv.set, inv.no_sleep, inv.no_failure, inv.point);
}

woken-point : (p : Policy) → is_parked (woken p) ≡ false
woken-point p = ground arith

woken-fits : (p : Policy) → fits p parked ≡ true → fits p (woken p) ≡ true
woken-fits p h = ground arith

Step-Inv : (p : Policy) {s t : Pair} → Step p s t → Inv p s → Inv p t
Step-Inv p {s} (sleeps r) inv = sleeps-Inv p r s.mem s.sleeper s.waker inv
Step-Inv p {s} (wakes ne) inv = wakes-Inv p s.mem s.sleeper s.waker ne inv
Step-Inv p {s} (hit e f) inv = record {
  early = λ g. absurd cc;
  set = λ g h. inv.set (rw e refl) (rw f refl);
  no_sleep = λ g. woken-point p;
  no_failure = refl;
  point = woken-fits p (rw (sym f) inv.point);
}
Step-Inv p {s} (miss e f) inv = record {
  early = λ g. absurd cc;
  set = λ g h. inv.set (rw e refl) h;
  no_sleep = λ g. ground (arith, f);
  no_failure = refl;
  point = inv.point;
}

pub Reach-Inv : (p : Policy) {s : Pair} → Reach p s → Inv p s
Reach-Inv p start = init-Inv p
Reach-Inv p (later r st) = Step-Inv p st (Reach-Inv p r)

-- The moves of a sleeper that no other thread disturbs, with what interrupts them.
abbrev pub sleep_on : Policy → List Bool → Shared → Sleeper → Sleeper
sleep_on p [] m q = q
sleep_on p (r ∷ rs) m q = sleep_on p rs (sleep_move p r m q).0 (sleep_move p r m q).1

-- With the variable set, a sleeper that does not sleep returns within three moves.
returns_awake :
    (p : Policy) (a b c : Bool) (m : Shared) (q : Sleeper)
    → fits p q ≡ true
    → is_parked q ≡ false
    → (is_awake q && atomic p ≡ false → m.var ≡ 1)
    → sleep_on p (a ∷ b ∷ c ∷ []) m q ≡ awake
unfolding sleep_move
returns_awake p a b c m q fit up set = ground (arith, set)

-- When the wake-up has returned, the sleeper is not asleep, and returns within three moves of its
-- own, whatever interrupts it: for each policy and in every interleaving.
pub handoff :
    (p : Policy) {s : Pair} (a b c : Bool)
    → Reach p s
    → s.waker ≡ done
    → (s.sleeper ≢ parked) × (sleep_on p (a ∷ b ∷ c ∷ []) s.mem s.sleeper ≡ awake)
handoff p {s} a b c reach e =
    let inv = Reach-Inv p reach in
    (
      λ f. ground (arith, inv.no_sleep),
      returns_awake p a b c s.mem s.sleeper inv.point (inv.no_sleep (rw e refl))
          (inv.set (rw e refl)),
    )

-- A sleep has not returned before the waker has set the variable, and the assertion of the atomic
-- policy holds: for each policy and in every interleaving.
pub sleep_waits :
    (p : Policy) {s : Pair}
    → Reach p s
    → s.sleeper ≡ awake
    → (stored s.waker ≡ true) × (s.waker ≢ failed)
sleep_waits p {s} reach e =
    let inv = Reach-Inv p reach in (ground (arith, inv.early), λ f. ground (arith, inv.no_failure))

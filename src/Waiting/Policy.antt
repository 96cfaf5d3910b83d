-- ===== src/Waiting/Policy.antt =====
-- `waiting_policy_sleep` and `waiting_policy_wake` of litl/src/waiting_policy.h, one access to the
-- shared variables at a time, for each of the policies that the file can be compiled with.
use htll.Common.{ℕ, ◌+◌, Bool, ltb, ◌==◌, not, ◌&&◌, if◌then◌else◌}

pub data Policy : Type 0 where
  spinlock spinlock_atomic spin_then_park park : Policy

abbrev pub spinning_threshold : ℕ
spinning_threshold = 4000

-- LOCKED and UNLOCKED
abbrev pub locked : ℕ
locked = 0

abbrev pub unlocked : ℕ
unlocked = 1

-- `*var` and the counters.
pub record Shared : Type 0 where
  pub var : ℕ
  pub spin_cnt : ℕ
  pub park_cnt : ℕ
  pub wake_cnt : ℕ

-- Where a sleeper stands.
pub data Sleeper : Type 0 where
  spin : (i : ℕ) → Sleeper  -- lines 79, 89 or 105
  look : Sleeper  -- line 110
  call : Sleeper  -- the call of the futex, line 121 or 169
  parked : Sleeper  -- asleep in it
  settle : Sleeper  -- line 148
  linger : Sleeper  -- the last loop, line 149 or 191
  awake : Sleeper  -- returned

-- Where a waker stands.
pub data Waker : Type 0 where
  peek : Waker  -- line 155
  store : Waker  -- line 84, 94, 158 or 196
  wake : Waker  -- the call of FUTEX_WAKE
  done : Waker  -- returned
  failed : Waker  -- the assertion of line 95 has failed

abbrev pub start_sleep : Policy → Sleeper
start_sleep park = call
start_sleep _ = spin 0

abbrev pub start_wake : Policy → Waker
start_wake spin_then_park = peek
start_wake _ = store

-- Line 106: on to line 110 at the threshold, or when the variable is set.
abbrev pub spin_on : ℕ → ℕ → Sleeper
spin_on i var = if ltb i spinning_threshold && not (var == unlocked) then spin (i + 1) else look

-- One move of a sleeper. At `parked` it has returned from the futex without a wake-up: with EINTR
-- if `interrupted`, else with 0.
unfoldable pub sleep_move : Policy → (interrupted : Bool) → Shared → Sleeper → Shared × Sleeper
sleep_move spinlock r s (spin i) = (s, if s.var == locked then spin i else awake)
sleep_move spinlock_atomic r s (spin i) =
    if s.var == unlocked then (record s { var = locked }, awake) else (s, spin i)
sleep_move spin_then_park r s (spin i) = (s, spin_on i s.var)
sleep_move spin_then_park r s look =
    if s.var == unlocked then (record s { spin_cnt = s.spin_cnt + 1 }, awake) else (s, call)
sleep_move spin_then_park r s call =
    if s.var == locked then (s, parked) else (record s { spin_cnt = s.spin_cnt + 1 }, settle)
sleep_move spin_then_park r s parked =
    if r then (record s { park_cnt = s.park_cnt + 1 }, call) else (s, settle)
sleep_move spin_then_park r s settle = (record s { park_cnt = s.park_cnt + 1 }, linger)
sleep_move spin_then_park r s linger = (s, if s.var == unlocked then awake else linger)
sleep_move park r s call = (s, if s.var == locked then parked else linger)
sleep_move park r s parked = (s, if r then call else linger)
sleep_move park r s linger = (s, if s.var == unlocked then awake else linger)
sleep_move p r s q = (s, q)

-- One move of a waker. The call of FUTEX_WAKE acts on the sleeper, see `Handoff`.
unfoldable pub wake_move : Policy → Shared → Waker → Shared × Waker
wake_move spinlock s store = (record s { var = unlocked }, done)
wake_move spinlock_atomic s store =
    if s.var == locked then (record s { var = unlocked }, done) else (s, failed)
wake_move spin_then_park s peek =
    (if s.var == 0 then record s { wake_cnt = s.wake_cnt + 1 } else s, store)
wake_move _ s store = (record s { var = 1 }, wake)
wake_move _ s w = (s, w)

-- Where a sleeper goes on that FUTEX_WAKE has woken.
abbrev pub woken : Policy → Sleeper
woken spin_then_park = settle
woken _ = linger

-- ===== src/Tests/Handoffs.antt =====
-- litl/src/waiting_policy.h in concrete runs.
use htll.Common.{◌≡◌, ◌≢◌, refl, true, false, [], ◌∷◌}
use htll.Waiting.Policy.{park, awake, linger, parked, done, failed, sleep_move, wake_move}
use htll.Waiting.Handoff.{
  Pair, sleeps, wakes, hit, Reach, start, later, stored, sleep_on, handoff, sleep_waits,
}

-- The sleeper goes to sleep, the waker sets the variable, and wakes it.
abbrev woken_up : Pair
woken_up = record {
  mem = record { var = 1; spin_cnt = 0; park_cnt = 0; wake_cnt = 0 };
  sleeper = linger;
  waker = done;
}

woken_up-Reach : Reach park woken_up
unfolding sleep_move wake_move
woken_up-Reach = later (later (later start (sleeps true)) (wakes (λ e. cc))) (hit refl refl)

handoff_example :
    (woken_up.sleeper ≢ parked)
    × (sleep_on park (false ∷ false ∷ false ∷ []) woken_up.mem woken_up.sleeper ≡ awake)
handoff_example = handoff park false false false woken_up-Reach refl

-- It has seen the variable.
abbrev awoken : Pair
awoken = record {
  mem = record { var = 1; spin_cnt = 0; park_cnt = 0; wake_cnt = 0 };
  sleeper = awake;
  waker = done;
}

awoken-Reach : Reach park awoken
unfolding sleep_move
awoken-Reach = later woken_up-Reach (sleeps false)

sleep_waits_example : (stored awoken.waker ≡ true) × (awoken.waker ≢ failed)
sleep_waits_example = sleep_waits park awoken-Reach refl

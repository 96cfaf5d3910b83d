-- ===== src/Htll/Counters.antt =====
-- The self-tuning of the spin: the counters of `htll_mutex_unlock` and `adjust_spin_ticks`
-- (litl/src/htll.c, lines 99-106 and 114-117).
use htll.Common.{◌∙◌, ℕ, zero, suc, ◌+◌, ◌-◌, ◌*◌, ◌%◌, ◌^◌, ◌<◌, ◌≡◌, refl, true, arith, sub_u64}
use htll.Htll.Constants.{decrease_unit, wake_min_threshold}
use htll.Htll.Mutex.{Mutex, adjust_spin_ticks, count_unlock}
use htll.Htll.Spin.{cycles_over}

-- `k` contended unlocks, with no wake-up between them.
pub unlocks : ℕ → Mutex → Mutex
unlocks zero m = m
unlocks (suc k) m = unlocks k (count_unlock m)

-- Up to the next multiple of 2048 the counter only counts.
unlocks_between :
    (k : ℕ) (m : Mutex)
    → m.cnt_unlock + k < 2 ^ 32
    → m.cnt_unlock % 2048 + k < 2048
    → unlocks k m ≡ record m { cnt_unlock = m.cnt_unlock + k }
unfolding unlocks count_unlock
unlocks_between zero m small room = ground arith
unlocks_between (suc k) m small room = ground (
  arith,
  unlocks_between k (record m { cnt_unlock = m.cnt_unlock + 1 }) (omega arith) (omega arith),
)

unlocks-suc : (k : ℕ) (m : Mutex) → unlocks (suc k) m ≡ count_unlock (unlocks k m)
unfolding unlocks
unlocks-suc zero m = refl
unlocks-suc (suc k) m = unlocks-suc k (count_unlock m)

count_unlock_due :
    (m : Mutex)
    → m.cnt_unlock + 2048 < 2 ^ 32
    → m.cnt_unlock % 2048 ≡ 0
    → count_unlock (record m { cnt_unlock = m.cnt_unlock + 2047 })
      ≡ adjust_spin_ticks (record m { cnt_unlock = m.cnt_unlock + 2048 })
unfolding count_unlock
count_unlock_due m small even = ground arith

-- The spin is adjusted exactly once in 2048 contended unlocks, at the last of them: of the counts
-- from a multiple of 2048 on, the first 2047 leave the spin and the wake counter alone.
pub unlocks_period :
    (m : Mutex)
    → m.cnt_unlock + 2048 < 2 ^ 32
    → m.cnt_unlock % 2048 ≡ 0
    → (unlocks 2047 m ≡ record m { cnt_unlock = m.cnt_unlock + 2047 })
      × (unlocks 2048 m ≡ adjust_spin_ticks (record m { cnt_unlock = m.cnt_unlock + 2048 }))
unlocks_period m small even =
    let most = unlocks_between 2047 m (omega arith) (omega arith) in
    (most, unlocks-suc 2047 m ∙ rw most (count_unlock_due m small even))

-- Adjustments with no wake-up between them.
unfoldable pub adjustments : ℕ → Mutex → Mutex
adjustments zero m = m
adjustments (suc k) m = adjustments k (adjust_spin_ticks m)

-- Each of them takes 256 from the spin, with no lower bound: the unsigned counter wraps.
pub adjustments-ticks_spin :
    (k : ℕ) (m : Mutex)
    → m.cnt_wake ≡ 0
    → m.ticks_spin < 2 ^ 32
    → (adjustments k m).ticks_spin ≡ (m.ticks_spin + k * (2 ^ 32 - decrease_unit)) % 2 ^ 32
unfolding adjustments adjust_spin_ticks
adjustments-ticks_spin zero m quiet small = omega arith
adjustments-ticks_spin (suc k) m quiet small =
    ground (arith, adjustments-ticks_spin k (adjust_spin_ticks m))

-- Below 256 ticks the next adjustment with few wake-ups makes the spin practically endless: its
-- loop then ends only after more than 2 ^ 64 - 257 cycles.
pub adjust_underflow :
    (m : Mutex) (s e : ℕ)
    → m.ticks_spin < decrease_unit
    → m.cnt_wake < wake_min_threshold
    → cycles_over (adjust_spin_ticks m).ticks_spin s e ≡ true
    → 2 ^ 64 - 257 < sub_u64 e s
unfolding adjust_spin_ticks cycles_over
adjust_underflow m s e low few over = ground arith

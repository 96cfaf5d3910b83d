-- ===== src/Cores/Lazy.antt =====
-- `is_big_core` and `update_core_type` of litl/src/utils.c, built with ENABLE_LAZY_CHECK as
-- litl/src/utils.h has it.
use htll.Common.{ℕ, ◌+◌, ◌%◌, Option, none, some, leb, if◌then◌else◌}

abbrev pub lazy_check_threshold : ℕ
lazy_check_threshold = 10

-- The thread-local variables: `core_type`, none for -1, and `lazy_cnt`.
pub record Core : Type 0 where
  pub core_type : Option ℕ
  pub lazy_cnt : ℕ

abbrev pub unknown : Core
unknown = record { core_type = none; lazy_cnt = 0 }

-- `judge_big_core` is in the header that the build generates from litl/include/topology.in, and is
-- a parameter. `cpu` is what `sched_getcpu` returns at a call.
module _ (judge_big_core : ℕ → ℕ) where
  abbrev pub fresh : ℕ → ℕ → ℕ × Core
  fresh cpu lazy =
      (judge_big_core cpu, record { core_type = some (judge_big_core cpu); lazy_cnt = lazy })

  unfoldable pub is_big_core : ℕ → Core → ℕ × Core
  is_big_core cpu c = elim (c.core_type) [
    | none ↦ fresh cpu c.lazy_cnt
    | some t ↦
        if leb lazy_check_threshold c.lazy_cnt
        then fresh cpu 0
        else (t, record c { lazy_cnt = c.lazy_cnt + 1 })
  ]

-- The modulus is in the source; it does not ask `judge_big_core`.
unfoldable pub update_core_type : ℕ → Core → ℕ × Core
update_core_type cpu c = (cpu % 4, record { core_type = some (cpu % 4); lazy_cnt = 0 })

-- ===== src/Tests/Cpus.antt =====
-- The core types of litl/src/utils.c at concrete CPUs, with the judgement of
-- litl/include/topology.in.
use htll.Common.{ℕ, ◌≡◌, arith, some, [], ◌∷◌, ltb, if◌then◌else◌, replicate}
use htll.Cores.Lazy.{Core, update_core_type}
use htll.Cores.Settled.{calls, calls-core_type, update_core_type-calls}

abbrev judge : ℕ → ℕ
judge cpu = if ltb cpu 16 then 1 else 0

abbrev little : Core
little = record { core_type = some 0; lazy_cnt = 3 }

settled_calls : (calls judge (replicate 11 5) little).core_type ≡ some 1
settled_calls = calls-core_type judge 11 5 little (omega arith)

-- CPU 4 is a big core, and is taken for a little one.
updated_calls : (calls judge (4 ∷ 4 ∷ []) (update_core_type 4 little).1).core_type ≡ some 0
updated_calls = update_core_type-calls judge 4 (4 ∷ 4 ∷ []) little (omega arith)

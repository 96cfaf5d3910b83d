-- ===== src/Interpose/Initial.antt =====
-- The table of litl/src/interpose.c before its first use.
use htll.Common.{arith}
use htll.Interpose.Table.{empty_table}
use htll.Interpose.Buckets.{empty_table-AllPacked, empty_table_missing}
use htll.Interpose.World
use htll.Interpose.World.{LockOps}
use htll.Interpose.Routing.{IsWorld}

module _ (ops : LockOps) where
  open ops use {mutex_create}

  abbrev W : Type 0
  W = World.World ops

  -- The world that `interpose_init` leaves: no mutex has a lock.
  unfoldable pub started : W
  started = record { table = empty_table; locks = λ _. mutex_create; next = 1 }

  pub started-IsWorld : IsWorld ops started
  unfolding started
  started-IsWorld = record {
    packed = empty_table-AllPacked;
    not_null = omega arith;
    below = λ q p nq e. ground (arith, empty_table_missing q);
    written = λ q nq e. ground (arith, empty_table_missing q);
    apart = λ q r p nq nr e f. ground (arith, empty_table_missing q);
  }

-- ===== src/Interpose/Full.antt =====
-- The end of the table of litl/src/interpose.c.
use htll.Common.{ℕ, ◌≡◌, fault, stopped, length}
use htll.Interpose.Table.{my_hash, missing, hash_get}
use htll.Interpose.Buckets.{used, hash_put-eq-none}
use htll.Interpose.World
use htll.Interpose.World.{LockOps}

module _ (ops : LockOps) where
  open ops use {Lock}

  abbrev W : Type 0
  W = World.World ops

  -- The first use of a mutex that is not in the table, when its row is full, ends the process.
  pub on_lock_full :
      {R : Type 0} (op : Lock → R × Lock) (w : W) (m : ℕ)
      → hash_get w.table m ≡ missing
      → used (w.table (my_hash m)) ≡ length (w.table (my_hash m))
      → World.on_lock ops op w m ≡ fault stopped
  unfolding World.on_lock World.ht_lock_get World.ht_lock_create
  on_lock_full op w m new full =
      let refused = (hash_put-eq-none w.table m w.next).1 full in
      rw (new, World.on_lock, World.ht_lock_get, refused, World.ht_lock_create)

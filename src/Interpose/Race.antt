-- ===== src/Interpose/Race.antt =====
-- Two threads of litl/src/interpose.c that use a new mutex for the first time at once: each looks
-- it up before the other has put its lock into the table.
use htll.Common.{ℕ, ◌+◌, ◌≡◌, ◌≢◌, refl, arith, ok, some, ◌∙◌, update, ==_refl}
use htll.Interpose.Table.{Table, hash_put, missing, found, hash_get}
use htll.Interpose.Buckets.{hash_get-hash_put, hash_put-AllPacked}
use htll.Interpose.World
use htll.Interpose.World.{LockOps}
use htll.Interpose.Routing.{IsWorld}

module _ (ops : LockOps) where
  abbrev pub W : Type 0
  W = World.World ops

  -- When both threads have found no lock for a mutex, and both insertions find room, both creations
  -- succeed, with two different locks, each as new; later lookups find the first.
  pub first_uses :
      (w : W) (m : ℕ) (t t' : Table)
      → IsWorld ops w
      → m ≢ 0
      → hash_get w.table m ≡ missing
      → hash_put w.table m w.next ≡ some t
      → hash_put t m (w.next + 1) ≡ some t'
      → (p q : ℕ) × (w₁ : W) × (w₂ : W) × (World.ht_lock_create ops w m ≡ ok (p, w₁))
        × (World.ht_lock_create ops w₁ m ≡ ok (q, w₂))
        × (p ≢ q)
        × (hash_get w₂.table m ≡ found p)
        × (w₂.locks p ≡ ops.mutex_create)
        × (w₂.locks q ≡ ops.mutex_create)
  unfolding World.ht_lock_create
  first_uses w m t t' inv nm new put put' =
      let n = w.next in
      let w₁ : W = record { table = t; locks = update w.locks n ops.mutex_create; next = n + 1 } in
      let w₂ : W = record {
        table = t';
        locks = update w₁.locks (n + 1) ops.mutex_create;
        next = n + 1 + 1;
      } in
      let first : hash_get t m ≡ found n =
        hash_get-hash_put w.table m n m nm (omega (arith, inv.not_null)) nm inv.packed put
        ∙ rw (new, ==_refl m) refl in
      let second : hash_get t' m ≡ found n =
        hash_get-hash_put t m (n + 1) m nm (omega arith) nm
          (hash_put-AllPacked w.table m n nm inv.packed put) put'
        ∙ rw first refl in
      (
        n,
        n + 1,
        w₁,
        w₂,
        rw (put, World.ht_lock_create) refl,
        rw (put', World.ht_lock_create) refl,
        omega arith,
        second,
        ground arith,
        ground arith,
      )

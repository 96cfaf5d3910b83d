-- ===== src/Interpose/Dangling.antt =====
-- What the table of litl/src/interpose.c keeps of a rwlock of the RWTAS build that is destroyed.
use htll.Common.{
  ℕ, ◌+◌, ◌≡◌, ◌≢◌, refl, arith, ◌∙◌, true, false, update, ok, fault, ==_refl, length, dangling,
  Option-cases, inl, inr,
}
use htll.Interpose.Table.{hash_put, found, hash_get, my_hash}
use htll.Interpose.Buckets.{AllPacked, hash_get-hash_put, used, hash_put-eq-none}
use htll.Interpose.Rwtas
use htll.Interpose.Rwtas.{RwOps}

module _ (ops : RwOps) where
  open ops use {Lock}

  abbrev pub W : Type 0
  W = Rwtas.World ops

  use_freed :
      (op : Lock → ℕ × Lock) (w : W) (rwlock p : ℕ)
      → hash_get w.table rwlock ≡ found p
      → w.freed p ≡ true
      → Rwtas.on_rwlock ops op w rwlock ≡ fault dangling
  unfolding Rwtas.on_rwlock Rwtas.ht_rwlock_get
  use_freed op w rwlock p at_p gone = rw (at_p, Rwtas.on_rwlock, Rwtas.ht_rwlock_get, gone) refl

  -- When a rwlock is destroyed and initialised again at the same address, with room in its row and
  -- packed rows, and the allocator gives the new lock another block than the freed one, then both
  -- calls return 0, and the next operation on it uses the memory that the destruction freed.
  pub destroyed_rwlock :
      (op : Lock → ℕ × Lock) (w : W) (rwlock p : ℕ)
      → rwlock ≢ 0
      → w.next ≢ 0
      → w.next ≢ p
      → AllPacked w.table
      → used (w.table (my_hash rwlock)) ≢ length (w.table (my_hash rwlock))
      → hash_get w.table rwlock ≡ found p
      → w.freed p ≡ false
      → (w₁ : W) × (w₂ : W) × (Rwtas.rwtas_destroy ops w rwlock ≡ ok (0, w₁))
        × (Rwtas.rwtas_init ops w₁ rwlock ≡ ok (0, w₂))
        × (Rwtas.on_rwlock ops op w₂ rwlock ≡ fault dangling)
  unfolding Rwtas.rwtas_destroy Rwtas.rwtas_init Rwtas.ht_rwlock_create
  destroyed_rwlock op w rwlock p some_key some_next other packed room at_p live =
      elim (Option-cases (hash_put w.table rwlock w.next)) [
        | inl full ↦ absurd (room ((hash_put-eq-none w.table rwlock w.next).0 full))
        | inr (t, put) ↦
            let w₁ : W = record w {
              locks = update w.locks p (ops.rwlock_destroy (w.locks p)).1;
              freed = update w.freed p true;
            } in
            let w₂ : W = record w₁ {
              table = t;
              locks = update w₁.locks w.next ops.rwlock_create;
              freed = update w₁.freed w.next false;
              next = w.next + 1;
            } in
            let kept : hash_get t rwlock ≡ found p =
              hash_get-hash_put w.table rwlock w.next rwlock some_key some_next some_key packed put
              ∙ rw at_p refl in
            let gone : w₂.freed p ≡ true = ground (arith, ==_refl p) in
            (
              w₁,
              w₂,
              rw (at_p, Rwtas.rwtas_destroy, live) refl,
              rw (put, Rwtas.rwtas_init, Rwtas.ht_rwlock_create) refl,
              use_freed op w₂ rwlock p kept gone,
            )
      ]

-- ===== src/Interpose/Rwtas.antt =====
-- litl/src/interpose.c, lines 591-752: the rwlock functions for a lock algorithm that is a rwlock
-- (RWTAS). Here destroying a rwlock frees its lock.
use htll.Common.{
  ℕ, ◌+◌, Bool, true, false, none, some, if◌then◌else◌, update, Outcome, ok, fault, stopped,
  endless, dangling, ◌>>=◌,
}
use htll.Interpose.Table.{Table, hash_put, missing, waiting, found, hash_get}

-- The lock algorithm's `lock_rwlock_create` to `lock_rwlock_unlock`, which are not part of the
-- repository. Each call gives its `int` and the lock behind it.
pub record RwOps : Type 1 where
  pub Lock : Type 0
  pub rwlock_create : Lock
  pub rwlock_rdlock : Lock → ℕ × Lock
  pub rwlock_wrlock : Lock → ℕ × Lock
  pub rwlock_tryrdlock : Lock → ℕ × Lock
  pub rwlock_trywrlock : Lock → ℕ × Lock
  pub rwlock_unlock : Lock → ℕ × Lock
  pub rwlock_destroy : Lock → ℕ × Lock

module _ (ops : RwOps) where
  open ops use {
    Lock, rwlock_create, rwlock_rdlock, rwlock_wrlock, rwlock_tryrdlock, rwlock_trywrlock,
    rwlock_unlock, rwlock_destroy,
  }

  -- The table, the locks at their addresses, which of them are freed, and the address of the
  -- block that the allocator gives out next.
  pub record World : Type 0 where
    pub table : Table
    pub locks : ℕ → Lock
    pub freed : ℕ → Bool
    pub next : ℕ

  -- The allocator gives the block at `next`, which may be one that was freed before.
  unfoldable pub ht_rwlock_create : World → ℕ → Outcome (ℕ × World)
  ht_rwlock_create w rwlock =
      let w' : World = record w {
        locks = update w.locks w.next rwlock_create;
        freed = update w.freed w.next false;
        next = w.next + 1;
      } in
      elim (hash_put w.table rwlock w.next) [
        | some t ↦ ok (w.next, record w' { table = t })
        | none ↦ fault stopped
      ]

  unfoldable pub ht_rwlock_get : World → ℕ → Outcome (ℕ × World)
  unfolding ht_rwlock_create
  ht_rwlock_get w rwlock = elim (hash_get w.table rwlock) [
    | missing ↦ ht_rwlock_create w rwlock
    | waiting ↦ fault endless
    | found impl ↦ ok (impl, w)
  ]

  -- A call of an operation on the lock of a rwlock: it reads `impl->lock_lock`.
  unfoldable pub on_rwlock : (Lock → ℕ × Lock) → World → ℕ → Outcome (ℕ × World)
  unfolding ht_rwlock_get
  on_rwlock op w rwlock = ht_rwlock_get w rwlock >>= λ r.
      (let (ret, l) = op (r.1.locks r.0) in
        if r.1.freed r.0
        then fault dangling
        else ok (ret, record r.1 { locks = update r.1.locks r.0 l }))

  unfoldable pub rwtas_init : World → ℕ → Outcome (ℕ × World)
  unfolding ht_rwlock_create
  rwtas_init w rwlock = ht_rwlock_create w rwlock >>= λ r. ok (0, r.1)

  -- `lock_rwlock_destroy(impl->lock_lock)`, which reads the block, and `free(impl)`, with no change
  -- of the table. The destruction of a freed lock is a fault.
  unfoldable pub rwtas_destroy : World → ℕ → Outcome (ℕ × World)
  rwtas_destroy w rwlock = elim (hash_get w.table rwlock) [
    | missing ↦ ok (0, w)
    | waiting ↦ fault endless
    | found impl ↦
        if w.freed impl
        then fault dangling
        else ok (
          0,
          record w {
            locks = update w.locks impl (rwlock_destroy (w.locks impl)).1;
            freed = update w.freed impl true;
          },
        )
  ]

  unfoldable pub rwtas_rdlock : World → ℕ → Outcome (ℕ × World)
  unfolding on_rwlock
  rwtas_rdlock = on_rwlock rwlock_rdlock

  unfoldable pub rwtas_wrlock : World → ℕ → Outcome (ℕ × World)
  unfolding on_rwlock
  rwtas_wrlock = on_rwlock rwlock_wrlock

  unfoldable pub rwtas_timedrdlock : World → ℕ → Outcome (ℕ × World)
  rwtas_timedrdlock w rwlock = fault stopped

  unfoldable pub rwtas_timedwrlock : World → ℕ → Outcome (ℕ × World)
  rwtas_timedwrlock w rwlock = fault stopped

  unfoldable pub rwtas_tryrdlock : World → ℕ → Outcome (ℕ × World)
  unfolding on_rwlock
  rwtas_tryrdlock = on_rwlock rwlock_tryrdlock

  unfoldable pub rwtas_trywrlock : World → ℕ → Outcome (ℕ × World)
  unfolding on_rwlock
  rwtas_trywrlock = on_rwlock rwlock_trywrlock

  unfoldable pub rwtas_unlock : World → ℕ → Outcome (ℕ × World)
  unfolding on_rwlock
  rwtas_unlock w rwlock = on_rwlock rwlock_unlock w rwlock >>= λ r. ok (0, r.1)

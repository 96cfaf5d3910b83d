-- ===== src/Interpose/World.antt =====
-- litl/src/interpose.c, lines 146-178 and 404-468 and 756-848: creation and lookup of the locks
-- behind pthread mutexes and rwlocks, and the calls that go to them. One call at a time; two calls
-- that overlap are in `Race`.
use htll.Common.{ℕ, ◌+◌, none, some, update, Outcome, ok, fault, stopped, endless, ◌>>=◌}
use htll.Interpose.Table.{Table, hash_put, missing, waiting, found, hash_get}

-- The lock algorithm that interpose.c is built with: its `lock_mutex_create`, `lock_mutex_lock`,
-- `lock_mutex_trylock` and `lock_mutex_unlock`. Each call gives its `int` and the lock behind it.
pub record LockOps : Type 1 where
  pub Lock : Type 0
  pub mutex_create : Lock
  pub mutex_lock : Lock → ℕ × Lock
  pub mutex_trylock : Lock → ℕ × Lock
  pub mutex_unlock : Lock → ℕ × Lock

module _ (ops : LockOps) where
  open ops use {Lock, mutex_create, mutex_lock, mutex_trylock, mutex_unlock}

  -- The table, and the locks at the addresses that `alloc_cache_align` has returned: it gives a
  -- new address that is not null at each call, here `next`.
  pub record World : Type 0 where
    pub table : Table
    pub locks : ℕ → Lock
    pub next : ℕ

  unfoldable pub ht_lock_create : World → ℕ → Outcome (ℕ × World)
  ht_lock_create w mutex =
      let w' : World = record w { locks = update w.locks w.next mutex_create; next = w.next + 1 } in
      elim (hash_put w.table mutex w.next) [
        | some t ↦ ok (w.next, record w' { table = t })
        | none ↦ fault stopped
      ]

  unfoldable pub ht_lock_get : World → ℕ → Outcome (ℕ × World)
  unfolding ht_lock_create
  ht_lock_get w mutex = elim (hash_get w.table mutex) [
    | missing ↦ ht_lock_create w mutex
    | waiting ↦ fault endless
    | found impl ↦ ok (impl, w)
  ]

  -- A call of an operation on the lock of a mutex, with its result.
  unfoldable pub on_lock : {R : Type 0} → (Lock → R × Lock) → World → ℕ → Outcome (R × World)
  unfolding ht_lock_get
  on_lock op w mutex = ht_lock_get w mutex >>= λ r.
      (let (ret, l) = op (r.1.locks r.0) in ok (ret, record r.1 { locks = update r.1.locks r.0 l }))

  unfoldable pub pthread_mutex_init : World → ℕ → Outcome (ℕ × World)
  unfolding ht_lock_create
  pthread_mutex_init w mutex = ht_lock_create w mutex >>= λ r. ok (0, r.1)

  -- It prints statistics, and does nothing.
  unfoldable pub pthread_mutex_destroy : World → ℕ → Outcome (ℕ × World)
  pthread_mutex_destroy w mutex = ok (0, w)

  unfoldable pub pthread_mutex_lock : World → ℕ → Outcome (ℕ × World)
  unfolding on_lock
  pthread_mutex_lock = on_lock mutex_lock

  unfoldable pub pthread_mutex_trylock : World → ℕ → Outcome (ℕ × World)
  unfolding on_lock
  pthread_mutex_trylock = on_lock mutex_trylock

  unfoldable pub pthread_mutex_unlock : World → ℕ → Outcome (ℕ × World)
  unfolding on_lock
  pthread_mutex_unlock w mutex = on_lock mutex_unlock w mutex >>= λ r. ok (0, r.1)

  -- `assert(0 && "Timed locks not supported")`
  unfoldable pub pthread_mutex_timedlock : World → ℕ → Outcome (ℕ × World)
  pthread_mutex_timedlock w mutex = fault stopped

  -- The rwlock functions for lock algorithms that are no rwlocks (lines 756-848): readers and
  -- writers take the same lock.
  unfoldable pub pthread_rwlock_init : World → ℕ → Outcome (ℕ × World)
  unfolding ht_lock_create
  pthread_rwlock_init w rwlock = ht_lock_create w rwlock >>= λ r. ok (0, r.1)

  unfoldable pub pthread_rwlock_destroy : World → ℕ → Outcome (ℕ × World)
  pthread_rwlock_destroy w rwlock = ok (0, w)

  unfoldable pub pthread_rwlock_rdlock : World → ℕ → Outcome (ℕ × World)
  unfolding on_lock
  pthread_rwlock_rdlock = on_lock mutex_lock

  unfoldable pub pthread_rwlock_wrlock : World → ℕ → Outcome (ℕ × World)
  unfolding on_lock
  pthread_rwlock_wrlock = on_lock mutex_lock

  unfoldable pub pthread_rwlock_timedrdlock : World → ℕ → Outcome (ℕ × World)
  pthread_rwlock_timedrdlock w rwlock = fault stopped

  unfoldable pub pthread_rwlock_timedwrlock : World → ℕ → Outcome (ℕ × World)
  pthread_rwlock_timedwrlock w rwlock = fault stopped

  unfoldable pub pthread_rwlock_tryrdlock : World → ℕ → Outcome (ℕ × World)
  unfolding on_lock
  pthread_rwlock_tryrdlock = on_lock mutex_trylock

  unfoldable pub pthread_rwlock_trywrlock : World → ℕ → Outcome (ℕ × World)
  unfolding on_lock
  pthread_rwlock_trywrlock = on_lock mutex_trylock

  unfoldable pub pthread_rwlock_unlock : World → ℕ → Outcome (ℕ × World)
  unfolding on_lock
  pthread_rwlock_unlock w rwlock = on_lock mutex_unlock w rwlock >>= λ r. ok (0, r.1)

-- The lock algorithm's condition variables, `lock_cond_init` to `lock_cond_destroy`, which are all
-- given by their addresses, over a state `Conds`.
pub record CondOps (Lock : Type 0) : Type 1 where
  pub Conds : Type 0
  pub cond_init : ℕ → Conds → ℕ × Conds
  pub cond_destroy : ℕ → Conds → ℕ × Conds
  pub cond_timedwait : (cond ts : ℕ) → Conds → Lock → (ℕ × Conds) × Lock
  pub cond_wait : (cond : ℕ) → Conds → Lock → (ℕ × Conds) × Lock
  pub cond_signal : ℕ → Conds → ℕ × Conds
  pub cond_broadcast : ℕ → Conds → ℕ × Conds

-- The functions of lines 470-527.
module _ (ops : LockOps) (conds : CondOps ops.Lock) where
  open conds use {Conds}

  unfoldable pub pthread_cond_init : ℕ → Conds → ℕ × Conds
  pthread_cond_init cond cs = conds.cond_init cond cs

  unfoldable pub pthread_cond_destroy : ℕ → Conds → ℕ × Conds
  pthread_cond_destroy cond cs = conds.cond_destroy cond cs

  unfoldable pub pthread_cond_timedwait :
      (cond mutex abstime : ℕ) → Conds → World ops → Outcome ((ℕ × Conds) × World ops)
  unfolding on_lock
  pthread_cond_timedwait cond mutex abstime cs w =
      on_lock ops (conds.cond_timedwait cond abstime cs) w mutex

  unfoldable pub pthread_cond_wait :
      (cond mutex : ℕ) → Conds → World ops → Outcome ((ℕ × Conds) × World ops)
  unfolding on_lock
  pthread_cond_wait cond mutex cs w = on_lock ops (conds.cond_wait cond cs) w mutex

  unfoldable pub pthread_cond_signal : ℕ → Conds → ℕ × Conds
  pthread_cond_signal cond cs = conds.cond_signal cond cs

  unfoldable pub pthread_cond_broadcast : ℕ → Conds → ℕ × Conds
  pthread_cond_broadcast cond cs = conds.cond_broadcast cond cs

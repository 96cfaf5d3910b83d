-- ===== src/Tests/Front.antt =====
-- litl/src/interpose.c: the table and the front functions at concrete worlds.
use htll.Common.{
  ◌≢◌, ◌<◌, ◌/◌, ◌%◌, ℕ, ◌≡◌, inr, refl, arith, some, ◌∷◌, length, ok, fault, stopped, false,
  replicate, update, if◌then◌else◌, ◌==◌,
}
use htll.Htll.Mutex.{Mutex, mutex_create, mutex_trylock}
use htll.Htll.Thread.{idle, held}
use htll.Htll.Schedule.{out}
use htll.Htll.Release.{alone}
use htll.Interpose.Table.{
  Table, empty_table, my_hash, hash_put, hash_get, missing, found, my_hash_range,
}
use htll.Interpose.Buckets.{or_else, empty_table-AllPacked, hash_get-hash_put, used}
use htll.Interpose.World
use htll.Interpose.World.{LockOps}
use htll.Interpose.Routing
use htll.Interpose.Race
use htll.Interpose.Full
use htll.Interpose.Initial.{started, started-IsWorld}
use htll.Interpose.Routing.{IsWorld, Routed, view}

-- The HTLL lock in the hands of one thread.
abbrev htll_ops : LockOps
htll_ops = record {
  Lock = Mutex;
  mutex_create = mutex_create;
  mutex_lock = λ m. (0, (alone 2 out m idle).0);
  mutex_trylock = λ m. ((mutex_trylock m).1, (mutex_trylock m).0);
  mutex_unlock = λ m. (0, (alone 3 out m (held false)).0);
}

abbrev mutex_a : ℕ
mutex_a = 0x7f00_1000

abbrev mutex_b : ℕ
mutex_b = 0x7f00_1040

abbrev world : Routing.W htll_ops
world = started htll_ops

abbrev table_a : Table
table_a =
    update empty_table (my_hash mutex_a)
      (record { key = mutex_a; value = 1 } ∷ replicate 9 (record { key = 0; value = 0 }))

put_a : hash_put empty_table mutex_a 1 ≡ some table_a
unfolding hash_put my_hash
put_a = refl

hash_get-hash_put_example :
    hash_get table_a mutex_a
    ≡ or_else (hash_get empty_table mutex_a) (if mutex_a == mutex_a then found 1 else missing)
hash_get-hash_put_example =
    hash_get-hash_put empty_table mutex_a 1 mutex_a (omega arith) (omega arith) (omega arith)
      empty_table-AllPacked put_a

empty_rows : (m : ℕ) → used (empty_table m) ≢ length (empty_table m)
unfolding used
empty_rows m = omega arith

on_lock-Routed_example :
    (ret : ℕ) × (w : Routing.W htll_ops) × (World.on_lock htll_ops htll_ops.mutex_lock world mutex_a
      ≡ ok (ret, w))
    × Routed htll_ops htll_ops.mutex_lock world mutex_a ret w
unfolding started
on_lock-Routed_example =
    Routing.on_lock-Routed htll_ops htll_ops.mutex_lock world mutex_a (started-IsWorld htll_ops)
      (omega arith) (inr (empty_rows (my_hash mutex_a)))

init-view_example :
    (w : Routing.W htll_ops) × (World.pthread_mutex_init htll_ops world mutex_a ≡ ok (0, w))
    × IsWorld htll_ops w
    × ((q : ℕ) → q ≢ 0 → view htll_ops w q ≡ view htll_ops world q)
unfolding started
init-view_example =
    Routing.init-view htll_ops world mutex_a (started-IsWorld htll_ops) (omega arith)
      (empty_rows (my_hash mutex_a))

-- A world whose rows are full of other mutexes.
abbrev crowded : Routing.W htll_ops
crowded = record {
  table = λ _. replicate 10 (record { key = 16; value = 1 });
  locks = λ _. mutex_create;
  next = 2;
}

full_row : World.on_lock htll_ops htll_ops.mutex_lock crowded mutex_a ≡ fault stopped
unfolding used hash_get
full_row = Full.on_lock_full htll_ops htll_ops.mutex_lock crowded mutex_a refl refl

my_hash_range_run : (my_hash mutex_a < 40960) × (my_hash mutex_a / 8192 % 4 ≡ 0)
my_hash_range_run = my_hash_range mutex_a

-- Two threads have looked `mutex_a` up in the empty table; the first has inserted its lock.
abbrev table_aa : Table
table_aa = update table_a (my_hash mutex_a) (
    record { key = mutex_a; value = 1 }
    ∷ record { key = mutex_a; value = 2 }
    ∷ replicate 8 (record { key = 0; value = 0 }))

put_aa : hash_put table_a mutex_a 2 ≡ some table_aa
unfolding hash_put my_hash
put_aa = refl

no_a : hash_get empty_table mutex_a ≡ missing
unfolding hash_get my_hash
no_a = refl

first_uses_example :
    (p q : ℕ) × (w₁ : Routing.W htll_ops) × (w₂ : Routing.W htll_ops) × (World.ht_lock_create
        htll_ops world mutex_a
      ≡ ok (p, w₁))
    × (World.ht_lock_create htll_ops w₁ mutex_a ≡ ok (q, w₂))
    × (p ≢ q)
    × (hash_get w₂.table mutex_a ≡ found p)
    × (w₂.locks p ≡ mutex_create)
    × (w₂.locks q ≡ mutex_create)
unfolding started
first_uses_example =
    Race.first_uses htll_ops world mutex_a table_a table_aa (started-IsWorld htll_ops) (omega arith)
      no_a put_a put_aa

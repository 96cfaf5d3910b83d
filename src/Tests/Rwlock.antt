-- ===== src/Tests/Rwlock.antt =====
-- A rwlock of the RWTAS build of litl/src/interpose.c that is destroyed and used again.
use htll.Common.{
  ℕ, ◌+◌, ◌≡◌, ◌≢◌, refl, arith, false, some, update, ok, fault, dangling, ◌∷◌, replicate, length,
}
use htll.Interpose.Table.{Table, empty_table, my_hash, hash_put, found, hash_get}
use htll.Interpose.Buckets.{AllPacked, empty_table-AllPacked, hash_put-AllPacked, used}
use htll.Interpose.Rwtas
use htll.Interpose.Rwtas.{RwOps}
use htll.Interpose.Dangling

-- A lock that counts its holders.
abbrev counting : RwOps
counting = record {
  Lock = ℕ;
  rwlock_create = 0;
  rwlock_rdlock = λ n. (0, n + 1);
  rwlock_wrlock = λ n. (0, n + 1);
  rwlock_tryrdlock = λ n. (0, n + 1);
  rwlock_trywrlock = λ n. (0, n + 1);
  rwlock_unlock = λ n. (0, 0);
  rwlock_destroy = λ n. (0, 0);
}

abbrev rwlock_a : ℕ
rwlock_a = 0x7f00_2000

abbrev table_a : Table
table_a =
    update empty_table (my_hash rwlock_a)
      (record { key = rwlock_a; value = 1 } ∷ replicate 9 (record { key = 0; value = 0 }))

put_a : hash_put empty_table rwlock_a 1 ≡ some table_a
unfolding hash_put my_hash
put_a = refl

table_a-AllPacked : AllPacked table_a
table_a-AllPacked =
    hash_put-AllPacked empty_table rwlock_a 1 (omega arith) empty_table-AllPacked put_a

abbrev world : Rwtas.World counting
world = record { table = table_a; locks = λ _. 0; freed = λ _. false; next = 2 }

room : used (table_a (my_hash rwlock_a)) ≢ length (table_a (my_hash rwlock_a))
unfolding used my_hash
room = omega arith

get_a : hash_get table_a rwlock_a ≡ found 1
unfolding hash_get my_hash
get_a = refl

destroyed_rwlock_example :
    (w₁ : Rwtas.World counting) × (w₂ : Rwtas.World counting) × (Rwtas.rwtas_destroy counting world
        rwlock_a
      ≡ ok (0, w₁))
    × (Rwtas.rwtas_init counting w₁ rwlock_a ≡ ok (0, w₂))
    × (Rwtas.on_rwlock counting counting.rwlock_rdlock w₂ rwlock_a ≡ fault dangling)
destroyed_rwlock_example =
    Dangling.destroyed_rwlock counting counting.rwlock_rdlock world rwlock_a 1 (omega arith)
      (omega arith) (omega arith) table_a-AllPacked room get_a refl

-- ===== src/Pthread.antt =====
-- litl/src/pthreadinterpose.c: the lock algorithm that passes each call on to the C library.
pub mod Real
pub mod Ops
pub mod Held
pub mod Trylock

-- ===== src/Cores.antt =====
-- litl/src/utils.c: which kind of core a thread runs on.
pub mod Lazy
pub mod Settled

-- ===== src/Cond.antt =====
-- The condition variables of litl/src/htll.c.
pub mod Ops
pub mod Timeout
pub mod Wait
pub mod Owners
pub mod Signals
pub mod Queues
pub mod Outside
pub mod System
pub mod Exclusion

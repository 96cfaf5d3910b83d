-- ===== src/Epoch.antt =====
-- litl/src/htll.c, lines 41-43, 62-96 and 318-377: the lock inside of segments, with the
-- thread-local segments that its timed wait reads and writes.
pub mod Lock
pub mod Window
pub mod Timeouts
pub mod Threads
pub mod Stacks
pub mod Places
pub mod Exclusion
pub mod Windows

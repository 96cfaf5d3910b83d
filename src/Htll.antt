-- ===== src/Htll.antt =====
-- litl/src/htll.c and litl/include/htll.h: the HTLL lock.
pub mod Constants
pub mod Mutex
pub mod Spin
pub mod Thread
pub mod System
pub mod Exclusion
pub mod Abstract
pub mod Refinement
pub mod Wakeups
pub mod Schedule
pub mod Prompt
pub mod Forgotten
pub mod Release
pub mod Counters
pub mod Weights
pub mod Progress

-- ===== src/Waiting.antt =====
-- litl/src/waiting_policy.h: how a thread waits for a variable that another one sets.
pub mod Policy
pub mod Handoff

-- ===== src/Concurrent.antt =====
-- litl/src/interpose.c, lines 84-122: the table under many threads at once.
pub mod Slots
pub mod Claims
pub mod Invariant
pub mod Lookups
pub mod Agreement
pub mod Owners
pub mod Program
pub mod Guards
pub mod Returns
pub mod Exclusion
pub mod Refinement

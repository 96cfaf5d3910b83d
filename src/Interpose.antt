-- ===== src/Interpose.antt =====
-- litl/src/interpose.c: the pthread functions that are put in front of the C library's.
pub mod Table
pub mod Buckets
pub mod World
pub mod Routing
pub mod Startup
pub mod Load
pub mod Loaded
pub mod Once
pub mod Ids
pub mod Rwtas
pub mod Dangling
pub mod Race
pub mod Full
pub mod Initial

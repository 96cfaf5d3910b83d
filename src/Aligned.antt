-- ===== src/Aligned.antt =====
-- litl/include/padding.h and `alloc_cache_align` of litl/src/utils.c: memory in whole cache lines.
pub mod Alloc
pub mod Lines
pub mod Layout
pub mod Structs
pub mod Separate

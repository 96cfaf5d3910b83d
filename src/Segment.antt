-- ===== src/Segment.antt =====
-- litl/src/htll.c, lines 27-39 and 150-156 and 300-377: the epochs ("segments") of a thread and
-- the reorder window that each of them learns.
pub mod State
pub mod Ops
pub mod Window
pub mod Nesting
pub mod Overruns
pub mod Bracket
pub mod Recovery

-- ===== src/Bench.antt =====
-- litl/bench/bench_block.c: threads that update shared words under one lock.
pub mod Access
pub mod Threads
pub mod Pending
pub mod Tally
pub mod Counts
pub mod Request
pub mod Words
pub mod Requests
pub mod Durations
pub mod Main
pub mod Reports
pub mod Run
pub mod Bodies
pub mod Whole
pub mod Barrier
pub mod Total
pub mod Destroyed

-- ===== src/Tests.antt =====
-- The theorems at concrete inputs, and runs of the definitions.
mod Lock
mod Epochs
mod Front
mod Posix
mod Waits
mod Handoffs
mod Start
mod Rwlock
mod Cpus
mod Tables
mod Benchmark
mod Memory
mod Segments
mod Whole

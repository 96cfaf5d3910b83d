-- ===== src/Lib.antt =====
-- Verification of the htll lock library (the directory litl of the repository).
--
-- The library replaces the locks of a program: litl/src/interpose.c defines the functions of
-- pthreads, finds the lock of each pthread mutex in a table, and calls a lock algorithm, which is
-- litl/src/htll.c or litl/src/pthreadinterpose.c. A program that knows htll marks its requests as
-- segments (epochs) with a latency that it wants to meet; from their ends htll.c learns how long a
-- waiter may stand by while others overtake it. Condition variables stand beside the locks.
--
-- Parts and files:
--   Common       shared names: tests, lists under native indices, machine words, C integers,
--                outcomes with faults, threads as functions from indices, with sums over them.
--   Htll         litl/src/htll.c, lines 41-144, and litl/include/htll.h: the lock.
--                Constants, Mutex (`htll_mutex_t` and its accesses, the counters), Spin (the spin
--                loop's test), Thread (`move`: a thread in lock, trylock or unlock, one access to
--                the shared lock at a time, but for its counters, which are one move), System (any number of threads in any order, with the
--                futex), Prompt (its threads when they only finish their calls). Proofs: Exclusion,
--                Abstract (an abstract lock), Refinement, Wakeups, Weights, Progress, Release,
--                Counters, Forgotten; Schedule evaluates given interleavings.
--   Segment      litl/src/htll.c, lines 27-39, 146-156 and 300-377: `segment_start`, `segment_end`
--                and `htll_thread_start` on the thread-local table and stack (State, Ops). Proofs:
--                Window, Recovery, Nesting, Bracket, Overruns.
--   Epoch        litl/src/htll.c, lines 37-39, 62-144 and 318-377: the lock and the segments of the
--                same threads. Lock (`local_move`: a move in the lock, with the window as the timeout
--                of the timed wait and the mark that it leaves; `checked_move`, with the read of line 64, whose
--                value is not used), Threads (any number of threads that
--                start and end segments between their calls of the lock). Proofs: Window, Timeouts,
--                Stacks, Places, Exclusion, Windows.
--   Cond         litl/src/htll.c, lines 160-292: Ops (init, destroy, signal, broadcast), Timeout (the
--                time that is left), Wait (`wait_move`: a thread in either wait, one access at a
--                time; its unlock is Htll's), System (threads that start and end segments, lock,
--                wait and notify, in any order). Proofs: Owners, Exclusion, Signals, Queues (whom
--                signal and broadcast wake, with the futex calls as relations), Outside.
--   Interpose    litl/src/interpose.c: Table (`my_hash`, `hash_put`, `hash_get`), World (creation and
--                lookup of locks, the mutex, rwlock and condition variable functions, over a lock
--                algorithm as a record of operations), Rwtas (the rwlock functions under RWTAS),
--                Startup (the constructor, the thread ids, the start routine), Load (the pointers
--                to the C library's functions and litl/src/interpose.h). Proofs: Loaded, Buckets,
--                Routing, Initial, Full, Race, Once, Ids, Dangling.
--   Concurrent   litl/src/interpose.c, lines 84-122, one access at a time: Slots (`table_move`: a
--                thread in `hash_put` or `hash_get`), Program (threads that look the lock of a
--                mutex up, or create it, and lock, try and unlock it, with Htll's `move`). Proofs:
--                Claims and Invariant (what holds of the slots), Lookups, Agreement, Owners, Returns, Guards,
--                Exclusion, Refinement.
--   Pthread      litl/src/pthreadinterpose.c: Real (the C library's functions, as a parameter, with
--                what POSIX says of them), Ops, with COND_VAR as a parameter. Proofs: Held, Trylock.
--   Waiting      litl/src/waiting_policy.h: Policy (sleep and wake of each policy), Handoff (one
--                sleeper and one waker, and the proofs).
--   Cores        litl/src/utils.c: which kind of core a thread runs on, with the lazy check (Lazy).
--                Proofs: Settled.
--   Bench        litl/bench/bench_block.c: Access (`access_variables`, one access at a time), Threads
--                (requests of many threads over Htll's lock), Request (a thread alone: the request
--                with its epoch, and the loop with the durations), Main (options, creation of the
--                threads, report), Run (a whole run: main's creation of the threads, the barrier,
--                the stop signal and the sum, with the threads over Htll's lock). Proofs: Pending,
--                Tally, Counts, Words, Requests, Durations, Reports, Bodies, Whole, Barrier, Total,
--                Destroyed.
--   Aligned      litl/include/padding.h and `alloc_cache_align` of litl/src/utils.c: Alloc, Layout
--                (offsets in a C structure), Structs (those of htll.h and mcssteal.h). Proofs:
--                Lines, Separate.
--   Tests        runs of the definitions, and the theorems at concrete inputs.
--
-- How the state is modelled. Shared memory is sequentially consistent: the exchanges are locked
-- instructions of x86, and fences stand around the plain accesses of unlock. The futex follows
-- futex(2): a wait sleeps if the word has the expected value, a sleeper may return at any time (a
-- timeout, a signal, or for no reason), a wake-up takes a sleeper if there is one. Addresses are
-- numbers with 0 for NULL, unsigned fields carry their wrap-around, indices outside of an array are
-- faults, and exit(-1), abort and failed assertions are the fault `stopped`.
--
-- Bounds and fuel. The numbers of threads and of interleaved steps are arbitrary. The loops of the
-- table run over its rows, which are lists, those of the benchmark over what is left; the spin and
-- the waiting loops are points that a thread may stay at. Only `try_posix` has fuel: a theorem
-- gives it one call more than the library's trylock is busy for.
--
-- Not modelled: htll_mutex_timedlock, which only prints a warning, and the functions with empty
-- bodies; signal handlers, which the build leaves out, and debug output of interpose.c; `free` in
-- pthreadinterpose.c; the helpers of litl/src/utils.h that nothing uses; the clock and the format
-- of the output of the benchmark; headers copied from other projects (litl/include/atomic_ops.h,
-- utils.h, platform_defs.h); the lock of litl/include/mcssteal.h, but for its structures, since
-- its source is not in the repository. The lock algorithm behind the interface of Interpose, a
-- rwlock algorithm, the C library with dlsym, posix_memalign, getopt and atoi, and
-- `judge_big_core` are parameters.
pub mod Common
pub mod Htll
pub mod Segment
pub mod Cond
pub mod Epoch
pub mod Interpose
pub mod Pthread
pub mod Waiting
pub mod Cores
pub mod Concurrent
pub mod Bench
pub mod Aligned
mod Tests

-- ===== src/Bench/Main.antt =====
-- `main` of litl/bench/bench_block.c (lines 194-291): its options, its threads and its report.
use htll.Common.{
  ℕ, zero, suc, ◌+◌, ◌-◌, ◌^◌, List, [], ◌∷◌, if◌then◌else◌, ltb, ◌==◌, ℤ, pos, negsuc, Outcome, ok,
  fault, stopped, ◌>>=◌, u32, u64,
}
use htll.Bench.Request.{read_at, write_at}
use htll.Bench.Threads.{thd_num}

-- What the options set. `target_latency` is a uint64_t, the others are of type int.
pub record Options : Type 0 where
  pub mode : ℤ
  pub nb_thread : ℤ
  pub long_number : ℤ
  pub short_number : ℤ
  pub short_thread_number : ℤ
  pub delay : ℤ
  pub sleep_time : ℤ
  pub ux_num : ℤ
  pub possibility : ℤ
  pub target_latency : ℕ

abbrev pub default_options : Options
default_options = record {
  mode = pos 0;
  nb_thread = pos 20;
  long_number = pos 5120;
  short_number = pos 32;
  short_thread_number = pos thd_num;
  delay = pos 100;
  sleep_time = pos 3;
  ux_num = pos 100;
  possibility = pos 4;
  target_latency = 100000;
}

-- An int as a uint64_t.
abbrev pub as_u64 : ℤ → ℕ
as_u64 (pos n) = u64 n
as_u64 (negsuc n) = 2 ^ 64 - 1 - n

-- One pass of the loop, for what getopt has returned and the number that atoi has read. The
-- letters m and r, which getopt knows too, are reported as unknown.
unfoldable pub set_option : Options → ℕ → ℤ → Outcome Options
set_option o command value =
    if command == b'h'
    then fault stopped
    else if command == b't'
    then ok (record o { nb_thread = value })
    else if command == b'g'
    then ok (record o { long_number = value })
    else if command == b's'
    then ok (record o { short_number = value })
    else if command == b'S'
    then ok (record o { short_thread_number = value })
    else if command == b'd'
    then ok (record o { delay = value })
    else if command == b'T'
    then ok (record o { sleep_time = value })
    else if command == b'u'
    then ok (record o { ux_num = value })
    else if command == b'p'
    then ok (record o { possibility = value })
    else if command == b'l'
    then ok (record o { target_latency = as_u64 value })
    else ok o

unfoldable pub set_options : Options → List (ℕ × ℤ) → Outcome Options
unfolding set_option
set_options o [] = ok o
set_options o ((command, value) ∷ more) = set_option o command value >>= λ o'. set_options o' more

-- How often a loop up to an int runs.
abbrev pub passes : ℤ → ℕ
passes (pos n) = n
passes (negsuc n) = 0

-- The loop that creates the threads, from `i` on: pthread_create writes the thread's handle.
unfoldable pub create_from : (ℕ → ℕ) → ℕ → ℕ → List ℕ → Outcome (List ℕ)
create_from handle i zero tid = ok tid
create_from handle i (suc left) tid =
    write_at tid i (handle i) >>= λ tid'. create_from handle (i + 1) left tid'

-- The report on one thread: its counter as an int, and as many of its durations.
abbrev pub as_int : ℕ → ℤ
as_int c = if ltb (u32 c) (2 ^ 31) then pos (u32 c) else negsuc (2 ^ 32 - 1 - u32 c)

unfoldable pub print_from : ℕ → ℕ → List ℕ → Outcome (List ℕ)
print_from j zero latencies = ok []
print_from j (suc left) latencies = do
  line ← read_at latencies j
  lines ← print_from (j + 1) left latencies
  ok (line ∷ lines)

unfoldable pub print_thread : ℕ → List ℕ → Outcome (List ℕ)
unfolding print_from
print_thread cnt latencies = print_from 0 (passes (as_int cnt)) latencies

-- The sum of lines 277-278 over the counters of the threads.
unfoldable pub total_from : ℕ → ℕ → ℕ → List ℕ → Outcome ℕ
total_from total i zero global_cnt = ok total
total_from total i (suc left) global_cnt =
    read_at global_cnt i >>= λ c. total_from (u64 (total + c)) (i + 1) left global_cnt

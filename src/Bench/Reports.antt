-- ===== src/Bench/Reports.antt =====
-- What `main` of litl/bench/bench_block.c makes of its options, and what it prints.
use htll.Common.{
  ℕ, zero, suc, ◌+◌, ◌^◌, ◌≡◌, ◌≢◌, ◌≤◌, ◌<◌, refl, ap, ◌∙◌, arith, List, [], ◌∷◌, map, some,
  get_elem?, set, length, leb, ◌==◌, if◌then◌else◌, ℤ, ok, fault, out_of_bounds, length-set, subst,
  u64,
}
use htll.Bench.Request.{LockCalls, Settings, Machine, Stamps, run_requests}
use htll.Bench.Durations.{duration, IsReady, run_requests-Recorded}
use htll.Bench.Main.{
  Options, set_option, set_options, as_u64, create_from, passes, as_int, print_from, print_thread,
}

-- The value of the last option with a letter, or else what was there before.
abbrev pub last_of : ℕ → ℤ → List (ℕ × ℤ) → ℤ
last_of letter value [] = value
last_of letter value ((command, v) ∷ more) =
    last_of letter (if command == letter then v else value) more

abbrev pub last_latency : ℕ → List (ℕ × ℤ) → ℕ
last_latency value [] = value
last_latency value ((command, v) ∷ more) =
    last_latency (if command == b'l' then as_u64 v else value) more

abbrev pub given : Options → List (ℕ × ℤ) → Options
given o options = record {
  mode = o.mode;
  nb_thread = last_of b't' o.nb_thread options;
  long_number = last_of b'g' o.long_number options;
  short_number = last_of b's' o.short_number options;
  short_thread_number = last_of b'S' o.short_thread_number options;
  delay = last_of b'd' o.delay options;
  sleep_time = last_of b'T' o.sleep_time options;
  ux_num = last_of b'u' o.ux_num options;
  possibility = last_of b'p' o.possibility options;
  target_latency = last_latency o.target_latency options;
}

abbrev pub NoHelp : List (ℕ × ℤ) → Type 0
NoHelp [] = Unit
NoHelp ((command, v) ∷ more) = (command ≢ b'h') × NoHelp more

set_option-given :
    (o : Options) (command : ℕ) (v : ℤ)
    → command ≢ b'h'
    → set_option o command v ≡ ok (given o ((command, v) ∷ []))
unfolding set_option
set_option-given o command v ne = ground arith

-- Without -h, every setting is the value of the last option with its letter, or else its default,
-- and the mode is never changed.
pub set_options-given :
    (o : Options) (options : List (ℕ × ℤ))
    → NoHelp options
    → set_options o options ≡ ok (given o options)
unfolding set_options
set_options-given o [] h = refl
set_options-given o ((command, v) ∷ more) (ne, h) =
    rw (set_option-given o command v ne) (set_options-given (given o ((command, v) ∷ [])) more h)

-- The handles of `left` threads from `i` on.
abbrev pub handles : (ℕ → ℕ) → ℕ → ℕ → List ℕ → List ℕ
handles handle i zero tid = tid
handles handle i (suc left) tid = handles handle (i + 1) left (set tid i (handle i))

-- main creates all threads, each with its handle in the array of handles, if there are not more
-- than the array has elements, and else writes behind it.
pub create_from-handles :
    (handle : ℕ → ℕ) (i left : ℕ) (tid : List ℕ)
    → i ≤ length tid
    → create_from handle i left tid ≡ (
        if leb (i + left) (length tid) then ok (handles handle i left tid) else fault out_of_bounds)
unfolding create_from
create_from-handles handle i zero tid le = ground arith
create_from-handles handle i (suc left) tid le = ground (
  arith,
  length-set tid i (handle i),
  create_from-handles handle (i + 1) left (set tid i (handle i)),
)

print_from-Recorded :
    (seen : List Stamps) (from : ℕ) (latencies : List ℕ)
    → ((j : ℕ) (now : Stamps)
        → get_elem? seen j ≡ some now
        → get_elem? latencies (from + j) ≡ some (duration now))
    → print_from from (length seen) latencies ≡ ok (map duration seen)
unfolding print_from
print_from-Recorded [] from latencies recorded = refl
print_from-Recorded (now ∷ seen) from latencies recorded =
    let here : from + 0 ≡ from = omega arith in
    let first : get_elem? latencies from ≡ some (duration now) =
      subst (λ k. get_elem? latencies k ≡ some (duration now)) here (recorded 0 now refl) in
    let rest = print_from-Recorded seen (from + 1) latencies (λ j at e.
      let there : from + suc j ≡ from + 1 + j = omega arith in
      subst (λ k. get_elem? latencies k ≡ some (duration at)) there (recorded (suc j) at e)) in
    ground (arith, first, rest)

passes-as_int : (k : ℕ) → k < 2 ^ 31 → passes (as_int k) ≡ k
passes-as_int k few = ground arith

-- The report on a thread that has made fewer than 2^31 requests, and not more than its array of
-- durations has room for, and that has stopped behind the record of the last, prints the durations of all of them in their order.
pub report_lem :
    {M : Type 0} (calls : LockCalls M) (u : Settings) (tid : ℕ) (seen : List Stamps)
    (latencies : List ℕ) (s : Machine M)
    → IsReady calls u tid 0 s
    → length seen < 2 ^ 31
    → length seen ≤ length latencies
    → (after : List ℕ) × (s' : Machine M) × (c : ℕ) × (run_requests calls u tid seen 0 latencies s
        ≡ ok (length seen, after, s'))
      × (get_elem? s'.global_cnt tid ≡ some c)
      × (print_thread c after ≡ ok (map duration seen))
unfolding print_thread
report_lem calls u tid seen latencies s w few room =
    let (after, s', ran, ready, recorded) =
      run_requests-Recorded calls u tid seen 0 0 latencies s w (omega arith) (omega arith) in
    let count : u64 (0 + length seen) ≡ length seen = omega arith in
    let start : 0 + length seen ≡ length seen = omega arith in
    (
      after,
      s',
      length seen,
      ran ∙ ap (λ k. ok (k, after, s')) start,
      ready.counter ∙ ap some count,
      ap (λ k. print_from 0 k after) (passes-as_int (length seen) few)
          ∙ print_from-Recorded seen 0 after recorded.recorded,
    )

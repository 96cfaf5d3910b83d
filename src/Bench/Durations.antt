-- ===== src/Bench/Durations.antt =====
-- The loop of a thread of litl/bench/bench_block.c, with the array of its durations.
use htll.Common.{
  ℕ, zero, suc, ◌+◌, ◌^◌, ◌≡◌, ◌≤◌, ◌<◌, refl, true, ap, sym, subst, arith, ◌∙◌, List, [], ◌∷◌,
  some, get_elem?, set, length, ok, fault, out_of_bounds, u64, sub_u64, get_elem?-lt,
  get_elem?-set_self, get_elem?-set_ne, length-set, Bool-cases, inl, inr, ltb,
}
use htll.Segment.State.{max_depth}
use htll.Segment.Nesting.{IsLocal}
use htll.Bench.Request.{LockCalls, Settings, Machine, Stamps, request_normal, run_requests}
use htll.Bench.Requests.{IsMachine, IsFree, Requested, request_normal-Requested}

-- LATENCY_RECORD
abbrev pub latency_record : ℕ
latency_record = 5000000

abbrev pub duration : Stamps → ℕ
duration now = sub_u64 now.behind now.before

module _ {M : Type 0} (calls : LockCalls M) (u : Settings) (tid : ℕ) where
  -- A thread that can make requests, with its counter at `c`.
  pub record IsReady (c : ℕ) (s : Machine M) : Type 0 where
    pub fits : IsMachine calls u s
    pub free : IsFree calls u s.memory
    pub local : IsLocal s.segments
    pub room : s.segments.depth < max_depth
    pub counter : get_elem? s.global_cnt tid ≡ some c

  Requested-IsReady :
      (c : ℕ) (s s' : Machine M)
      → IsReady c s
      → Requested calls u tid c s s'
      → IsReady (u64 (c + 1)) s'
  Requested-IsReady c s s' w done = record {
    fits = done.fits;
    free = subst (IsFree calls u) (sym done.memory) w.free;
    local = done.segments.is_local;
    room = subst (λ d. d < max_depth) (sym done.segments.same_depth) w.room;
    counter = rw done.global_cnt (
        get_elem?-set_self s.global_cnt tid (u64 (c + 1))
          (get_elem?-lt s.global_cnt tid c w.counter));
  }

  request :
      (c : ℕ) (now : Stamps) (s : Machine M)
      → IsReady c s
      → (s' : Machine M) × (request_normal calls u tid now s ≡ ok s') × IsReady (u64 (c + 1)) s'
  request c now s w =
      let (s', ran, done) =
        request_normal-Requested calls u tid c now s w.fits w.free w.local w.room w.counter in
      (s', ran, Requested-IsReady c s s' w done)

  -- The durations of the requests stand in the array from `from` on, and nothing else has changed.
  pub record Recorded (seen : List Stamps) (from : ℕ) (before after : List ℕ) : Type 0 where
    pub recorded :
        (j : ℕ) (now : Stamps)
        → get_elem? seen j ≡ some now
        → get_elem? after (from + j) ≡ some (duration now)
    pub earlier : (j : ℕ) → j < from → get_elem? after j ≡ get_elem? before j

  next-Recorded :
      (now : Stamps) (seen : List Stamps) (from : ℕ) (latencies after : List ℕ)
      → from < length latencies
      → Recorded seen (from + 1) (set latencies from (duration now)) after
      → Recorded (now ∷ seen) from latencies after
  next-Recorded now seen from latencies after room rest = record {
    recorded = recorded_at;
    earlier = λ j lt.
        rest.earlier j (omega arith)
        ∙ get_elem?-set_ne latencies from j (duration now) (omega arith);
  }
    where
      recorded_at :
          (j : ℕ) (at : Stamps)
          → get_elem? (now ∷ seen) j ≡ some at
          → get_elem? after (from + j) ≡ some (duration at)
      recorded_at zero at e =
          let here : from + 0 ≡ from = omega arith in
          let same : now ≡ at = cc in
          rw (here, sym same)
            (rest.earlier from (omega arith)
              ∙ get_elem?-set_self latencies from (duration now) room)
      recorded_at (suc j) at e =
          let there : from + suc j ≡ from + 1 + j = omega arith in rw there (rest.recorded j at e)

  -- The requests of a thread all return as long as its array has room: it has counted each of
  -- them, modulo 2^64, and recorded its duration.
  pub run_requests-Recorded :
      (seen : List Stamps) (c record_cnt : ℕ) (latencies : List ℕ) (s : Machine M)
      → IsReady c s
      → c < 2 ^ 64
      → record_cnt + length seen ≤ length latencies
      → (after : List ℕ) × (s' : Machine M) × (run_requests calls u tid seen record_cnt latencies s
          ≡ ok (record_cnt + length seen, after, s'))
        × IsReady (u64 (c + length seen)) s'
        × Recorded seen record_cnt latencies after
  unfolding run_requests
  run_requests-Recorded [] c record_cnt latencies s w small room = (
    latencies,
    s,
    ap (λ k. ok (k, latencies, s)) (let same : record_cnt ≡ record_cnt + 0 = omega arith in same),
    subst (λ k. IsReady k s) (let same : c ≡ u64 (c + 0) = omega arith in same) w,
    record { recorded = λ j now e. cc; earlier = λ j lt. refl },
  )
  run_requests-Recorded (now ∷ seen) c record_cnt latencies s w small room =
      let (s', ran, ready) = request c now s w in
      let latencies' = set latencies record_cnt (duration now) in
      let (after, s'', rest, ready', recorded) =
        run_requests-Recorded seen (u64 (c + 1)) (record_cnt + 1) latencies' s' ready (omega arith)
          (omega (arith, length-set latencies record_cnt (duration now))) in
      let fit : ltb record_cnt (length latencies) ≡ true = ground arith in
      let last : record_cnt + 1 + length seen ≡ record_cnt + suc (length seen) = omega arith in
      let count : u64 (u64 (c + 1) + length seen) ≡ u64 (c + suc (length seen)) = omega arith in
      (
        after,
        s'',
        rw (ran, fit) (rest ∙ ap (λ k. ok (k, after, s'')) last),
        subst (λ k. IsReady k s'') count ready',
        next-Recorded now seen record_cnt latencies after (omega arith) recorded,
      )

  -- One request more than the array has room for writes behind it.
  pub run_requests_overrun :
      (seen : List Stamps) (c record_cnt : ℕ) (latencies : List ℕ) (s : Machine M)
      → IsReady c s
      → record_cnt ≤ length latencies
      → length latencies < record_cnt + length seen
      → run_requests calls u tid seen record_cnt latencies s ≡ fault out_of_bounds
  unfolding run_requests
  run_requests_overrun [] c record_cnt latencies s w fits over = absurd (omega arith)
  run_requests_overrun (now ∷ seen) c record_cnt latencies s w fits over =
      let (s', ran, ready) = request c now s w in
      elim (Bool-cases (ltb record_cnt (length latencies))) [
        | inl more ↦
            rw (ran, more)
              (run_requests_overrun seen (u64 (c + 1)) (record_cnt + 1)
                (set latencies record_cnt (duration now)) s' ready
                (ground (arith, length-set latencies record_cnt (duration now)))
                (ground (arith, length-set latencies record_cnt (duration now))))
        | inr full ↦ rw (ran, full) refl
      ]

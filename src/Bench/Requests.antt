-- ===== src/Bench/Requests.antt =====
-- The requests of one thread of litl/bench/bench_block.c, one after the other.
use htll.Common.{
  ℕ, ◌+◌, ◌*◌, ◌≡◌, ◌<◌, refl, arith, ◌∙◌, List, some, get_elem?, set, length, ok, u64,
  get_elem?-lt, Bool, Bool-cases, inl, inr, ltb, if◌then◌else◌,
}
use htll.Segment.State.{max_depth}
use htll.Segment.Nesting.{IsLocal, IsBack}
use htll.Segment.Bracket.{bracket}
use htll.Bench.Request.{LockCalls, Settings, Machine, Stamps, critical, work_on, request_normal}
use htll.Bench.Words.{Updated, access_variables-Updated}

module _ {M : Type 0} (calls : LockCalls M) (u : Settings) where
  -- The areas have the sizes that main gives them.
  pub record IsMachine (s : Machine M) : Type 0 where
    pub short_fits : length s.short_area ≡ 8 * u.short_number
    pub long_fits : length s.long_area ≡ 8 * u.long_number

  -- A lock that a thread takes and gives back.
  pub record IsFree (m : M) : Type 0 where
    pub taken : M
    pub lock : calls.lock m ≡ ok taken
    pub unlock : calls.unlock taken ≡ ok m

  abbrev pub is_short : ℕ → Bool
  is_short tid = ltb tid u.short_thread_number

  -- The area of a thread and the other one.
  abbrev pub own_area : ℕ → Machine M → List ℕ
  own_area tid s = if is_short tid then s.short_area else s.long_area

  abbrev pub other_area : ℕ → Machine M → List ℕ
  other_area tid s = if is_short tid then s.long_area else s.short_area

  abbrev pub number : ℕ → ℕ
  number tid = if is_short tid then u.short_number else u.long_number

  -- What thread `tid` does under the lock.
  record Worked (tid : ℕ) (s s' : Machine M) : Type 0 where
    pub segments : s'.segments ≡ s.segments
    pub memory : s'.memory ≡ s.memory
    pub own : Updated 0 (number tid) (own_area tid s) (own_area tid s')
    pub other : other_area tid s' ≡ other_area tid s

  work_on-Worked :
      (tid : ℕ) (s : Machine M)
      → IsMachine s
      → (s' : Machine M) × (work_on calls u tid s ≡ ok s')
        × Worked tid s s'
        × (s'.global_cnt ≡ s.global_cnt)
        × IsMachine s'
  unfolding work_on
  work_on-Worked tid s w = elim (Bool-cases (is_short tid)) [
    | inl short ↦
        let (after, ran, updated) =
          access_variables-Updated s.short_area u.short_number w.short_fits in
        (
          record s { short_area = after },
          rw (short, ran) refl,
          record { segments = refl; memory = refl; own = rw short updated; other = rw short refl },
          refl,
          record { short_fits = updated.same_length ∙ w.short_fits; long_fits = w.long_fits },
        )
    | inr long ↦
        let (after, ran, updated) =
          access_variables-Updated s.long_area u.long_number w.long_fits in
        (
          record s { long_area = after },
          rw (long, ran) refl,
          record { segments = refl; memory = refl; own = rw long updated; other = rw long refl },
          refl,
          record { short_fits = w.short_fits; long_fits = updated.same_length ∙ w.long_fits },
        )
  ]

  critical-Worked :
      (tid c : ℕ) (s : Machine M)
      → IsMachine s
      → get_elem? s.global_cnt tid ≡ some c
      → (s' : Machine M) × (critical calls u tid s ≡ ok s')
        × Worked tid s s'
        × (s'.global_cnt ≡ set s.global_cnt tid (u64 (c + 1)))
        × IsMachine s'
  unfolding critical
  critical-Worked tid c s w found =
      let (s', ran, worked, cnt, well) =
        work_on-Worked tid (record s { global_cnt = set s.global_cnt tid (u64 (c + 1)) })
          (record { short_fits = w.short_fits; long_fits = w.long_fits }) in
      (
        s',
        ground (arith, get_elem?-lt s.global_cnt tid c found, ran),
        record {
          segments = worked.segments;
          memory = worked.memory;
          own = worked.own;
          other = worked.other;
        },
        cnt,
        well,
      )

  -- What a request does: under the epoch and the lock, and behind both.
  pub record Requested (tid c : ℕ) (s s' : Machine M) : Type 0 where
    pub segments : IsBack s.segments s'.segments
    pub memory : s'.memory ≡ s.memory
    pub global_cnt : s'.global_cnt ≡ set s.global_cnt tid (u64 (c + 1))
    pub own : Updated 0 (number tid) (own_area tid s) (own_area tid s')
    pub other : other_area tid s' ≡ other_area tid s
    pub fits : IsMachine s'

  -- With a lock that can be taken and given back, a thread with a counter, and room on the stack of
  -- segments, a request returns: it leaves the lock, the current segment and the stack as they
  -- were, counts itself, adds 2 to word 7 of every variable of the thread's area, and leaves the
  -- other area alone.
  pub request_normal-Requested :
      (tid c : ℕ) (now : Stamps) (s : Machine M)
      → IsMachine s
      → IsFree s.memory
      → IsLocal s.segments
      → s.segments.depth < max_depth
      → get_elem? s.global_cnt tid ≡ some c
      → (s' : Machine M) × (request_normal calls u tid now s ≡ ok s') × Requested tid c s s'
  unfolding request_normal
  request_normal-Requested tid c now s w free l room found =
      let (r, r', started, ended, back) =
        bracket 0 now.start now.end_ u.target_latency s.segments l (omega arith) room in
      let (s', ran, worked, cnt, well) =
        critical-Worked tid c (record s { segments = r.1; memory = free.taken })
          (record { short_fits = w.short_fits; long_fits = w.long_fits }) found in
      (
        record s' { segments = r'.1; memory = s.memory },
        rw (started, free.lock, ran, worked.memory, free.unlock, worked.segments, ended) refl,
        record {
          segments = back;
          memory = refl;
          global_cnt = cnt;
          own = worked.own;
          other = worked.other;
          fits = record { short_fits = well.short_fits; long_fits = well.long_fits };
        },
      )

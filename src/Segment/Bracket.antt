-- ===== src/Segment/Bracket.antt =====
-- One epoch of litl/src/htll.c that is neither nested nor has others inside.
use htll.Common.{
  ℕ, ◌≡◌, ◌<◌, arith, ok, pos, ℤ, >>=-ok, ◌>>=◌, subst, sym, ◌∙◌, Bool-cases, is_negative, inl, inr,
}
use htll.Segment.State.{max_segment, max_depth, Local}
use htll.Segment.Ops.{segment_start, segment_end}
use htll.Segment.Nesting.{done, epoch, nesting, expect, perform, IsLocal, IsBack, perform-IsBack}

expect-ok : (r : ℤ × Local) (t : Local) → expect r ≡ ok t → r.1 ≡ t
unfolding expect
expect-ok r t e = elim (Bool-cases (is_negative r.0)) [
  | inl bad ↦ ground arith
  | inr good ↦ ground arith
]

-- The two calls of an epoch that has been performed.
perform-calls :
    (id start_ts end_ts latency : ℕ) (t u : Local)
    → perform (epoch id start_ts end_ts latency done done) t ≡ ok u
    → (r r' : ℤ × Local) × (segment_start (pos id) start_ts t ≡ ok r)
      × (segment_end (pos id) latency end_ts r.1 ≡ ok r')
      × (r'.1 ≡ u)
unfolding perform
perform-calls id start_ts end_ts latency t u ran =
    let (entered, started, rest) = >>=-ok (segment_start (pos id) start_ts t >>= expect) _ u ran in
    let (r, start_ok, expected) =
      >>=-ok (segment_start (pos id) start_ts t) expect entered started in
    let (left, ended, last) =
      >>=-ok (segment_end (pos id) latency end_ts entered >>= expect) _ u rest in
    let (r', end_ok, expected') =
      >>=-ok (segment_end (pos id) latency end_ts entered) expect left ended in
    let same : left ≡ u = cc in
    (
      r,
      r',
      start_ok,
      subst (λ x. segment_end (pos id) latency end_ts x ≡ ok r')
          (sym (expect-ok r entered expected)) end_ok,
      expect-ok r' left expected' ∙ same,
    )

-- segment_start and the segment_end that belongs to it both return, and leave the thread in the
-- segment that it was in.
pub bracket :
    (id start_ts end_ts latency : ℕ) (t : Local)
    → IsLocal t
    → id < max_segment
    → t.depth < max_depth
    → (r r' : ℤ × Local) × (segment_start (pos id) start_ts t ≡ ok r)
      × (segment_end (pos id) latency end_ts r.1 ≡ ok r')
      × IsBack t r'.1
unfolding nesting
bracket id start_ts end_ts latency t l small room =
    let (u, ran, back) =
      perform-IsBack (epoch id start_ts end_ts latency done done) t l (small, tt, tt)
        (omega arith) in
    let (r, r', start_ok, end_ok, same) = perform-calls id start_ts end_ts latency t u ran in
    (r, r', start_ok, end_ok, subst (IsBack t) (sym same) back)

-- ===== src/Epoch/Window.antt =====
-- What a request inside of a segment of litl/src/htll.c makes of the segment's window: the start
-- of the segment, a call of lock, and the end of the segment.
use htll.Common.{
  ◌||◌, ◌+◌, length, Bool-cases, inl, inr, ℕ, ◌≡◌, ◌<◌, ◌∙◌, refl, ap, sym, arith, Bool, true,
  false, some, List, [], ◌∷◌, get_elem?, set, if◌then◌else◌, ℤ, pos, ok, sub_u64, set-set,
  set-get_elem?, get_elem?-set_self, length-set, get_elem?-lt,
}
use htll.Htll.Mutex.{Mutex}
use htll.Htll.Thread.{
  Pc, first, spin, mark, nap, napping, retry, park, parked, held, Locals, move, after_nap,
}
use htll.Segment.State.{max_segment, max_depth, Segment, Local, segment_at}
use htll.Segment.Ops.{segment_start, segment_end}
use htll.Segment.Window.{ended}
use htll.Segment.Nesting.{IsLocal, entered_state, start_succeeds, left_state, end_succeeds}
use htll.Epoch.Lock.{note_waiter, sleeps_in, input_of, local_move, lock_run}

-- Whether line 86 has run in this call.
abbrev pub waited_of : Pc → Bool
waited_of (first l) = l.waited
waited_of (spin l _) = l.waited
waited_of (mark l) = l.waited
waited_of (nap l) = l.waited
waited_of (napping l) = l.waited
waited_of (retry w) = w
waited_of (park w) = w
waited_of (parked w) = w
waited_of (held w) = w
waited_of _ = false

-- In the call of lock.
abbrev pub locking : Pc → Bool
locking (first _) = true
locking (spin _ _) = true
locking (mark _) = true
locking (nap _) = true
locking (napping _) = true
locking (retry _) = true
locking (park _) = true
locking (parked _) = true
locking _ = false

abbrev pub has_returned : Pc → Bool
has_returned (held _) = true
has_returned _ = false

abbrev pub marked : Segment → Bool → Segment
marked g b = record g { has_waiter = if b then 1 else g.has_waiter }

-- The thread's state with the mark of its segment `id` set, or as it was.
abbrev pub noted : ℕ → Local → Segment → Bool → Local
noted id t g b = record t { segment = set t.segment id (marked g b) }

module _ (id : ℕ) (t : Local) (g : Segment) (cur : t.cur_segment_id ≡ pos id)
    (found : get_elem? t.segment id ≡ some g) where
  pub unmarked : {b : Bool} → b ≡ false → noted id t g b ≡ t
  unmarked {b} unset =
      rw unset (ap (λ gs. record t { segment = gs }) (set-get_elem? t.segment id g found))

  pub segment_at-noted :
      (b : Bool) → segment_at (noted id t g b) (noted id t g b).cur_segment_id ≡ ok (marked g b)
  segment_at-noted b =
      ground
        (arith, get_elem?-set_self t.segment id (marked g b) (get_elem?-lt t.segment id g found))

  note_waiter-noted : (b : Bool) → note_waiter (noted id t g b) ≡ ok (noted id t g true)
  unfolding note_waiter
  note_waiter-noted b = ground (
    arith,
    segment_at-noted b,
    get_elem?-lt t.segment id g found,
    length-set t.segment id (marked g b),
    set-set t.segment id (marked g b) (marked g true),
  )

  -- Every move of the call succeeds, and sets the mark exactly if the thread has waited.
  pub local_move-noted :
      (now : ℕ) (m : Mutex) (p : Pc)
      → locking p ≡ true
      → (m' : Mutex) × (p' : Pc) × (local_move false now m (noted id t g (waited_of p)) p
          ≡ ok (noted id t g (waited_of p'), m', p'))
        × ((locking p' || has_returned p') ≡ true)
  unfolding local_move move
  local_move-noted now m (nap l) call = elim (Bool-cases (sleeps_in (marked g l.waited) m)) [
    | inl sleeps ↦ (m, napping l, ground (arith, segment_at-noted l.waited), refl)
    | inr stays ↦ (
      m,
      first (after_nap l),
      ground (arith, segment_at-noted l.waited, note_waiter-noted l.waited),
      refl,
    )
  ]
  local_move-noted now m (napping l) call =
      (m, first (after_nap l), ground (arith, note_waiter-noted l.waited), refl)
  local_move-noted now m p call =
      let x = input_of false now (noted id t g (waited_of p)) in
      ((move x m p).0, (move x m p).1, ground arith, ground arith)

  pub lock_run-noted :
      (seen : List (ℕ × Mutex)) (p : Pc)
      → (locking p || has_returned p) ≡ true
      → (q : Pc) × (lock_run seen (noted id t g (waited_of p)) p
          ≡ ok (noted id t g (waited_of q), q))
        × ((locking q || has_returned q) ≡ true)
  unfolding lock_run
  lock_run-noted [] p call = (p, refl, call)
  lock_run-noted ((now, m) ∷ seen) (held w) call = (held w, refl, refl)
  lock_run-noted ((now, m) ∷ seen) p call =
      let (m', p', moved, call') = local_move-noted now m p (ground arith) in
      let (q, ran, still) = lock_run-noted seen p' call' in (q, rw moved ran, still)

  -- Behind the call the segment ends.
  noted-ended :
      (b : Bool) (required now d : ℕ) (c : ℤ)
      → length t.segment ≡ max_segment
      → id < max_segment
      → t.depth ≡ d + 1
      → get_elem? t.segment_stack d ≡ some c
      → segment_end (pos id) required now (noted id t g b)
        ≡ ok (pos 0, left_state id d c t (ended (marked g b) (sub_u64 now g.start_ts) required))
  unfolding left_state
  noted-ended b required now d c wide small depth top =
      end_succeeds id required now d c (noted id t g b) (marked g b) cur
        (length-set t.segment id (marked g b) ∙ wide) small
        (get_elem?-set_self t.segment id (marked g b) (get_elem?-lt t.segment id g found)) depth top
      ∙ ap (λ gs. ok (pos 0, record t { segment = gs; cur_segment_id = c; depth = d }))
          (set-set t.segment id (marked g b) (ended (marked g b) (sub_u64 now g.start_ts) required))

-- A request in a segment, from its start with a call of lock to its end: whatever states of the
-- lock the call finds and however far it gets, nothing fails, and behind the end the thread is back
-- in the segment around; of the table only the segment's entry has changed, to what the end makes
-- of it for the duration, with the mark set exactly if the thread has returned from a timed wait,
-- or had left the mark before.
pub request_window :
    (id start_ts end_ts required : ℕ) (t : Local) (g : Segment) (l : Locals)
    → IsLocal t
    → id < max_segment
    → t.depth < max_depth
    → get_elem? t.segment id ≡ some g
    → l.waited ≡ false
    → (seen : List (ℕ × Mutex))
    → (r : ℤ × Local) × (u : Local) × (q : Pc) × (v : Local) × (segment_start (pos id) start_ts t
        ≡ ok r)
      × (lock_run seen r.1 (first l) ≡ ok (u, q))
      × (segment_end (pos id) required end_ts u ≡ ok (pos 0, v))
      × (v.cur_segment_id ≡ t.cur_segment_id)
      × (v.depth ≡ t.depth)
      × (v.segment
          ≡ set t.segment id (
              ended
                (record g {
                  start_ts = start_ts;
                  has_waiter = if waited_of q then 1 else g.has_waiter;
                })
                (sub_u64 end_ts start_ts)
                required))
unfolding entered_state left_state
request_window id start_ts end_ts required t g l is_local small room found new seen =
    let g' : Segment = record g { start_ts = start_ts } in
    let t' = entered_state id start_ts t g in
    let here : get_elem? t'.segment id ≡ some g' =
      get_elem?-set_self t.segment id g' (get_elem?-lt t.segment id g found) in
    let (q, ran, _) = lock_run-noted id t' g' refl here seen (first l) refl in
    let after = ended (marked g' (waited_of q)) (sub_u64 end_ts start_ts) required in
    (
      (pos 0, t'),
      noted id t' g' (waited_of q),
      q,
      left_state id t.depth t.cur_segment_id t' after,
      start_succeeds id start_ts t g is_local room small found,
      ap (λ s. lock_run seen s (first l)) (sym (unmarked id t' g' refl here new)) ∙ ran,
      noted-ended id t' g' refl here (waited_of q) required end_ts t.depth t.cur_segment_id
          (length-set t.segment id g' ∙ is_local.segments) small refl
          (get_elem?-set_self t.segment_stack t.depth t.cur_segment_id
            (omega (arith, is_local.stack))),
      refl,
      refl,
      set-set t.segment id g' after,
    )

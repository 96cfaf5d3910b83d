-- ===== src/Epoch/Places.antt =====
-- Which accesses of threads with segments over the lock of litl/src/htll.c are in the table.
use htll.Common.{
  fault, out_of_bounds, not, ◌&&◌, ◌⊎◌, ℕ, ◌<◌, ◌≡◌, refl, arith, Bool, true, false, ◌==◌, ==_iff,
  Bool-cases, inl, inr, ℤ, pos, negsuc, eq_ℤ, ok, set, get_elem?-some, update, Outcome, subst,
}
use htll.Htll.Mutex.{Mutex}
use htll.Htll.Thread.{Pc, idle, first, spin, mark, nap, napping, retry, parked, after_nap, move}
use htll.Segment.State.{Segment, Local, minus_one, segment_at, put_segment}
use htll.Epoch.Lock.{note_waiter, sleeps_in, input_of, local_move, entry_read, checked_move, woken}
use htll.Epoch.Stacks.{
  IsId, IsStacked, put_segment-IsStacked, segment_start-IsStacked, segment_end-IsStacked,
}
use htll.Epoch.Threads.{
  Threads, Step, starts, ends, runs, wake_one, wake_none, between_calls, Reach, start, later,
}

-- The flag of line 65 is right, and only a thread in a segment is in the timed wait.
abbrev pub IsPlaced : ℤ → Pc → Type 0
IsPlaced c (first l) = l.flag ≡ eq_ℤ c minus_one
IsPlaced c (spin l _) = l.flag ≡ eq_ℤ c minus_one
IsPlaced c (mark l) = l.flag ≡ eq_ℤ c minus_one
IsPlaced c (nap l) = (l.flag ≡ eq_ℤ c minus_one) × (eq_ℤ c minus_one ≡ false)
IsPlaced c (napping l) = (l.flag ≡ eq_ℤ c minus_one) × (eq_ℤ c minus_one ≡ false)
IsPlaced c _ = Unit

abbrev Returned : Outcome (Local × Pc) → Type 0
Returned o = (r : Local × Pc) × (o ≡ ok r) × IsStacked r.0 × IsPlaced r.0.cur_segment_id r.1

note_waiter_lem :
    (t : Local) (c : ℤ)
    → t.cur_segment_id ≡ c
    → IsStacked t
    → eq_ℤ c minus_one ≡ false
    → (u : Local) × (g : Segment) × (segment_at t c ≡ ok g)
      × (note_waiter t ≡ ok u)
      × IsStacked u
      × (u.cur_segment_id ≡ c)
unfolding note_waiter
note_waiter_lem t (negsuc n) cur st inside = absurd (ground (arith, subst IsId cur st.current))
note_waiter_lem t (pos i) cur st inside =
    let valid : IsId (pos i) = subst IsId cur st.current in
    let (g, found) = get_elem?-some t.segment i (omega (arith, st.is_local.segments)) in
    let g' : Segment = record g { has_waiter = 1 } in
    let u : Local = record t { segment = set t.segment i g' } in
    let put : put_segment t (pos i) g' ≡ ok u = ground (arith, st.is_local.segments) in
    (u, g, ground arith, ground arith, put_segment-IsStacked t (pos i) g' u st put, cur)

local_move-IsPlaced :
    (try : Bool) (now : ℕ) (m : Mutex) (t : Local) (p : Pc)
    → IsStacked t
    → IsPlaced t.cur_segment_id p
    → (r : Local × Mutex × Pc) × (local_move try now m t p ≡ ok r)
      × IsStacked r.0
      × IsPlaced r.0.cur_segment_id r.2
unfolding local_move move
local_move-IsPlaced try now m t (nap l) st (flag, inside) =
    let (u, g, there, noted, st', same) = note_waiter_lem t t.cur_segment_id refl st inside in
    elim (Bool-cases (sleeps_in g m)) [
      | inl sleeps ↦ ((t, m, napping l), ground arith, st, (flag, inside))
      | inr stays ↦ ((u, m, first (after_nap l)), ground arith, st', ground arith)
    ]
local_move-IsPlaced try now m t (napping l) st (flag, inside) =
    let (u, g, there, noted, st', same) = note_waiter_lem t t.cur_segment_id refl st inside in
    ((u, m, first (after_nap l)), ground arith, st', ground arith)
local_move-IsPlaced try now m t p st placed =
    let x = input_of try now t in ((t, (move x m p).0, (move x m p).1), refl, st, ground arith)

woken-IsPlaced :
    (t : Local) (p : Pc) → IsStacked t → IsPlaced t.cur_segment_id p → Returned (woken t p)
unfolding woken
woken-IsPlaced t (napping l) st (flag, inside) =
    let (u, g, there, noted, st', same) = note_waiter_lem t t.cur_segment_id refl st inside in
    ((u, first (after_nap l)), ground arith, st', ground arith)
woken-IsPlaced t (parked w) st placed = ((t, retry w), refl, st, tt)
woken-IsPlaced t p st placed = ((t, p), refl, st, placed)

pub record Placed (n : ℕ) (s : Threads) : Type 0 where
  pub at : (i : ℕ) → i < n → IsStacked (s.local i) × IsPlaced (s.local i).cur_segment_id (s.pc i)

-- Between the calls a thread may be in any segment.
between-IsPlaced : (c : ℤ) (p : Pc) → between_calls p ≡ true → IsPlaced c p
between-IsPlaced c p e = ground arith

module _ {n : ℕ} {s : Threads} (inv : Placed n s) where
  local-Placed :
      (i : ℕ) (u : Local)
      → IsStacked u
      → between_calls (s.pc i) ≡ true
      → Placed n (record s { local = update s.local i u })
  local-Placed i u st between = record {
    at = λ j lt. elim (Bool-cases (i == j)) [
      | inl same ↦ rw same (
        st,
        between-IsPlaced u.cur_segment_id (s.pc j)
            (subst (λ k. between_calls (s.pc k) ≡ true) ((==_iff i j).0 same) between),
      )
      | inr other ↦ rw other (inv.at j lt)
    ];
  }

  both-Placed :
      (i : ℕ) (m : Mutex) (u : Local) (p : Pc)
      → IsStacked u
      → IsPlaced u.cur_segment_id p
      → Placed n (record { mem = m; pc = update s.pc i p; local = update s.local i u })
  both-Placed i m u p st placed = record {
    at = λ j lt. elim (Bool-cases (i == j)) [
      | inl same ↦ rw same (st, placed)
      | inr other ↦ rw other (inv.at j lt)
    ];
  }

  idle-Placed : (i : ℕ) → Placed n (record s { pc = update s.pc i idle })
  idle-Placed i = record {
    at = λ j lt. elim (Bool-cases (i == j)) [
      | inl same ↦ rw same ((inv.at j lt).0, tt)
      | inr other ↦ rw other (inv.at j lt)
    ];
  }

Step-Placed : {n : ℕ} {s s' : Threads} → Step n s s' → Placed n s → Placed n s'
Step-Placed {n} {s} (starts i id now {r} lt between e) inv =
    local-Placed inv i r.1 (segment_start-IsStacked id now (s.local i) r (inv.at i lt).0 e) between
Step-Placed {n} {s} (ends i id required now {r} lt between e) inv =
    local-Placed inv i r.1 (segment_end-IsStacked id required now (s.local i) r (inv.at i lt).0 e)
      between
Step-Placed {n} {s} (runs try now i {r} lt ne e) inv =
    let (r', e', st, placed) =
      local_move-IsPlaced try now s.mem (s.local i) (s.pc i) (inv.at i lt).0 (inv.at i lt).1 in
    let same : r' ≡ r = cc in
    subst
      (λ x. Placed n (record { mem = x.1; pc = update s.pc i x.2; local = update s.local i x.0 }))
      same (both-Placed inv i r'.1 r'.0 r'.2 st placed)
Step-Placed {n} {s} (wake_one i j {q} {r} li lj at a e) inv =
    let (r', e', st, placed) =
      woken-IsPlaced (s.local j) (s.pc j) (inv.at j lj).0 (inv.at j lj).1 in
    let same : r' ≡ r = cc in
    subst
      (λ (x : Local × Pc). Placed n (record {
        mem = s.mem;
        pc = update (update s.pc i idle) j x.1;
        local = update s.local j x.0;
      }))
      same (both-Placed (idle-Placed inv i) j s.mem r'.0 r'.1 st placed)
Step-Placed (wake_none i lt at quiet) inv = idle-Placed inv i

pub Reach-Placed : {n : ℕ} {t : Local} {s : Threads} → IsStacked t → Reach n t s → Placed n s
Reach-Placed st start = record { at = λ i lt. (st, tt) }
Reach-Placed st (later reach step) = Step-Placed step (Reach-Placed st reach)

-- A call of lock, not of trylock, outside of all segments.
abbrev pub calls_outside : Bool → Local → Pc → Bool
calls_outside try t idle = not try && eq_ℤ t.cur_segment_id minus_one
calls_outside try t p = false

outside-segment_at :
    (t : Local) (c : ℤ) → eq_ℤ c minus_one ≡ true → segment_at t c ≡ fault out_of_bounds
outside-segment_at t (pos i) e = absurd cc
outside-segment_at t (negsuc n) e = refl

-- Line 64 reads in the table exactly if the call is not outside of all segments.
entry_read_lem :
    (try : Bool) (t : Local) (p : Pc)
    → IsStacked t
    → ((calls_outside try t p ≡ true) × (entry_read try t p ≡ fault out_of_bounds))
      ⊎ ((calls_outside try t p ≡ false) × (entry_read try t p ≡ ok t))
unfolding entry_read
entry_read_lem true t idle st = inr (refl, refl)
entry_read_lem false t idle st = elim (Bool-cases (eq_ℤ t.cur_segment_id minus_one)) [
  | inl out ↦ inl (out, rw (outside-segment_at t t.cur_segment_id out) refl)
  | inr inside ↦
      let (_, _, there, _, _, _) = note_waiter_lem t t.cur_segment_id refl st inside in
      inr (inside, rw there refl)
]
entry_read_lem try t p st = inr (ground arith, ground arith)

-- Of any number of threads that start and end segments, nested in any way and with any ids, and
-- lock inside and outside of them, in any order, where a lock outside of all segments goes on with
-- whatever line 64 has read: in every reachable state the next move of every thread in the lock is
-- an access outside of the table of segments if it is a call of lock outside of all segments, and
-- else it returns, and the wake-up of every sleeper returns. So the read of line 64 is the only
-- access of the lock outside of the table, and it is one in each such call.
pub moves_return :
    {n : ℕ} {t : Local} {s : Threads}
    → IsStacked t
    → Reach n t s
    → (i : ℕ) → i < n
    → ((try : Bool) (now : ℕ)
        → ((calls_outside try (s.local i) (s.pc i) ≡ true)
            × (checked_move try now s.mem (s.local i) (s.pc i) ≡ fault out_of_bounds))
          ⊎ ((calls_outside try (s.local i) (s.pc i) ≡ false)
              × ((r : Local × Mutex × Pc) × (checked_move try now s.mem (s.local i) (s.pc i)
                    ≡ ok r))))
      × ((r : Local × Pc) × (woken (s.local i) (s.pc i) ≡ ok r))
unfolding checked_move
moves_return {s = s} st reach i lt =
    let (stacked, placed) = (Reach-Placed st reach).at i lt in
    let (w, back, _, _) = woken-IsPlaced (s.local i) (s.pc i) stacked placed in
    (
      λ try now.
          let (r, e, _, _) =
            local_move-IsPlaced try now s.mem (s.local i) (s.pc i) stacked placed in
          elim (entry_read_lem try (s.local i) (s.pc i) stacked) [
            | inl (out, bad) ↦ inl (out, rw bad refl)
            | inr (inside, good) ↦ inr (inside, (r, rw good e))
          ],
      (w, back),
    )

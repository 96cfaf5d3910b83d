-- ===== src/Epoch/Windows.antt =====
-- The windows of all threads in litl/src/htll.c, with the lock that marks their segments.
use htll.Common.{
  ℕ, ◌≡◌, ◌==◌, Bool, Bool-cases, inl, inr, get_elem?, set, ℤ, pos, negsuc, ok, >>=-ok, update,
  arith, Option-cases,
}
use htll.Htll.Mutex.{Mutex}
use htll.Htll.Thread.{Pc, first, nap, napping, parked, after_nap}
use htll.Segment.State.{Segment, Local, segment_at, put_segment}
use htll.Segment.Window.{
  AllWindows, set-AllWindows, segment_start-AllWindows, segment_end-AllWindows,
}
use htll.Epoch.Lock.{note_waiter, sleeps_in, local_move, woken}
use htll.Epoch.Stacks.{IsStacked}
use htll.Epoch.Places.{Reach-Placed}
use htll.Epoch.Threads.{Threads, starts, ends, runs, wake_one, wake_none, Reach, start, later}

marked-AllWindows :
    (t : Local) (i : ℤ) (g : Segment) (u : Local)
    → AllWindows t.segment
    → segment_at t i ≡ ok g
    → put_segment t i (record g { has_waiter = 1 }) ≡ ok u
    → AllWindows u.segment
marked-AllWindows t (negsuc i) g u all there e = absurd (ground arith)
marked-AllWindows t (pos i) g u all there e = elim (Option-cases (get_elem? t.segment i)) [
  | inl missing ↦ absurd (ground arith)
  | inr (h, found) ↦
      let same : u ≡ record t { segment = set t.segment i (record h { has_waiter = 1 }) } =
        ground arith in
      rw same (
        set-AllWindows t.segment i (record h { has_waiter = 1 }) (ground (arith, all i h found))
          all)
]

note_waiter-AllWindows :
    (t u : Local) → AllWindows t.segment → note_waiter t ≡ ok u → AllWindows u.segment
unfolding note_waiter
note_waiter-AllWindows t u all e =
    let (g, there, put) = >>=-ok (segment_at t t.cur_segment_id) _ u e in
    marked-AllWindows t t.cur_segment_id g u all there put

local_move-AllWindows :
    (try : Bool) (now : ℕ) (m : Mutex) (t : Local) (p : Pc) (r : Local × Mutex × Pc)
    → AllWindows t.segment
    → local_move try now m t p ≡ ok r
    → AllWindows r.0.segment
unfolding local_move
local_move-AllWindows try now m t (nap l) r all e =
    let (g, there, back) = >>=-ok (segment_at t t.cur_segment_id) _ r e in
    elim (Bool-cases (sleeps_in g m)) [
      | inl sleeps ↦ let same : r.0 ≡ t = ground arith in rw same all
      | inr stays ↦
          let (u, noted, last) =
            >>=-ok (note_waiter t) (λ t'. ok (t', m, first (after_nap l))) r (ground arith) in
          let same : r.0 ≡ u = ground arith in rw same (note_waiter-AllWindows t u all noted)
    ]
local_move-AllWindows try now m t (napping l) r all e =
    let (u, noted, last) = >>=-ok (note_waiter t) (λ t'. ok (t', m, first (after_nap l))) r e in
    let same : r.0 ≡ u = ground arith in rw same (note_waiter-AllWindows t u all noted)
local_move-AllWindows try now m t p r all e = let same : r.0 ≡ t = ground arith in rw same all

woken-AllWindows :
    (t : Local) (p : Pc) (r : Local × Pc)
    → AllWindows t.segment
    → woken t p ≡ ok r
    → AllWindows r.0.segment
unfolding woken
woken-AllWindows t (napping l) r all e =
    let (u, noted, last) = >>=-ok (note_waiter t) (λ t'. ok (t', first (after_nap l))) r e in
    let same : r.0 ≡ u = ground arith in rw same (note_waiter-AllWindows t u all noted)
woken-AllWindows t (parked w) r all e = let same : r.0 ≡ t = ground arith in rw same all
woken-AllWindows t p r all e = let same : r.0 ≡ t = ground arith in rw same all

-- One thread's state changes, to one with its windows in bounds.
update-AllWindows :
    (local : ℕ → Local) (i : ℕ) (u : Local)
    → ((j : ℕ) → AllWindows (local j).segment)
    → AllWindows u.segment
    → (j : ℕ) → AllWindows (update local i u j).segment
update-AllWindows local i u all new j = elim (Bool-cases (i == j)) [
  | inl same ↦ rw same new
  | inr other ↦ rw other (all j)
]

-- Of any number of threads that start and end segments and lock in any order: if they have the
-- windows and units at or above MIN_REORDER and MIN_ADJUST_UNIT when they start, then so they have
-- in every reachable state.
pub windows_in_bounds :
    {n : ℕ} {t : Local} {s : Threads}
    → IsStacked t
    → AllWindows t.segment
    → Reach n t s
    → (i : ℕ) → AllWindows (s.local i).segment
windows_in_bounds st all start = λ i. all
windows_in_bounds st all (later {s} reach (starts i id now {r} lt between e)) =
    let before = windows_in_bounds st all reach in
    update-AllWindows s.local i r.1 before
      (segment_start-AllWindows id now (s.local i) r (before i) e)
windows_in_bounds st all (later {s} reach (ends i id required now {r} lt between e)) =
    let before = windows_in_bounds st all reach in
    let wide = ((Reach-Placed st reach).at i lt).0.is_local.segments in
    update-AllWindows s.local i r.1 before
      (segment_end-AllWindows id required now (s.local i) r wide (before i) e)
windows_in_bounds st all (later {s} reach (runs try now i {r} lt ne e)) =
    let before = windows_in_bounds st all reach in
    update-AllWindows s.local i r.0 before
      (local_move-AllWindows try now s.mem (s.local i) (s.pc i) r (before i) e)
windows_in_bounds st all (later {s} reach (wake_one i j {q} {r} li lj at a e)) =
    let before = windows_in_bounds st all reach in
    update-AllWindows s.local j r.0 before (woken-AllWindows (s.local j) (s.pc j) r (before j) e)
windows_in_bounds st all (later reach (wake_none i lt at quiet)) = windows_in_bounds st all reach

-- ===== src/Htll/Release.antt =====
-- `htll_mutex_unlock` ends whatever the other threads do, and what it does alone.
use native.Mathlib.Nat.{zero-add, suc-add}
use htll.Common.{
  ◌∙◌, Bool-cases, ◌==◌, inl, inr, ℕ, zero, suc, ◌+◌, ◌≤◌, ◌<◌, ◌≡◌, refl, Bool, false, arith, List,
  [], ◌∷◌, length, u32,
}
use htll.Htll.Mutex.{Mutex, count_unlock, count_unlock-u}
use htll.Htll.Thread.{
  Pc, idle, held, release, cas, count, store, check, recheck, clear, count_wake, put_wake, wake,
  Input, move,
}

-- The most moves that a thread in unlock still makes.
abbrev pub moves_left : Pc → ℕ
moves_left release = 10
moves_left cas = 9
moves_left count = 8
moves_left store = 7
moves_left check = 6
moves_left recheck = 5
moves_left clear = 4
moves_left count_wake = 3
moves_left (put_wake _) = 2
moves_left wake = 1
moves_left _ = 0

-- A thread that finds the lock in the given states, one at each of its moves; it stops when its
-- call of unlock has returned.
unfoldable pub drive : List (Input × Mutex) → Pc → Pc
drive [] p = p
drive ((x, m) ∷ seen) idle = idle
drive ((x, m) ∷ seen) p = drive seen (move x m p).1

pub move-moves_left :
    (x : Input) (m : Mutex) (p : Pc)
    → 0 < moves_left p
    → (moves_left (move x m p).1 + 1 ≤ moves_left p)
      × ((moves_left (move x m p).1 ≡ 0) → (move x m p).1 ≡ idle)
unfolding move
move-moves_left x m idle h = absurd (omega arith)
move-moves_left x m p h = ground arith

drive_idle : (seen : List (Input × Mutex)) → drive seen idle ≡ idle
unfolding drive
drive_idle [] = refl
drive_idle (_ ∷ seen) = refl

-- A thread in unlock returns within ten moves of its own, whatever states of the lock the other
-- threads leave for it to find. One of the moves, `count`, stands for all accesses of lines 114-117.
pub unlock_returns :
    (seen : List (Input × Mutex)) (p : Pc)
    → 0 < moves_left p
    → moves_left p ≤ length seen
    → drive seen p ≡ idle
unfolding drive
unlock_returns [] p pos fit = absurd (omega arith)
unlock_returns ((x, m) ∷ seen) idle pos fit = absurd (omega arith)
unlock_returns ((x, m) ∷ seen) p pos fit =
    let p' = (move x m p).1 in
    let (less, done) = move-moves_left x m p pos in
    elim (Bool-cases (moves_left p' == 0)) [
      | inl none_left ↦ rw (done (ground arith)) (drive_idle seen)
      | inr more ↦ unlock_returns seen p' (ground arith) (omega arith)
    ]

-- A thread that runs alone for `k` moves.
unfoldable pub alone : ℕ → Input → Mutex → Pc → Mutex × Pc
alone zero x m p = (m, p)
alone (suc k) x m p = let (m', p') = move x m p in alone k x m' p'

-- A free lock: a call of lock takes it in two moves, and the call of unlock that follows leaves
-- the lock as it was.
pub lock-unlock :
    (x : Input) (m : Mutex)
    → m.u ≡ 0
    → x.try ≡ false
    → (alone 2 x m idle ≡ (record m { u = 1 }, held false)) × (alone 5 x m idle ≡ (m, idle))
unfolding alone move
lock-unlock x m free call = ground arith

release_marked :
    (x : Input) (m : Mutex) (w : Bool) → m.u ≡ 257 → alone 3 x m (held w) ≡ (count_unlock m, store)
unfolding alone move
release_marked x m w marked = ground arith

store_marked :
    (x : Input) (m : Mutex)
    → m.u ≡ 257
    → alone 6 x m store ≡ (record m { u = 0; cnt_wake = u32 (m.cnt_wake + 1) }, wake)
unfolding alone move
store_marked x m marked = ground arith

alone-add :
    (j k : ℕ) (x : Input) (m : Mutex) (p : Pc)
    → alone (j + k) x m p ≡ alone k x (alone j x m p).0 (alone j x m p).1
unfolding alone
alone-add zero k x m p = rw zero-add
alone-add (suc j) k x m p = rw suc-add (alone-add j k x (move x m p).0 (move x m p).1)

-- A marked lock that no other thread touches: unlock counts itself, frees both bytes, counts a
-- wake-up and comes to its call of FUTEX_WAKE, in nine moves.
pub contended_unlock :
    (x : Input) (m : Mutex) (w : Bool)
    → m.u ≡ 257
    → alone 9 x m (held w)
      ≡ (record (count_unlock m) { u = 0; cnt_wake = u32 ((count_unlock m).cnt_wake + 1) }, wake)
contended_unlock x m w marked =
    alone-add 3 6 x m (held w)
    ∙ rw (release_marked x m w marked) (store_marked x (count_unlock m) (count_unlock-u m ∙ marked))

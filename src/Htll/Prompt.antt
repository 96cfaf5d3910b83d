-- ===== src/Htll/Prompt.antt =====
-- Threads that only finish what they have begun, over the lock of litl/src/htll.c.
use htll.Common.{Bool, refl, subst, ℕ, ◌<◌, ◌≡◌, ◌≢◌, arith, true, false, none, some, update}
use htll.Htll.Thread.{Pc, idle, first, napping, wake, Locals, after_nap, Input, move, asleep}
use htll.Htll.System.{System, run, wake_one, wake_none, Reach, later}

-- A step of a thread that goes on with its call: no thread begins a new call, and none
-- returns from the untimed wait but by a wake-up.
pub data Prompt (n : ℕ) (s : System) : System → Type 0 where
  runs :
      (x : Input) (i : ℕ)
      → i < n
      → s.pc i ≢ idle
      → s.pc i ≢ wake
      → asleep (s.pc i) ≡ none
      → x.outside ≡ true
      → Prompt n s
          (record { mem = (move x s.mem (s.pc i)).0; pc = update s.pc i (move x s.mem (s.pc i)).1 })
  wakes :
      (i j : ℕ) {q : Pc}
      → i < n
      → j < n
      → s.pc i ≡ wake
      → asleep (s.pc j) ≡ some q
      → Prompt n s (record { mem = s.mem; pc = update (update s.pc i idle) j q })
  wakes_none :
      (i : ℕ)
      → i < n
      → s.pc i ≡ wake
      → ((j : ℕ) → j < n → asleep (s.pc j) ≡ none)
      → Prompt n s (record { mem = s.mem; pc = update s.pc i idle })
  -- The timeout of the timed wait.
  times_out :
      (i : ℕ) {l : Locals}
      → i < n
      → s.pc i ≡ napping l
      → Prompt n s (record { mem = s.mem; pc = update s.pc i (first (after_nap l)) })

pub data Prompts (n : ℕ) : System → System → Type 0 where
  done : {s : System} → Prompts n s s
  next : {s t u : System} → Prompt n s t → Prompts n t u → Prompts n s u

-- The stamp of a thread that goes on does not matter.
abbrev pub any_input : Input
any_input = record { try = false; outside = true; now = 0 }

pub Prompt-Reach : {n : ℕ} {r : Bool} {s t : System} → Reach n r s → Prompt n s t → Reach n r t
unfolding move
Prompt-Reach reach (runs x i lt ni ne awake out) = later reach (run x i lt ne (ground arith))
Prompt-Reach reach (wakes i j li lj at a) = later reach (wake_one i j li lj at a)
Prompt-Reach reach (wakes_none i lt at quiet) = later reach (wake_none i lt at quiet)
Prompt-Reach {n} {r} {s} reach (times_out i {l} lt at) =
    subst
      (λ p. Reach n r (record {
        mem = (move any_input s.mem p).0;
        pc = update s.pc i (move any_input s.mem p).1;
      }))
      at (later reach (run any_input i lt (λ e. ground arith) refl))

pub Prompts-Reach : {n : ℕ} {r : Bool} {s t : System} → Reach n r s → Prompts n s t → Reach n r t
Prompts-Reach reach done = reach
Prompts-Reach reach (next step steps) = Prompts-Reach (Prompt-Reach reach step) steps

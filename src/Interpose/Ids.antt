-- ===== src/Interpose/Ids.antt =====
-- The ids of the threads in litl/src/interpose.c.
use htll.Common.{
  ℕ, zero, suc, ◌+◌, ◌≤◌, ◌<◌, ◌≡◌, inl, inr, refl, ap, arith, false, leb, Outcome, ok, fault,
  stopped, Bool-cases, ◌>>=◌, List, [], ◌∷◌, get_elem?-some, length, some, u32,
}
use htll.Interpose.Startup.{Loader, take_id, max_threads, get_node, Routine, lp_start_routine}

-- `k` threads that take their ids one after another.
abbrev pub take_ids : ℕ → Loader → Outcome (List ℕ × Loader)
take_ids zero l = ok ([], l)
take_ids (suc k) l = take_id l >>= λ t. (take_ids k t.1 >>= λ r. ok (t.0 ∷ r.0, r.1))

-- The ids from `first` on.
abbrev pub ids_from : ℕ → ℕ → List ℕ
ids_from first zero = []
ids_from first (suc k) = first ∷ ids_from (first + 1) k

abbrev pub numbered : ℕ → Loader → Loader
numbered k l = record l { last_thread_id = l.last_thread_id + k }

take_id_next :
    (l : Loader) → l.last_thread_id < max_threads → take_id l ≡ ok (l.last_thread_id, numbered 1 l)
unfolding take_id
take_id_next l h =
    let free : leb max_threads l.last_thread_id ≡ false = ground arith in
    let small : u32 (l.last_thread_id + 1) ≡ l.last_thread_id + 1 = omega arith in
    rw free (ap (λ n. ok (l.last_thread_id, record l { last_thread_id = n })) small)

-- As long as there are at most MAX_THREADS threads, they get consecutive ids, which are distinct
-- and below MAX_THREADS.
pub take_ids_lem :
    (k : ℕ) (l : Loader)
    → l.last_thread_id + k ≤ max_threads
    → take_ids k l ≡ ok (ids_from l.last_thread_id k, numbered k l)
take_ids_lem zero l h =
    let same : l.last_thread_id ≡ l.last_thread_id + 0 = omega arith in
    ap (λ n. ok ([], record l { last_thread_id = n })) same
take_ids_lem (suc k) l h =
    let rest = take_ids_lem k (numbered 1 l) (omega arith) in
    let last : l.last_thread_id + 1 + k ≡ l.last_thread_id + suc k = omega arith in
    rw (take_id_next l (omega arith), rest)
      (ap
        (λ n.
          ok
            (l.last_thread_id ∷ ids_from (l.last_thread_id + 1) k, record l { last_thread_id = n }))
        last)

take_id_full : (l : Loader) → max_threads ≤ l.last_thread_id → take_id l ≡ fault stopped
unfolding take_id
take_id_full l h = ground arith

-- One thread more than MAX_THREADS ends the process.
pub take_ids_stopped :
    (k : ℕ) (l : Loader)
    → l.last_thread_id ≤ max_threads
    → max_threads < l.last_thread_id + k
    → take_ids k l ≡ fault stopped
take_ids_stopped zero l few many = absurd (omega arith)
take_ids_stopped (suc k) l few many = elim (Bool-cases (leb max_threads l.last_thread_id)) [
  | inl full ↦ rw (take_id_full l (ground arith)) refl
  | inr free ↦
      rw
        (
          take_id_next l (ground arith),
          take_ids_stopped k (numbered 1 l) (ground arith) (ground arith),
        )
        refl
]

-- A thread that has started finds a context of its own in the array of every lock, which has
-- MAX_THREADS elements.
pub lp_start_routine-get_node :
    {S A R C : Type 0} (thread_start thread_exit : S → S) (r : Routine S A R) (l l' : Loader)
    (s s' : S) (id : ℕ) (res : R) (nodes : List C)
    → length nodes ≡ max_threads
    → lp_start_routine thread_start thread_exit r l s ≡ ok ((id, res), (l', s'))
    → (c : C) × (get_node nodes id ≡ some c)
unfolding get_node lp_start_routine take_id
lp_start_routine-get_node thread_start thread_exit r l l' s s' id res nodes full e =
    get_elem?-some nodes id (ground arith)

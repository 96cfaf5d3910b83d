-- ===== src/Epoch/Stacks.antt =====
-- The ids that the segments of litl/src/htll.c keep, as the current one and on the stack.
use htll.Common.{
  ◌||◌, is_negative, is_above, eq_ℤ, sub_u64, >>=-ok, ◌>>=◌, ℕ, ◌+◌, ◌-◌, ◌<◌, ◌≤◌, ◌≡◌, ◌⊎◌, ◌∙◌,
  refl, arith, inl, inr, some, List, get_elem?, set, length, ℤ, pos, negsuc, ok, Option-cases,
  length-set, get_elem?-set_ne, ltb, get_elem?-set_self, get_elem?-lt, subst, sym, false,
  Bool-cases, ◌==◌,
}
use htll.Segment.State.{max_segment, max_depth, Segment, Local, minus_one, segment_at, put_segment}
use htll.Htll.Constants.{min_reorder, segment_req_threshold}
use htll.Segment.Ops.{segment_start, segment_end, below_minus_one, leave, end_at, adjust_window}
use htll.Segment.Nesting.{IsLocal, entered_state, start_succeeds, entered-IsLocal}

-- -1 or the index of an entry.
abbrev pub IsId : ℤ → Type 0
IsId (pos i) = i < max_segment
IsId (negsuc n) = n ≡ 0

IsId-below : (c : ℤ) → IsId c → below_minus_one c ≡ false
IsId-below (pos i) valid = refl
IsId-below (negsuc n) valid = ground arith

pub record IsStacked (t : Local) : Type 0 where
  pub is_local : IsLocal t
  pub current : IsId t.cur_segment_id
  pub depth_max : t.depth ≤ max_depth
  pub below : (k : ℕ) (c : ℤ) → k < t.depth → get_elem? t.segment_stack k ≡ some c → IsId c

-- What a call of segment_start makes of the state, if it returns.
segment_start_state :
    (id : ℤ) (now : ℕ) (t : Local) (r : ℤ × Local)
    → IsStacked t
    → segment_start id now t ≡ ok r
    → (r.1 ≡ t)
      ⊎ ((i : ℕ) × (g : Segment) × (i < max_segment)
          × (t.depth < max_depth)
          × (r.1 ≡ entered_state i now t g))
unfolding segment_start entered_state
segment_start_state (negsuc n) now t r st e = inl (ground arith)
segment_start_state (pos i) now t r st e = elim (Option-cases (get_elem? t.segment i)) [
  | inl missing ↦ inl (ground arith)
  | inr (g, found) ↦ elim (Bool-cases (ltb t.depth max_depth)) [
    | inl room ↦
        let small = get_elem?-lt t.segment i g found in
        let started =
          start_succeeds i now t g st.is_local (ground arith) (omega (arith, st.is_local.segments))
            found in
        inr (i, g, omega (arith, st.is_local.segments), ground arith, cc)
    | inr full ↦ absurd (ground (arith, get_elem?-lt t.segment i g found))
  ]
]

set-IsId :
    (xs : List ℤ) (d : ℕ) (c : ℤ)
    → d < length xs
    → ((k : ℕ) (a : ℤ) → k < d → get_elem? xs k ≡ some a → IsId a)
    → IsId c
    → (k : ℕ) (a : ℤ) → k < d + 1
    → get_elem? (set xs d c) k ≡ some a
    → IsId a
set-IsId xs d c room below valid k a lt e = elim (Bool-cases (d == k)) [
  | inl same ↦
      let new : c ≡ a = ground (arith, get_elem?-set_self xs d c room) in subst IsId new valid
  | inr other ↦ below k a (ground arith) (sym (get_elem?-set_ne xs d k c (ground arith)) ∙ e)
]

pub segment_start-IsStacked :
    (id : ℤ) (now : ℕ) (t : Local) (r : ℤ × Local)
    → IsStacked t
    → segment_start id now t ≡ ok r
    → IsStacked r.1
unfolding entered_state
segment_start-IsStacked id now t r st e = elim (segment_start_state id now t r st e) [
  | inl same ↦ rw same st
  | inr (i, g, small, room, entered) ↦ rw entered (record {
    is_local = entered-IsLocal i now t g st.is_local;
    current = small;
    depth_max = omega arith;
    below =
        set-IsId t.segment_stack t.depth t.cur_segment_id (omega (arith, st.is_local.stack))
          st.below st.current;
  })
]

-- The segment around is the current one again.
IsLeft : Local → Local → Type 0
IsLeft t u =
    ((t.depth ≡ 0) × (u ≡ record t { cur_segment_id = minus_one }))
    ⊎ ((c : ℤ) × (d : ℕ) × (t.depth ≡ d + 1)
        × (get_elem? t.segment_stack d ≡ some c)
        × (u ≡ record t { cur_segment_id = c; depth = d }))

leave-IsLeft : (t : Local) (r : ℤ × Local) → leave t ≡ ok r → IsLeft t r.1
unfolding leave IsLeft
leave-IsLeft t r e = elim (Bool-cases (t.depth == 0)) [
  | inl empty ↦ inl (ground arith, ground arith)
  | inr more ↦ elim (Option-cases (get_elem? t.segment_stack (t.depth - 1))) [
    | inl missing ↦ absurd (ground arith)
    | inr (c, found) ↦ inr (c, t.depth - 1, ground arith, found, ground arith)
  ]
]

left-IsStacked : (t u : Local) → IsStacked t → IsLeft t u → IsStacked u
unfolding IsLeft
left-IsStacked t u st (inl (empty, left)) = rw left (record {
  is_local = record { segments = st.is_local.segments; stack = st.is_local.stack; current = refl };
  current = refl;
  depth_max = st.depth_max;
  below = st.below;
})
left-IsStacked t u st (inr (c, d, depth, top, left)) = rw left (record {
  is_local = record {
    segments = st.is_local.segments;
    stack = st.is_local.stack;
    current = IsId-below c (st.below d c (omega arith) top);
  };
  current = st.below d c (omega arith) top;
  depth_max = omega (arith, st.depth_max);
  below = λ k a lt. st.below k a (omega arith);
})

-- A call of segment_end that returns either refuses, or writes the current segment and leaves it.
end_at_state :
    (id : ℤ) (required now : ℕ) (g : Segment) (t : Local) (r : ℤ × Local)
    → end_at id required now g t ≡ ok r
    → (r.1 ≡ t) ⊎ ((g' : Segment) × ((put_segment t t.cur_segment_id g' >>= leave) ≡ ok r))
unfolding end_at
end_at_state id required now g t r e = elim (Bool-cases (g.has_waiter == 0)) [
  | inl nobody ↦ inr (record g { has_waiter = 0 }, ground arith)
  | inr somebody ↦ elim (Bool-cases (ltb required segment_req_threshold)) [
    | inl fast ↦ inr (record g { wait_time = min_reorder }, ground arith)
    | inr slow ↦ elim (Bool-cases (is_negative id || is_above id max_segment)) [
      | inl wrong ↦ inl ground arith
      | inr right ↦ elim (Bool-cases (eq_ℤ id t.cur_segment_id)) [
        | inr other ↦ inl ground arith
        | inl same ↦
            let w = adjust_window g (sub_u64 now g.start_ts) required in
            inr (record g { wait_time = w.0; unit = w.1; has_waiter = 0 }, ground arith)
      ]
    ]
  ]
]

pub put_segment-IsStacked :
    (t : Local) (i : ℤ) (g : Segment) (u : Local)
    → IsStacked t
    → put_segment t i g ≡ ok u
    → IsStacked u
put_segment-IsStacked t (negsuc i) g u st e = absurd (ground arith)
put_segment-IsStacked t (pos i) g u st e =
    let same : u ≡ record t { segment = set t.segment i g } = ground arith in
    rw same (record {
      is_local = record {
        segments = length-set t.segment i g ∙ st.is_local.segments;
        stack = st.is_local.stack;
        current = st.is_local.current;
      };
      current = st.current;
      depth_max = st.depth_max;
      below = st.below;
    })

pub segment_end-IsStacked :
    (id : ℤ) (required now : ℕ) (t : Local) (r : ℤ × Local)
    → IsStacked t
    → segment_end id required now t ≡ ok r
    → IsStacked r.1
unfolding segment_end
segment_end-IsStacked id required now t r st e =
    let (g, there, at) = >>=-ok (segment_at t t.cur_segment_id) _ r e in
    elim (end_at_state id required now g t r at) [
      | inl same ↦ rw same st
      | inr (g', written) ↦
          let (t', put, left) = >>=-ok (put_segment t t.cur_segment_id g') leave r written in
          left-IsStacked t' r.1 (put_segment-IsStacked t t.cur_segment_id g' t' st put)
            (leave-IsLeft t' r left)
    ]

-- ===== src/Segment/Nesting.antt =====
-- Nested epochs in litl/src/htll.c: `segment_start` and `segment_end` as brackets.
use htll.Common.{
  ℕ, suc, ◌+◌, ◌≡◌, ◌≤◌, ◌<◌, ◌∙◌, refl, false, some, arith, get_elem?, set, length, if◌then◌else◌,
  ℤ, pos, is_negative, max, eq_ℤ_refl, Outcome, ok, fault, stopped, ◌>>=◌, get_elem?-set_self,
  get_elem?-set_ne, get_elem?-some, length-set, sub_u64, get_elem?-lt,
}
use htll.Segment.State.{max_segment, max_depth, Segment, Local}
use htll.Segment.Ops.{below_minus_one, segment_start, segment_end}
use htll.Segment.Window.{ended}

-- Nested and consecutive epochs of one thread: an id, the two time stamps, the latency that is
-- asked for, the epochs inside, and those that follow.
pub data Epochs : Type 0 where
  done : Epochs
  epoch : (id start_ts end_ts latency : ℕ) → Epochs → Epochs → Epochs

-- A client that gives up on a negative result.
unfoldable pub expect : ℤ × Local → Outcome Local
expect r = if is_negative r.0 then fault stopped else ok r.1

unfoldable pub perform : Epochs → Local → Outcome Local
unfolding expect
perform done t = ok t
perform (epoch id start_ts end_ts latency inside after) t = do
  entered ← segment_start (pos id) start_ts t >>= expect
  inner ← perform inside entered
  left ← segment_end (pos id) latency end_ts inner >>= expect
  perform after left

unfoldable pub nesting : Epochs → ℕ
nesting done = 0
nesting (epoch _ _ _ _ inside after) = max (suc (nesting inside)) (nesting after)

abbrev pub AllIds : Epochs → Type 0
AllIds done = Unit
AllIds (epoch id _ _ _ inside after) = (id < max_segment) × AllIds inside × AllIds after

-- The arrays have the lengths of their declarations, and the current segment is -1 or more.
pub record IsLocal (t : Local) : Type 0 where
  pub segments : length t.segment ≡ max_segment
  pub stack : length t.segment_stack ≡ max_depth
  pub current : below_minus_one t.cur_segment_id ≡ false

-- `u` is as `t` but for the segments, and for the stack above the depth.
pub record IsBack (t u : Local) : Type 0 where
  pub is_local : IsLocal u
  pub same_current : u.cur_segment_id ≡ t.cur_segment_id
  pub same_depth : u.depth ≡ t.depth
  pub same_stack : (k : ℕ) → k < t.depth → get_elem? u.segment_stack k ≡ get_elem? t.segment_stack k

-- The state behind `segment_start`.
unfoldable pub entered_state : (id now : ℕ) (t : Local) → Segment → Local
entered_state id now t g = record {
  segment = set t.segment id (record g { start_ts = now });
  cur_segment_id = pos id;
  segment_stack = set t.segment_stack t.depth t.cur_segment_id;
  depth = t.depth + 1;
}

pub start_succeeds :
    (id now : ℕ) (t : Local) (g : Segment)
    → IsLocal t
    → t.depth < max_depth
    → id < max_segment
    → get_elem? t.segment id ≡ some g
    → segment_start (pos id) now t ≡ ok (pos 0, entered_state id now t g)
unfolding segment_start entered_state
start_succeeds id now t g l room small found = ground arith

-- The state behind `segment_end` on a stack with `c` on top.
unfoldable pub left_state : (id d : ℕ) (c : ℤ) (t : Local) → Segment → Local
left_state id d c t g = record t { segment = set t.segment id g; cur_segment_id = c; depth = d }

pub end_succeeds :
    (id latency now d : ℕ) (c : ℤ) (t : Local) (g : Segment)
    → t.cur_segment_id ≡ pos id
    → length t.segment ≡ max_segment
    → id < max_segment
    → get_elem? t.segment id ≡ some g
    → t.depth ≡ d + 1
    → get_elem? t.segment_stack d ≡ some c
    → segment_end (pos id) latency now t
      ≡ ok (pos 0, left_state id d c t (ended g (sub_u64 now g.start_ts) latency))
unfolding segment_end ended left_state
end_succeeds id latency now d c t g cur wide small found depth top =
    ground (arith, eq_ℤ_refl (pos id), get_elem?-lt t.segment id g found)

pub entered-IsLocal :
    (id now : ℕ) (t : Local) (g : Segment) → IsLocal t → IsLocal (entered_state id now t g)
unfolding entered_state
entered-IsLocal id now t g l = record {
  segments = length-set t.segment id (record g { start_ts = now }) ∙ l.segments;
  stack = length-set t.segment_stack t.depth t.cur_segment_id ∙ l.stack;
  current = refl;
}

-- Behind the epochs inside, the top of the stack is the segment around.
entered-IsBack :
    (id now : ℕ) (t u : Local) (g : Segment)
    → IsLocal t
    → t.depth < max_depth
    → IsBack (entered_state id now t g) u
    → (u.cur_segment_id ≡ pos id)
      × (u.depth ≡ t.depth + 1)
      × (get_elem? u.segment_stack t.depth ≡ some t.cur_segment_id)
      × ((k : ℕ) → k < t.depth → get_elem? u.segment_stack k ≡ get_elem? t.segment_stack k)
unfolding entered_state
entered-IsBack id now t u g l room back = (
  back.same_current,
  back.same_depth,
  back.same_stack t.depth (omega arith)
      ∙ get_elem?-set_self t.segment_stack t.depth t.cur_segment_id (omega (arith, l.stack)),
  λ k h.
      back.same_stack k (omega arith)
      ∙ get_elem?-set_ne t.segment_stack t.depth k t.cur_segment_id (omega arith),
)

left-IsBack :
    (id : ℕ) (t u : Local) (h : Segment)
    → IsLocal t
    → IsLocal u
    → ((k : ℕ) → k < t.depth → get_elem? u.segment_stack k ≡ get_elem? t.segment_stack k)
    → IsBack t (left_state id t.depth t.cur_segment_id u h)
unfolding left_state
left-IsBack id t u h l shape below = record {
  is_local = record {
    segments = length-set u.segment id h ∙ shape.segments;
    stack = shape.stack;
    current = l.current;
  };
  same_current = refl;
  same_depth = refl;
  same_stack = below;
}

IsBack-trans : (t u v : Local) → IsBack t u → IsBack u v → IsBack t v
IsBack-trans t u v a b = record {
  is_local = b.is_local;
  same_current = b.same_current ∙ a.same_current;
  same_depth = b.same_depth ∙ a.same_depth;
  same_stack = λ k h. b.same_stack k (omega (arith, a.same_depth)) ∙ a.same_stack k h;
}

-- Nested epochs balance: from any thread-local state with room on the stack for the nesting,
-- every start and end of epochs with valid ids succeeds, and behind them the current segment, the
-- depth of the stack and what it holds are what they were.
pub perform-IsBack :
    (b : Epochs) (t : Local)
    → IsLocal t
    → AllIds b
    → t.depth + nesting b ≤ max_depth
    → (u : Local) × (perform b t ≡ ok u) × IsBack t u
unfolding perform nesting expect
perform-IsBack done t l ids room = (
  t,
  refl,
  record { is_local = l; same_current = refl; same_depth = refl; same_stack = λ k h. refl },
)
perform-IsBack (epoch id start_ts end_ts latency inside after) t l (small, ids, later_ids) room =
    let (g, found) = get_elem?-some t.segment id (omega (arith, l.segments)) in
    let space : t.depth < max_depth = omega arith in
    let started = start_succeeds id start_ts t g l space small found in
    let (u, ran, back) =
      perform-IsBack inside (entered_state id start_ts t g) (entered-IsLocal id start_ts t g l) ids
        (unfold entered_state in omega arith) in
    let (cur, depth, top, below) = entered-IsBack id start_ts t u g l space back in
    let (g', found') = get_elem?-some u.segment id (omega (arith, back.is_local.segments)) in
    let left_well =
      end_succeeds id latency end_ts t.depth t.cur_segment_id u g' cur back.is_local.segments small
        found' depth top in
    let h = ended g' (sub_u64 end_ts g'.start_ts) latency in
    let v = left_state id t.depth t.cur_segment_id u h in
    let level = left-IsBack id t u h l back.is_local below in
    let (w, rest, back') =
      perform-IsBack after v level.is_local later_ids (omega (arith, level.same_depth)) in
    (w, rw (started, ran, left_well) rest, IsBack-trans t v w level back')

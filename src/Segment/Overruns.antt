-- ===== src/Segment/Overruns.antt =====
-- Where the checks of `segment_start` in litl/src/htll.c let an index past an array through.
use htll.Common.{ℕ, ◌≡◌, ◌≤◌, ◌<◌, ◌⊎◌, arith, pos, fault, out_of_bounds, get_elem?-none}
use htll.Segment.State.{max_segment, max_depth, Local}
use htll.Segment.Ops.{segment_start}
use htll.Segment.Nesting.{IsLocal}

-- The id 256 passes the check and names an entry behind the table; and the push checks the depth
-- against 256, where the stack has 30 elements. In both cases the start of an epoch with an id
-- that is not refused writes or reads outside of an array.
pub segment_start_overruns :
    (id now : ℕ) (t : Local)
    → IsLocal t
    → id ≤ max_segment
    → t.depth < max_segment
    → (id ≡ max_segment) ⊎ (max_depth ≤ t.depth)
    → segment_start (pos id) now t ≡ fault out_of_bounds
unfolding segment_start
segment_start_overruns id now t l valid few over = ground (arith, get_elem?-none t.segment id)

-- ===== src/Concurrent/Agreement.antt =====
-- The lookups of a mutex behind its first insertion find one lock: `hash_get` of
-- litl/src/interpose.c under any interleaving.
use htll.Common.{true, subst, ==_refl, update, ℕ, ◌≡◌, ◌≢◌, refl, arith, Option, some}
use htll.Interpose.Table.{my_hash}
use htll.Concurrent.Slots.{get_key, got, stored, is_idle, System, gets, init, Steps, here, next}
use htll.Concurrent.Claims.{Knows, Inv}
use htll.Concurrent.Invariant.{Steps-Inv, init-Inv}
use htll.Concurrent.Lookups.{
  IsFirst, Follows, Step-Grows, Steps-Follows, Steps-IsFirst, Grows-Follows, stored-IsFirst,
}

-- A result stays the value of the first slot, whatever its thread does next.
Steps-Found :
    {owner : ℕ → ℕ} {s t : System} {r : Option ℕ} (m f : ℕ)
    → Inv s
    → Steps owner s t
    → Follows s.slots m f (got m r)
    → Follows t.slots m f (got m r)
Steps-Found m f inv here k = k
Steps-Found {r = r} m f inv (next {t} {u} run st) k =
    Grows-Follows t.slots u.slots (got m r) m f (Step-Grows (Steps-Inv run inv) st)
      (Steps-Found m f inv run k)

-- The state in which a thread has just called `hash_get`, as the step `gets` has it.
abbrev pub begun : ℕ → ℕ → System → System
begun a m u = record { slots = u.slots; call = update u.call a (get_key m 0) }

-- A lookup of `m` by the thread `a` begins at some time from `s` on, and has returned `r` in `t`.
pub record IsFound (owner : ℕ → ℕ) (s : System) (m a : ℕ) (r : Option ℕ) (t : System) : Type 0 where
  pub before : System
  pub since : Steps owner s before
  pub idle : is_idle (before.call a) ≡ true
  pub run : Steps owner (begun a m before) t
  pub result : t.call a ≡ got m r

IsFound-Follows :
    {owner : ℕ → ℕ} {s t : System} {r : Option ℕ} (m f a : ℕ)
    → m ≢ 0
    → Inv s
    → IsFirst s.slots m f
    → IsFound owner s m a r t
    → Inv t × Follows t.slots m f (got m r)
IsFound-Follows {owner} {s} {t} m f a nm inv first found =
    let begins : Steps owner s (begun a m found.before) =
      next found.since (gets a m found.idle nm) in
    let inv' = Steps-Inv begins inv in
    let first' = Steps-IsFirst m f nm inv begins first in
    let ahead : Follows found.before.slots m f ((begun a m found.before).call a) =
      rw (==_refl a) (λ e. omega arith) in
    (
      Steps-Inv found.run inv',
      subst (Follows t.slots m f) found.result (Steps-Follows m f a nm inv' found.run first' ahead),
    )

-- When an insertion for a mutex has returned, then whatever insertions and lookups run at the same
-- time, of this mutex or of others, all lookups of it that begin from then on and return, by any
-- threads, find one lock: if one has returned by the time `t`, and one by the time `t'` behind it,
-- then they have returned the same value, which is not NULL.
pub lookups_agree :
    {owner : ℕ → ℕ} {s t t' : System} {m p k : ℕ} {r r' : Option ℕ}
    → Steps owner init s
    → (b : ℕ) → s.call b ≡ stored m p k
    → (a a' : ℕ) → IsFound owner s m a r t
    → Steps owner t t'
    → IsFound owner s m a' r' t'
    → (v : ℕ) × (v ≢ 0) × (r ≡ some v) × (r' ≡ some v)
lookups_agree {s} {t} {t'} {m} {p} {k} reach b done a a' found run found' =
    let inv = Steps-Inv reach init-Inv in
    let known : Knows s.slots (stored m p k) = subst (Knows s.slots) done (inv.knows b) in
    let (f, first) = stored-IsFirst s.slots m p k known in
    let (inv_t, at_t) = IsFound-Follows m f a known.0 inv first found in
    let (found_it, written) = (Steps-Found m f inv_t run at_t) refl in
    let (_, at_t') = IsFound-Follows m f a' known.0 inv first found' in
    ((t'.slots (my_hash m) f).value, written, found_it, (at_t' refl).0)

-- ===== src/Interpose/Routing.antt =====
-- The functions of litl/src/interpose.c against their abstract view: a map from the address of a
-- mutex to a lock of its own.
use htll.Common.{
  ==_refl, ==_iff, sym, ap, ◌∙◌, ℕ, ◌+◌, ◌≡◌, ◌≢◌, ◌<◌, ◌⊎◌, inl, inr, refl, arith, none, some,
  ◌==◌, if◌then◌else◌, update, ok, length, Option-cases, Bool-cases,
}
use htll.Interpose.Table.{my_hash, Table, hash_put, Lookup, missing, waiting, found, hash_get}
use htll.Interpose.Buckets.{
  or_else, AllPacked, hash_put-AllPacked, hash_get-hash_put, used, hash_put-eq-none,
}
use htll.Interpose.World
use htll.Interpose.World.{LockOps}

Lookup-cases : (l : Lookup) → (l ≡ missing) ⊎ ((l ≡ waiting) ⊎ ((p : ℕ) × (l ≡ found p)))
Lookup-cases missing = inl refl
Lookup-cases waiting = inr (inl refl)
Lookup-cases (found p) = inr (inr (p, refl))

module _ (ops : LockOps) where
  open ops use {Lock, mutex_create}

  abbrev pub W : Type 0
  W = World.World ops

  -- The lock of a mutex, or a new one where it has none yet.
  pub view_of : (ℕ → Lock) → Lookup → Lock
  view_of locks (found p) = locks p
  view_of locks missing = mutex_create
  view_of locks waiting = mutex_create

  abbrev pub view : W → ℕ → Lock
  view w mutex = view_of w.locks (hash_get w.table mutex)

  -- Each mutex in the table has a lock of its own, below the next address.
  pub record IsWorld (w : W) : Type 0 where
    pub packed : AllPacked w.table
    pub not_null : 0 < w.next
    pub below : (q p : ℕ) → q ≢ 0 → hash_get w.table q ≡ found p → p < w.next
    pub written : (q : ℕ) → q ≢ 0 → hash_get w.table q ≢ waiting
    pub apart :
        (q r p : ℕ)
        → q ≢ 0
        → r ≢ 0
        → hash_get w.table q ≡ found p
        → hash_get w.table r ≡ found p
        → q ≡ r

  -- The mutex is in the table, or its row has a free entry.
  abbrev pub HasRoom : W → ℕ → Type 0
  HasRoom w m =
      ((p : ℕ) × (hash_get w.table m ≡ found p))
      ⊎ (used (w.table (my_hash m)) ≢ length (w.table (my_hash m)))

  created : (w : W) (m : ℕ) → Table → W
  created w m t = record w {
    table = t;
    locks = update w.locks w.next mutex_create;
    next = w.next + 1;
  }

  module _ (w : W) (m : ℕ) (t : Table) (inv : IsWorld w) (nm : m ≢ 0)
      (put : hash_put w.table m w.next ≡ some t) where
    lookup :
        (q : ℕ)
        → q ≢ 0
        → hash_get t q ≡ or_else (hash_get w.table q) (if m == q then found w.next else missing)
    lookup q nq =
        hash_get-hash_put w.table m w.next q nm (omega (arith, inv.not_null)) nq inv.packed put

    created-IsWorld : IsWorld (created w m t)
    unfolding created
    created-IsWorld = record {
      packed = hash_put-AllPacked w.table m w.next nm inv.packed put;
      not_null = omega arith;
      below = λ q p nq e. ground (arith, lookup q nq, inv.below q p nq);
      written = λ q nq e. ground (arith, lookup q nq, inv.written q nq);
      apart = λ q r p nq nr e f. ground (
        arith,
        lookup q nq,
        lookup r nr,
        inv.below q p nq,
        inv.below r p nr,
        inv.apart q r p nq nr,
      );
    }

    created-view : (q : ℕ) → q ≢ 0 → view (created w m t) q ≡ view w q
    unfolding created view_of
    created-view q nq = ground (arith, lookup q nq, inv.below q w.next nq, inv.written q nq)

  -- What a lookup or a creation for `m` leaves: the lock of `m` is at `p`, and no lock has changed.
  record Located (w : W) (m p : ℕ) (w' : W) : Type 0 where
    world : IsWorld w'
    at_p : hash_get w'.table m ≡ found p
    same : (q : ℕ) → q ≢ 0 → view w' q ≡ view w q

  create_stores :
      (w : W) (m : ℕ) (t : Table)
      → hash_put w.table m w.next ≡ some t
      → World.ht_lock_create ops w m ≡ ok (w.next, created w m t)
  unfolding World.ht_lock_create created
  create_stores w m t put = rw (put, World.ht_lock_create)

  no_room :
      (w : W) (m : ℕ)
      → hash_put w.table m w.next ≡ none
      → hash_get w.table m ≡ missing
      → ¬ HasRoom w m
  no_room w m full new (inl (p, old)) = cc
  no_room w m full new (inr free) = free ((hash_put-eq-none w.table m w.next).0 full)

  ht_lock_get-Located :
      (w : W) (m : ℕ)
      → IsWorld w
      → m ≢ 0
      → HasRoom w m
      → (p : ℕ) × (w' : W) × (World.ht_lock_get ops w m ≡ ok (p, w')) × Located w m p w'
  unfolding World.ht_lock_get created
  ht_lock_get-Located w m inv nm room = elim (Lookup-cases (hash_get w.table m)) [
    | inl new ↦ elim (Option-cases (hash_put w.table m w.next)) [
      | inl full ↦ absurd (no_room w m full new room)
      | inr (t, put) ↦ (
        w.next,
        created w m t,
        rw (new, World.ht_lock_get) (create_stores w m t put),
        record {
          world = created-IsWorld w m t inv nm put;
          at_p = rw (lookup w m t inv nm put m nm, new, ==_refl m);
          same = created-view w m t inv nm put;
        },
      )
    ]
    | inr (inl unwritten) ↦ absurd (inv.written m nm unwritten)
    | inr (inr (p, old)) ↦
        (p, w, rw (old, World.ht_lock_get), record { world = inv; at_p = old; same = λ q nq. refl })
  ]

  -- A call on the lock of `m`, seen through the view.
  view_of-update :
      (locks : ℕ → Lock) (p : ℕ) (v : Lock) (l : Lookup)
      → l ≢ found p
      → view_of (update locks p v) l ≡ view_of locks l
  unfolding view_of
  view_of-update locks p v missing ne = refl
  view_of-update locks p v waiting ne = refl
  view_of-update locks p v (found q) ne = elim (Bool-cases (p == q)) [
    | inl same ↦ absurd (ne (ap found (sym ((==_iff p q).0 same))))
    | inr other ↦ rw other
  ]

  pub record Routed {R : Type 0} (op : Lock → R × Lock) (w : W) (m : ℕ) (ret : R) (w' : W)
      : Type 0 where
    pub world : IsWorld w'
    pub returns : ret ≡ (op (view w m)).0
    pub here : view w' m ≡ (op (view w m)).1
    pub elsewhere : (q : ℕ) → q ≢ 0 → q ≢ m → view w' q ≡ view w q

  -- Every lock operation of the library, the waits on a condition variable among them, goes to the lock of the mutex and to no other: in a world
  -- that is well formed, on a mutex that is in the table or whose row has room, it returns what the
  -- operation returns on the lock of that mutex (a new lock, if the mutex was initialised
  -- statically), makes that lock what the operation makes of it, leaves the locks of all other
  -- mutexes alone, and leaves the world well formed.
  pub on_lock-Routed :
      {R : Type 0} (op : Lock → R × Lock) (w : W) (m : ℕ)
      → IsWorld w
      → m ≢ 0
      → HasRoom w m
      → (ret : R) × (w' : W) × (World.on_lock ops op w m ≡ ok (ret, w')) × Routed op w m ret w'
  unfolding World.on_lock view_of
  on_lock-Routed {R} op w m inv nm room =
      let (p, w₁, got, l) = ht_lock_get-Located w m inv nm room in
      let seen : view w₁ m ≡ w₁.locks p = rw (l.at_p, view_of) in
      let lock_at : w₁.locks p ≡ view w m = sym seen ∙ l.same m nm in
      let after : W = record w₁ { locks = update w₁.locks p (op (w₁.locks p)).1 } in
      (
        (op (w₁.locks p)).0,
        after,
        rw (got, World.on_lock),
        record {
          world = record {
            packed = l.world.packed;
            not_null = l.world.not_null;
            below = l.world.below;
            written = l.world.written;
            apart = l.world.apart;
          };
          returns = ap (λ s. (op s).0) lock_at;
          here = rw (l.at_p, view_of, ==_refl p) (ap (λ s. (op s).1) lock_at);
          elsewhere = λ q nq ne.
              view_of-update w₁.locks p (op (w₁.locks p)).1 (hash_get w₁.table q)
                (λ e. ne (l.world.apart q m p nq nm e l.at_p))
              ∙ l.same q nq;
        },
      )

  -- Initialisation of a mutex whose row has a free entry succeeds and changes the lock of no mutex,
  -- its own among them: a mutex that is new to the table starts with a new lock, and one that is in
  -- the table already, destroyed or not, keeps the lock that it has, in whatever state it is.
  pub init-view :
      (w : W) (m : ℕ)
      → IsWorld w
      → m ≢ 0
      → used (w.table (my_hash m)) ≢ length (w.table (my_hash m))
      → (w' : W) × (World.pthread_mutex_init ops w m ≡ ok (0, w'))
        × IsWorld w'
        × ((q : ℕ) → q ≢ 0 → view w' q ≡ view w q)
  unfolding World.pthread_mutex_init
  init-view w m inv nm free = elim (Option-cases (hash_put w.table m w.next)) [
    | inl full ↦ absurd (free ((hash_put-eq-none w.table m w.next).0 full))
    | inr (t, put) ↦ (
      created w m t,
      rw (create_stores w m t put),
      created-IsWorld w m t inv nm put,
      created-view w m t inv nm put,
    )
  ]

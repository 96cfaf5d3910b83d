-- ===== src/Concurrent/Owners.antt =====
-- Whose lock a lookup in the table of litl/src/interpose.c finds, under any interleaving.
use htll.Common.{
  ℕ, ◌+◌, ◌≡◌, ◌≢◌, inl, inr, refl, arith, none, some, ◌==◌, update, Bool-cases, leb, subst,
}
use htll.Interpose.Table.{my_hash, bucket_length}
use htll.Concurrent.Slots.{
  Slots, Call, outside, get_key, get_value, got, put_key, claim, publish, stored, refused, next_put,
  next_get, table_move, System, Step, moves, gets, puts, init, Steps, here, next,
}
use htll.Concurrent.Claims.{Knows, Grows, Inv, table_move-Grows}
use htll.Concurrent.Invariant.{Steps-Inv, init-Inv}

module _ (owner : ℕ → ℕ) where
  -- What a thread works on belongs to its mutex.
  abbrev pub Belongs : Slots → Call → Type 0
  Belongs t (get_key m i) = m ≢ 0
  Belongs t (get_value m i) = (m ≢ 0) × ((t (my_hash m) i).key ≡ m)
  Belongs t (got m (some v)) = owner v ≡ m
  Belongs t (put_key m p i) = owner p ≡ m
  Belongs t (claim m p i) = owner p ≡ m
  Belongs t (publish m p i) = owner p ≡ m
  Belongs t (stored m p i) = owner p ≡ m
  Belongs t c = Unit

  pub record IsOwned (s : System) : Type 0 where
    pub calls : (a : ℕ) → Belongs s.slots (s.call a)
    pub values : (h i : ℕ) → (s.slots h i).value ≢ 0 → owner (s.slots h i).value ≡ (s.slots h i).key

  next_put-Belongs : (t : Slots) (m p i : ℕ) → owner p ≡ m → Belongs t (next_put m p i)
  next_put-Belongs t m p i own = elim (Bool-cases (leb bucket_length i)) [
    | inl full ↦ rw full tt
    | inr more ↦ rw more own
  ]

  next_get-Belongs : (t : Slots) (m i : ℕ) → m ≢ 0 → Belongs t (next_get m i)
  next_get-Belongs t m i nm = elim (Bool-cases (leb bucket_length i)) [
    | inl full ↦ rw full tt
    | inr more ↦ rw more nm
  ]

  Grows-Belongs : (t t' : Slots) (c : Call) → Grows t t' → Belongs t c → Belongs t' c
  Grows-Belongs t t' (get_value m i) g k = (k.0, ground (arith, g.keys (my_hash m) i))
  Grows-Belongs t t' (get_key m i) g k = k
  Grows-Belongs t t' (got m (some v)) g k = k
  Grows-Belongs t t' (got m none) g k = tt
  Grows-Belongs t t' (put_key m p i) g k = k
  Grows-Belongs t t' (claim m p i) g k = k
  Grows-Belongs t t' (publish m p i) g k = k
  Grows-Belongs t t' outside g k = tt
  Grows-Belongs t t' (stored m p i) g k = k
  Grows-Belongs t t' (refused _ _) g k = tt

  -- The thread that moves, over the slots before its move.
  table_move-Belongs :
      (t : Slots) (c : Call)
      → ((h i : ℕ) → (t h i).value ≢ 0 → owner (t h i).value ≡ (t h i).key)
      → Belongs t c
      → Belongs t (table_move t c).1
  unfolding table_move
  table_move-Belongs t (get_key m i) values k = elim (Bool-cases ((t (my_hash m) i).key == m)) [
    | inl same ↦ rw same (k, ground arith)
    | inr other ↦ rw other (next_get-Belongs t m (i + 1) k)
  ]
  table_move-Belongs t (get_value m i) values k = elim (Bool-cases ((t (my_hash m) i).value == 0)) [
    | inl unwritten ↦ rw unwritten k
    | inr written ↦ rw written (ground (arith, values (my_hash m) i))
  ]
  table_move-Belongs t (got m (some v)) values k = k
  table_move-Belongs t (got m none) values k = tt
  table_move-Belongs t (put_key m p i) values k = elim (Bool-cases ((t (my_hash m) i).key == 0)) [
    | inl free ↦ rw free k
    | inr taken ↦ rw taken (next_put-Belongs t m p (i + 1) k)
  ]
  table_move-Belongs t (claim m p i) values k = elim (Bool-cases ((t (my_hash m) i).key == 0)) [
    | inl free ↦ rw free k
    | inr taken ↦ rw taken (next_put-Belongs t m p (i + 1) k)
  ]
  table_move-Belongs t (publish m p i) values k = k
  table_move-Belongs t outside values k = tt
  table_move-Belongs t (stored m p i) values k = k
  table_move-Belongs t (refused _ _) values k = tt

  table_move-values :
      (t : Slots) (c : Call)
      → Knows t c
      → Belongs t c
      → ((h i : ℕ) → (t h i).key ≡ 0 → (t h i).value ≡ 0)
      → ((h i : ℕ) → (t h i).value ≢ 0 → owner (t h i).value ≡ (t h i).key)
      → (h i : ℕ) → ((table_move t c).0 h i).value ≢ 0
      → owner ((table_move t c).0 h i).value ≡ ((table_move t c).0 h i).key
  unfolding table_move
  table_move-values t (claim m p j) k b empty values h i ne = ground (arith, empty h i, values h i)
  table_move-values t (publish m p j) k b empty values h i ne = ground (arith, values h i, k.4)
  table_move-values t c k b empty values h i ne = values h i ne

  begins-IsOwned :
      {s : System} (a : ℕ) (c : Call)
      → IsOwned s
      → Belongs s.slots c
      → IsOwned (record { slots = s.slots; call = update s.call a c })
  begins-IsOwned {s} a c o k = record {
    calls =
        λ b. elim (Bool-cases (a == b)) [ inl same ↦ rw same k | inr other ↦ rw other (o.calls b) ];
    values = o.values;
  }

  pub Step-IsOwned : {s t : System} → Inv s → Step owner s t → IsOwned s → IsOwned t
  Step-IsOwned {s} inv (moves a) o =
      let g = table_move-Grows s.slots (s.call a) (inv.empty a) in
      let c' = (table_move s.slots (s.call a)).1 in
      let t' = (table_move s.slots (s.call a)).0 in
      record {
        calls = λ b. elim (Bool-cases (a == b)) [
          | inl same ↦ rw same (
              Grows-Belongs s.slots t' c' g
                (table_move-Belongs s.slots (s.call a) o.values (o.calls a)))
          | inr other ↦ rw other (Grows-Belongs s.slots t' (s.call b) g (o.calls b))
        ];
        values =
            table_move-values s.slots (s.call a) (inv.knows a) (o.calls a) inv.written o.values;
      }
  Step-IsOwned inv (gets a m idle nm) o = begins-IsOwned a (get_key m 0) o nm
  Step-IsOwned inv (puts a m p idle nm np own) o = begins-IsOwned a (put_key m p 0) o own

  pub Steps-IsOwned : {s t : System} → Inv s → Steps owner s t → IsOwned s → IsOwned t
  Steps-IsOwned inv here o = o
  Steps-IsOwned inv (next r st) o = Step-IsOwned (Steps-Inv r inv) st (Steps-IsOwned inv r o)

  pub init-IsOwned : IsOwned init
  init-IsOwned = record { calls = λ a. tt; values = λ h i ne. absurd (ne refl) }

  -- A lookup that returns a lock returns one that was inserted for its mutex: two mutexes never
  -- share a lock.
  pub lookup-owner :
      {s : System} {m v : ℕ}
      → Steps owner init s
      → (a : ℕ) → s.call a ≡ got m (some v)
      → owner v ≡ m
  lookup-owner {s} {m} {v} run a e =
      subst (Belongs s.slots) e ((Steps-IsOwned init-Inv run init-IsOwned).calls a)

-- ===== src/Concurrent/Lookups.antt =====
-- Where the lookups of a mutex stand behind its first insertion: `hash_get` of litl/src/interpose.c under any
-- interleaving.
use htll.Common.{
  subst, ==_iff, ℕ, zero, suc, ◌+◌, ◌≡◌, ◌≢◌, ◌≤◌, ◌<◌, ◌⊎◌, inl, inr, refl, sym, arith, some, ◌==◌,
  Bool-cases, leb,
}
use htll.Interpose.Table.{my_hash, bucket_length}
use htll.Concurrent.Slots.{
  Slots, Call, outside, get_key, get_value, got, put_key, claim, publish, stored, refused, next_put,
  table_move, System, Step, moves, gets, puts, Steps, here, next,
}
use htll.Concurrent.Claims.{Knows, Grows, Inv, table_move-Grows}
use htll.Concurrent.Invariant.{Steps-Inv}

-- The first slot of a mutex is `f`: it has the key, and all slots before it have other keys.
pub record IsFirst (t : Slots) (m f : ℕ) : Type 0 where
  pub small : f < bucket_length
  pub key : (t (my_hash m) f).key ≡ m
  pub before : (j : ℕ) → j < f → ((t (my_hash m) j).key ≢ 0) × ((t (my_hash m) j).key ≢ m)

pub Step-Grows : {owner : ℕ → ℕ} {s t : System} → Inv s → Step owner s t → Grows s.slots t.slots
Step-Grows {s} inv (moves a) = table_move-Grows s.slots (s.call a) (inv.empty a)
Step-Grows inv (gets a m idle nm) = record { keys = λ h i ne. refl; values = λ h i ne. refl }
Step-Grows inv (puts a m p idle nm np own) = record {
  keys = λ h i ne. refl;
  values = λ h i ne. refl;
}

pub Grows-IsFirst : (t t' : Slots) (m f : ℕ) → m ≢ 0 → Grows t t' → IsFirst t m f → IsFirst t' m f
Grows-IsFirst t t' m f nm g first = record {
  small = first.small;
  key = ground (arith, g.keys (my_hash m) f, first.key);
  before = λ j lt. ground (arith, g.keys (my_hash m) j, first.before j lt);
}

-- Where a lookup of `m` that began behind the first insertion stands: not behind the slot `f`, and
-- it returns the value of that slot.
abbrev pub Follows : Slots → ℕ → ℕ → Call → Type 0
Follows t m f (get_key q i) = q ≡ m → i ≤ f
Follows t m f (get_value q i) = q ≡ m → i ≡ f
Follows t m f (got q r) = q ≡ m → (r ≡ some (t (my_hash m) f).value) × ((t (my_hash m) f).value ≢ 0)
Follows t m f c = Unit

next_put-Follows : (t : Slots) (m f q p i : ℕ) → Follows t m f (next_put q p i)
next_put-Follows t m f q p i = elim (Bool-cases (leb bucket_length i)) [
  | inl full ↦ rw full tt
  | inr more ↦ rw more tt
]

-- A lookup at a slot not behind the first one: it is there, or it goes on.
at_first :
    (t : Slots) (q i m f : ℕ)
    → IsFirst t m f
    → (q ≡ m → i ≤ f)
    → (t (my_hash q) i).key ≡ q
    → q ≡ m
    → i ≡ f
at_first t q i m f first k here_key e = ground (arith, k e, first.before i)

passes :
    (t : Slots) (q i m f : ℕ)
    → IsFirst t m f
    → (q ≡ m → i ≤ f)
    → (t (my_hash q) i).key ≢ q
    → q ≡ m
    → i + 1 ≤ f
passes t q i m f first k other e = elim (Bool-cases (i == f)) [
  | inl same ↦ absurd (ground (arith, first.key))
  | inr less ↦ ground (arith, k e)
]

table_move-Follows :
    (t : Slots) (c : Call) (m f : ℕ)
    → IsFirst t m f
    → Follows t m f c
    → Follows t m f (table_move t c).1
unfolding table_move
table_move-Follows t (get_key q i) m f first k = elim (Bool-cases ((t (my_hash q) i).key == q)) [
  | inl same ↦ rw same (at_first t q i m f first k (ground arith))
  | inr other ↦ elim (Bool-cases (leb bucket_length (i + 1))) [
    | inl full ↦
        rw (other, full)
          (λ e. absurd (ground (arith, passes t q i m f first k (ground arith) e, first.small)))
    | inr more ↦ rw (other, more) (passes t q i m f first k (ground arith))
  ]
]
table_move-Follows t (get_value q i) m f first k =
    elim (Bool-cases ((t (my_hash q) i).value == 0)) [
      | inl unwritten ↦ rw unwritten k
      | inr written ↦ rw written (λ e. ground (arith, k e))
    ]
table_move-Follows t outside m f first k = tt
table_move-Follows t (got q r) m f first k = k
table_move-Follows t (put_key q p i) m f first k = elim (Bool-cases ((t (my_hash q) i).key == 0)) [
  | inl free ↦ rw free tt
  | inr taken ↦ rw taken (next_put-Follows t m f q p (i + 1))
]
table_move-Follows t (claim q p i) m f first k = elim (Bool-cases ((t (my_hash q) i).key == 0)) [
  | inl free ↦ rw free tt
  | inr taken ↦ rw taken (next_put-Follows t m f q p (i + 1))
]
table_move-Follows t (publish q p i) m f first k = tt
table_move-Follows t (stored q p i) m f first k = tt
table_move-Follows t (refused q p) m f first k = tt

pub Grows-Follows :
    (t t' : Slots) (c : Call) (m f : ℕ) → Grows t t' → Follows t m f c → Follows t' m f c
Grows-Follows t t' (got q r) m f g k = λ e. ground (arith, g.values (my_hash m) f, k e)
Grows-Follows t t' (get_key q i) m f g k = k
Grows-Follows t t' (get_value q i) m f g k = k
Grows-Follows t t' outside m f g k = tt
Grows-Follows t t' (put_key _ _ _) m f g k = tt
Grows-Follows t t' (claim _ _ _) m f g k = tt
Grows-Follows t t' (publish _ _ _) m f g k = tt
Grows-Follows t t' (stored _ _ _) m f g k = tt
Grows-Follows t t' (refused _ _) m f g k = tt

-- The first slot stays, and a lookup that has it ahead follows it.
pub Step-Follows :
    {owner : ℕ → ℕ} {s t : System} (m f a : ℕ)
    → m ≢ 0
    → Inv s
    → Step owner s t
    → IsFirst s.slots m f
    → Follows s.slots m f (s.call a)
    → Follows t.slots m f (t.call a)
Step-Follows {owner} {s} m f a nm inv (moves b) first k =
    let g = table_move-Grows s.slots (s.call b) (inv.empty b) in
    let t' = (table_move s.slots (s.call b)).0 in
    elim (Bool-cases (b == a)) [
      | inl same ↦
          let own = subst (λ x. Follows s.slots m f (s.call x)) (sym ((==_iff b a).0 same)) k in
          rw same (
            Grows-Follows s.slots t' (table_move s.slots (s.call b)).1 m f g
              (table_move-Follows s.slots (s.call b) m f first own))
      | inr other ↦ rw other (Grows-Follows s.slots t' (s.call a) m f g k)
    ]
Step-Follows {s} m f a nm inv (gets b q idle nq) first k = elim (Bool-cases (b == a)) [
  | inl same ↦ rw same (λ e. omega arith)
  | inr other ↦ rw other k
]
Step-Follows {s} m f a nm inv (puts b q p idle nq np own) first k = elim (Bool-cases (b == a)) [
  | inl same ↦ rw same tt
  | inr other ↦ rw other k
]

pub Steps-IsFirst :
    {owner : ℕ → ℕ} {s t : System} (m f : ℕ)
    → m ≢ 0
    → Inv s
    → Steps owner s t
    → IsFirst s.slots m f
    → IsFirst t.slots m f
Steps-IsFirst m f nm inv here first = first
Steps-IsFirst m f nm inv (next {t} {u} run st) first =
    Grows-IsFirst t.slots u.slots m f nm (Step-Grows (Steps-Inv run inv) st)
      (Steps-IsFirst m f nm inv run first)

pub Steps-Follows :
    {owner : ℕ → ℕ} {s t : System} (m f a : ℕ)
    → m ≢ 0
    → Inv s
    → Steps owner s t
    → IsFirst s.slots m f
    → Follows s.slots m f (s.call a)
    → Follows t.slots m f (t.call a)
Steps-Follows m f a nm inv here first k = k
Steps-Follows m f a nm inv (next run st) first k =
    Step-Follows m f a nm (Steps-Inv run inv) st (Steps-IsFirst m f nm inv run first)
      (Steps-Follows m f a nm inv run first k)

-- Among the first `n` slots there is a first one of the mutex, or none at all.
search_first :
    (t : Slots) (m n : ℕ)
    → ((f : ℕ) × (f < n)
        × ((t (my_hash m) f).key ≡ m)
        × ((j : ℕ) → j < f → (t (my_hash m) j).key ≢ m))
      ⊎ ((j : ℕ) → j < n → (t (my_hash m) j).key ≢ m)
search_first t m zero = inr (λ j lt. absurd (omega arith))
search_first t m (suc n) = elim (search_first t m n) [
  | inl (f, lt, key, before) ↦ inl (f, omega arith, key, before)
  | inr none_yet ↦ elim (Bool-cases ((t (my_hash m) n).key == m)) [
    | inl same ↦ inl (n, omega arith, ground arith, none_yet)
    | inr other ↦ inr (λ j lt. elim (Bool-cases (j == n)) [
      | inl last ↦ ground arith
      | inr earlier ↦ none_yet j (ground arith)
    ])
  ]
]

-- Behind an insertion the mutex has a first slot.
pub stored-IsFirst : (t : Slots) (m p i : ℕ) → Knows t (stored m p i) → (f : ℕ) × IsFirst t m f
stored-IsFirst t m p i k = elim (search_first t m (i + 1)) [
  | inl (f, lt, key, before) ↦ (
    f,
    record {
      small = omega (arith, k.2);
      key = key;
      before = λ j less. (k.3 j (omega arith), before j less);
    },
  )
  | inr nowhere ↦ absurd (nowhere i (omega arith) k.4)
]

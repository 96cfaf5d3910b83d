-- ===== src/Interpose/Loaded.antt =====
-- Which of the pointers of litl/src/interpose.c can be called, and when.
use htll.Common.{
  ℕ, ◌==◌, ◌||◌, ◌&&◌, not, ◌≡◌, refl, arith, Bool, true, false, if◌then◌else◌, List, [], ◌∷◌, ok,
  fault, null_call, Bool-cases, inl, inr, ==_iff, ap, get_elem?, some,
}
use htll.Interpose.Load.{
  Symbol, mutex_init, mutex_destroy, mutex_lock, mutex_timedlock, mutex_trylock, mutex_unlock,
  create, cond_init, cond_destroy, cond_timedwait, cond_wait, cond_signal, cond_broadcast,
  spin_init, spin_destroy, spin_lock, spin_trylock, spin_unlock, rwlock_init, rwlock_destroy,
  rwlock_rdlock, rwlock_wrlock, rwlock_timedrdlock, rwlock_timedwrlock, rwlock_tryrdlock,
  rwlock_trywrlock, rwlock_unlock, place, Pointers, unloaded, load_func, load_order, loads,
  call_real,
}

abbrev pub is_among : Symbol → List Symbol → Bool
is_among s [] = false
is_among s (t ∷ more) = (place t == place s) || is_among s more

-- The symbols in the order of their places.
declared : List Symbol
declared =
    mutex_init ∷ mutex_destroy ∷ mutex_lock ∷ mutex_timedlock ∷ mutex_trylock ∷ mutex_unlock
    ∷ create ∷ cond_init ∷ cond_destroy ∷ cond_timedwait ∷ cond_wait ∷ cond_signal ∷ cond_broadcast
    ∷ spin_init ∷ spin_destroy ∷ spin_lock ∷ spin_trylock ∷ spin_unlock ∷ rwlock_init
    ∷ rwlock_destroy ∷ rwlock_rdlock ∷ rwlock_wrlock ∷ rwlock_timedrdlock ∷ rwlock_timedwrlock
    ∷ rwlock_tryrdlock ∷ rwlock_trywrlock ∷ rwlock_unlock ∷ []

declared-place : (s : Symbol) → get_elem? declared (place s) ≡ some s
unfolding declared
declared-place s = ground arith

place_injective : (s t : Symbol) → (place s == place t) ≡ true → s ≡ t
place_injective s t e =
    let same : place s ≡ place t = (==_iff (place s) (place t)).0 e in
    let found : get_elem? declared (place s) ≡ some s = declared-place s in
    let found' : get_elem? declared (place t) ≡ some t = declared-place t in cc

loads-real :
    (dlsym : Symbol → ℕ) (done : List Symbol) (p : Pointers) (s : Symbol)
    → (loads dlsym done p).real s ≡ (if is_among s done then dlsym s else p.real s)
unfolding loads load_func
loads-real dlsym [] p s = refl
loads-real dlsym (t ∷ more) p s = elim (Bool-cases (place t == place s)) [
  | inl same ↦ ground (
    arith,
    loads-real dlsym more (load_func dlsym true t p) s,
    ap dlsym (place_injective t s same),
  )
  | inr other ↦ ground (arith, loads-real dlsym more (load_func dlsym true t p) s)
]

loads-warnings :
    (dlsym : Symbol → ℕ) (done : List Symbol) (p : Pointers) (s : Symbol)
    → is_among s (loads dlsym done p).warnings
      ≡ (is_among s done && (dlsym s == 0)) || is_among s p.warnings
unfolding loads load_func
loads-warnings dlsym [] p s = refl
loads-warnings dlsym (t ∷ more) p s = elim (Bool-cases (place t == place s)) [
  | inl same ↦ ground (
    arith,
    loads-warnings dlsym more (load_func dlsym true t p) s,
    ap dlsym (place_injective t s same),
  )
  | inr other ↦ ground (arith, loads-warnings dlsym more (load_func dlsym true t p) s)
]

load_order-All : (s : Symbol) → is_among s load_order ≡ true
load_order-All s = ground arith

-- When the loads of `done` have been made, a call through a pointer is one of the function that
-- dlsym has found, if its load is among them and dlsym has found it, and else a call of NULL; a
-- warning has been printed for exactly the symbols of `done` that dlsym has not found; and the
-- loads of the constructor are those of all pointers.
pub loads-call :
    (dlsym : Symbol → ℕ) (done : List Symbol) (s : Symbol)
    → (call_real (loads dlsym done unloaded) s
        ≡ (if is_among s done && not (dlsym s == 0) then ok (dlsym s) else fault null_call))
      × (is_among s (loads dlsym done unloaded).warnings ≡ is_among s done && (dlsym s == 0))
      × (is_among s load_order ≡ true)
unfolding call_real
loads-call dlsym done s = (
  ground (arith, loads-real dlsym done unloaded s),
  ground (arith, loads-warnings dlsym done unloaded s),
  load_order-All s,
)

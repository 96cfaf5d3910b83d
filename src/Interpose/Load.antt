-- ===== src/Interpose/Load.antt =====
-- litl/src/interpose.h, lines 39-44, and litl/src/interpose.c, lines 181-247 and 313-339: the
-- pointers to the C library's functions, and how the constructor loads them.
use htll.Common.{
  ℕ, ◌==◌, ◌&&◌, Bool, true, if◌then◌else◌, List, [], ◌∷◌, Outcome, ok, fault, null_call,
}

-- The functions for which interpose.c has a pointer.
pub data Symbol : Type 0 where
  mutex_init mutex_destroy mutex_lock mutex_timedlock mutex_trylock mutex_unlock : Symbol
  create : Symbol
  cond_init cond_destroy cond_timedwait cond_wait cond_signal cond_broadcast : Symbol
  spin_init spin_destroy spin_lock spin_trylock spin_unlock : Symbol
  rwlock_init rwlock_destroy rwlock_rdlock rwlock_wrlock rwlock_timedrdlock : Symbol
  rwlock_timedwrlock rwlock_tryrdlock rwlock_trywrlock rwlock_unlock : Symbol

-- The place of a pointer among the declarations.
abbrev pub place : Symbol → ℕ
place mutex_init = 0
place mutex_destroy = 1
place mutex_lock = 2
place mutex_timedlock = 3
place mutex_trylock = 4
place mutex_unlock = 5
place create = 6
place cond_init = 7
place cond_destroy = 8
place cond_timedwait = 9
place cond_wait = 10
place cond_signal = 11
place cond_broadcast = 12
place spin_init = 13
place spin_destroy = 14
place spin_lock = 15
place spin_trylock = 16
place spin_unlock = 17
place rwlock_init = 18
place rwlock_destroy = 19
place rwlock_rdlock = 20
place rwlock_wrlock = 21
place rwlock_timedrdlock = 22
place rwlock_timedwrlock = 23
place rwlock_tryrdlock = 24
place rwlock_trywrlock = 25
place rwlock_unlock = 26

-- The pointers, with 0 for NULL, and the warnings that have been printed, the last one first.
pub record Pointers : Type 0 where
  pub real : Symbol → ℕ
  pub warnings : List Symbol

abbrev pub unloaded : Pointers
unloaded = record { real = λ _. 0; warnings = [] }

-- `LOAD_FUNC(name, E, pre)`, where `dlsym` gives what dlsym finds behind this library.
unfoldable pub load_func : (Symbol → ℕ) → Bool → Symbol → Pointers → Pointers
load_func dlsym loud s p = record {
  real = λ t. if place s == place t then dlsym s else p.real t;
  warnings = if loud && (dlsym s == 0) then s ∷ p.warnings else p.warnings;
}

-- Lines 313-339.
abbrev pub load_order : List Symbol
load_order =
    mutex_init ∷ mutex_destroy ∷ mutex_lock ∷ mutex_timedlock ∷ mutex_trylock ∷ mutex_unlock
    ∷ cond_timedwait ∷ cond_wait ∷ cond_broadcast ∷ cond_destroy ∷ cond_init ∷ cond_signal ∷ create
    ∷ spin_init ∷ spin_destroy ∷ spin_lock ∷ spin_trylock ∷ spin_unlock ∷ rwlock_init
    ∷ rwlock_destroy ∷ rwlock_rdlock ∷ rwlock_wrlock ∷ rwlock_timedrdlock ∷ rwlock_timedwrlock
    ∷ rwlock_tryrdlock ∷ rwlock_trywrlock ∷ rwlock_unlock ∷ []

unfoldable pub loads : (Symbol → ℕ) → List Symbol → Pointers → Pointers
unfolding load_func
loads dlsym [] p = p
loads dlsym (s ∷ more) p = loads dlsym more (load_func dlsym true s p)

-- A call of `REAL(s)`: the address that is called.
unfoldable pub call_real : Pointers → Symbol → Outcome ℕ
call_real p s = if p.real s == 0 then fault null_call else ok (p.real s)

-- ===== src/Tests/Memory.antt =====
-- The aligned blocks of litl/src/utils.c, and the pointers of litl/src/interpose.c, in concrete runs.
use native.Mathlib.Nat.{mod_self}
use htll.Common.{
  get_elem?, some, ◌<◌, ℕ, ◌+◌, ◌-◌, ◌*◌, ◌/◌, ◌%◌, ◌^◌, ◌≡◌, ◌≢◌, ◌≤◌, refl, arith, true, leb,
  ◌==◌, ◌&&◌, not, if◌then◌else◌, [], ◌∷◌, ℤ, pos, ok, fault, null_call,
}
use htll.Aligned.Alloc.{r_align, cache_align, pad_to_cache_line, alloc_cache_align}
use htll.Aligned.Lines.{MemalignLaws, r_align-div, alloc_cache_align_lem}
use htll.Aligned.Layout.{offsets, size_of}
use htll.Aligned.Structs.{cache_line_size, padded, htll_lock, upmutex_cond1, mcssteal_node}
use htll.Aligned.Separate.{padded-offsets, mcssteal-offsets, lock_lines}
use htll.Interpose.Load.{
  Symbol, place, create, mutex_init, mutex_destroy, unloaded, loads, call_real, load_order,
}
use htll.Interpose.Loaded.{is_among, loads-call}

r_align-div_example : r_align 100 (2 ^ 6) ≡ (100 + 2 ^ 6 - 1) / 2 ^ 6 * 2 ^ 6
r_align-div_example = r_align-div 6 100 (omega arith) (omega arith)

two_lines :
    (cache_align 64 100 ≡ 128) × (pad_to_cache_line 64 100 ≡ 28) × (cache_align 64 128 ≡ 128)
unfolding cache_align pad_to_cache_line
two_lines = (refl, refl, refl)

-- One block of a page, at the address of the alignment.
abbrev one_page : ℕ → ℕ → ℤ × ℕ
one_page line size = if leb size 4096 then (pos 0, line) else (pos 12, 0)

one_page-MemalignLaws : MemalignLaws one_page
one_page-MemalignLaws = record {
  granted = λ _. 4096;
  aligned = λ line size e. ground (arith, mod_self line);
  fits = λ line size e. ground arith;
  fails = λ line size ne. ground arith;
}

abbrev block : ℕ
block = 64

allocated : alloc_cache_align one_page (2 ^ 6) 100 ≡ ok block
unfolding alloc_cache_align
allocated = refl

alloc_cache_align_run :
    (block ≢ 0) × (block % 2 ^ 6 ≡ 0) × (100 ≤ one_page-MemalignLaws.granted block)
alloc_cache_align_run =
    alloc_cache_align_lem one_page one_page-MemalignLaws 6 100 block (omega arith) (omega arith)
      allocated

allocated_lock : alloc_cache_align one_page (2 ^ 6) (size_of cache_line_size htll_lock) ≡ ok block
unfolding alloc_cache_align size_of htll_lock
allocated_lock = refl

lock_lines_example :
    (320 ≤ one_page-MemalignLaws.granted block)
    × ((i : ℕ)
        → i < 5
        → (o : ℕ) × (get_elem? (offsets 0 htll_lock) (2 * i) ≡ some o)
          × ((block + o) / 64 ≡ block / 64 + i)
          × ((block + o) % 64 ≡ 0))
lock_lines_example =
    lock_lines one_page one_page-MemalignLaws 6 block (omega arith) (omega arith) allocated_lock

-- Two padded members, a pointer and an int.
padded_pair : offsets (2 ^ 6 * 0) (padded (2 ^ 6) (8 ∷ 4 ∷ [])) ≡ 0 ∷ 8 ∷ 64 ∷ 68 ∷ []
padded_pair =
    padded-offsets 6 0 (8 ∷ 4 ∷ []) (omega arith)
      (omega arith, omega arith, (8, refl), (omega arith, omega arith, (16, refl), tt))

stealing_node : offsets 0 (mcssteal_node (2 ^ 6)) ≡ 0 ∷ 8 ∷ 64 ∷ 68 ∷ 128 ∷ 132 ∷ 192 ∷ []
stealing_node = (mcssteal-offsets 6 (omega arith) (omega arith)).0

-- The fields that the functions of htll.c touch lie in the first 16 bytes.
condition_fields : offsets 0 upmutex_cond1 ≡ 0 ∷ 8 ∷ 12 ∷ 16 ∷ []
unfolding offsets upmutex_cond1
condition_fields = refl

abbrev dlsym : Symbol → ℕ
dlsym s = 1000 + place s

-- pthread_create is called while the constructor has made two of its loads.
loads-call_example :
    (call_real (loads dlsym (mutex_init ∷ mutex_destroy ∷ []) unloaded) create ≡ (
      if is_among create (mutex_init ∷ mutex_destroy ∷ []) && not (dlsym create == 0)
      then ok (dlsym create)
      else fault null_call))
    × (is_among create (loads dlsym (mutex_init ∷ mutex_destroy ∷ []) unloaded).warnings
        ≡ is_among create (mutex_init ∷ mutex_destroy ∷ []) && (dlsym create == 0))
    × (is_among create load_order ≡ true)
loads-call_example = loads-call dlsym (mutex_init ∷ mutex_destroy ∷ []) create

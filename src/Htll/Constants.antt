-- ===== src/Htll/Constants.antt =====
-- The constants of litl/include/htll.h (lines 33-52).
use htll.Common.{ℕ}

abbrev pub spin_tries_lock : ℕ
spin_tries_lock = 8192

abbrev pub spin_tries_unlock : ℕ
spin_tries_unlock = 128

abbrev pub unlocked : ℕ
unlocked = 0

abbrev pub locked : ℕ
locked = 1

abbrev pub uncontended : ℕ
uncontended = 0

abbrev pub locked_and_contended : ℕ
locked_and_contended = 257

abbrev pub adjust_threshold : ℕ
adjust_threshold = 2047

abbrev pub wake_max_threshold : ℕ
wake_max_threshold = 32

abbrev pub wake_min_threshold : ℕ
wake_min_threshold = 16

abbrev pub increase_unit : ℕ
increase_unit = 512

abbrev pub decrease_unit : ℕ
decrease_unit = 256

abbrev pub default_reorder : ℕ
default_reorder = 10000

abbrev pub min_reorder : ℕ
min_reorder = 10000

abbrev pub default_adjust_unit : ℕ
default_adjust_unit = 5000

abbrev pub min_adjust_unit : ℕ
min_adjust_unit = 1000

abbrev pub segment_req_threshold : ℕ
segment_req_threshold = 100

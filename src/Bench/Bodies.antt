-- ===== src/Bench/Bodies.antt =====
-- Where the threads of a whole run of litl/bench/bench_block.c are in access_variables.
use htll.Common.{
  ◌≤◌, ◌≢◌, ℕ, ◌+◌, ◌<◌, ◌≡◌, ◌==◌, ==_iff, refl, arith, Bool, true, false, Bool-cases, inl, inr,
  ◌||◌, if◌then◌else◌, update, subst, u64, sym,
}
use htll.Htll.Thread.{held, Input, move}
use htll.Htll.System
use htll.Bench.Access.{Area, Body, out, done, head, access_move}
use htll.Bench.Threads.{thd_num, Bench, Setup, area_of}
use htll.Bench.Threads
use htll.Bench.Run.{
  Main, creating, put_lock, Worker, absent, born, testing, requesting, working, leaving, finished,
  Run,
}

-- A thread is in access_variables only between its call of lock and its call of unlock.
abbrev pub IsOutside : Worker → Body → Type 0
IsOutside working b = Unit
IsOutside _ b = b ≡ out

pub record Inv (u : Setup) (n : ℕ) (r : Bool) (areas : ℕ → Area) (s : Run) : Type 0 where
  pub reach : Threads.Reach u n r areas s.bench
  pub outside : (i : ℕ) → IsOutside (s.worker i) (s.bench.body i)
  pub fresh : (k : ℕ) → s.main ≡ creating k → (j : ℕ) → k ≤ j → s.worker j ≡ absent
  pub others : (j : ℕ) → n ≤ j → s.worker j ≡ absent

tested : (stop : Bool) (b : Body) → b ≡ out → IsOutside (if stop then finished else requesting) b
tested true b e = e
tested false b e = e

update-IsOutside :
    (worker : ℕ → Worker) (body : ℕ → Body) (i : ℕ) (w : Worker) (b : Body)
    → ((j : ℕ) → IsOutside (worker j) (body j))
    → IsOutside w b
    → (j : ℕ) → IsOutside (update worker i w j) (update body i b j)
update-IsOutside worker body i w b all new j = elim (Bool-cases (i == j)) [
  | inl same ↦ rw same new
  | inr other ↦ rw other (all j)
]

worker-IsOutside :
    (worker : ℕ → Worker) (body : ℕ → Body) (i : ℕ) (w : Worker)
    → ((j : ℕ) → IsOutside (worker j) (body j))
    → IsOutside w (body i)
    → (j : ℕ) → IsOutside (update worker i w j) (body j)
worker-IsOutside worker body i w all new j = elim (Bool-cases (i == j)) [
  | inl same ↦ rw same (subst (λ k. IsOutside w (body k)) ((==_iff i j).0 same) new)
  | inr other ↦ rw other (all j)
]

module _ {u : Setup} {n : ℕ} {r : Bool} {areas : ℕ → Area} {s : Run} (inv : Inv u n r areas s) where
  -- What a thread was tells that it is not in access_variables.
  pub was_out : (i : ℕ) {w : Worker} → s.worker i ≡ w → IsOutside w (s.bench.body i)
  was_out i at = subst (λ v. IsOutside v (s.bench.body i)) at (inv.outside i)

  pub moved :
      (i : ℕ) (w : Worker)
      → IsOutside w (s.bench.body i)
      → i < n
      → s.worker i ≢ absent
      → (arrived : ℕ) (record_cnt : ℕ → ℕ)
      → Inv u n r areas
          (record s { worker = update s.worker i w; arrived = arrived; record_cnt = record_cnt })
  moved i w new lt there arrived record_cnt = record {
    reach = inv.reach;
    outside = worker-IsOutside s.worker s.bench.body i w inv.outside new;
    fresh = λ k at j le. elim (Bool-cases (i == j)) [
      | inl same ↦ absurd (
          there
            (subst (λ x. s.worker x ≡ absent) (sym ((==_iff i j).0 same)) (inv.fresh k at j le)))
      | inr other ↦ rw other (inv.fresh k at j le)
    ];
    others = λ j le. ground (arith, inv.others j le);
  }

  pub lock-Inv :
      (t : System.System)
      → System.Step n r s.bench.lock t
      → ((j : ℕ) (w : Bool) → s.bench.lock.pc j ≡ held w → t.pc j ≡ held w)
      → Inv u n r areas (put_lock s t)
  lock-Inv t step stay = record {
    reach = Threads.later inv.reach (Threads.locks step stay);
    outside = inv.outside;
    fresh = inv.fresh;
    others = inv.others;
  }

  pub main-Inv :
      (m : Main) (arrived : ℕ) (stop : Bool)
      → ((k : ℕ) → m ≢ creating k)
      → Inv u n r areas (record s { main = m; arrived = arrived; global_stop = stop })
  main-Inv m arrived stop later_place = record {
    reach = inv.reach;
    outside = inv.outside;
    fresh = λ k at. absurd (later_place k at);
    others = inv.others;
  }

  pub creates-Inv :
      (k : ℕ)
      → k < n
      → s.main ≡ creating k
      → Inv u n r areas (record s { main = creating (k + 1); worker = update s.worker k born })
  creates-Inv k lt at = record {
    reach = inv.reach;
    outside =
        worker-IsOutside s.worker s.bench.body k born inv.outside
          (was_out k (inv.fresh k at k (omega arith)));
    fresh = λ m e j le.
        let next : k + 1 ≡ m = ground arith in ground (arith, inv.fresh k at j (omega arith));
    others = λ j le. ground (arith, inv.others j le);
  }

  pub counts-Inv :
      (i : ℕ) (w : Bool)
      → i < n
      → i < thd_num
      → s.worker i ≡ requesting
      → s.bench.lock.pc i ≡ held w
      → Inv u n r areas (record s {
        worker = update s.worker i working;
        bench = record s.bench {
          global_cnt = update s.bench.global_cnt i (u64 (s.bench.global_cnt i + 1));
          body = update s.bench.body i (head (u.number (area_of u i)) (area_of u i) 0);
        };
      })
  counts-Inv i w lt small at owner = record {
    reach = Threads.later inv.reach (Threads.begins i lt small owner (was_out i at));
    outside =
        update-IsOutside s.worker s.bench.body i working
          (head (u.number (area_of u i)) (area_of u i) 0) inv.outside tt;
    fresh = λ k e j le. elim (Bool-cases (i == j)) [
      | inl same ↦ absurd (ground (arith, inv.fresh k e j le))
      | inr other ↦ rw other (inv.fresh k e j le)
    ];
    others = λ j le. ground (arith, inv.others j le);
  }

  pub works-Inv :
      (i : ℕ)
      → i < n
      → s.worker i ≡ working
      → Inv u n r areas (record s {
        bench = record s.bench {
          areas = (access_move u.number s.bench.areas (s.bench.body i)).0;
          body = update s.bench.body i (access_move u.number s.bench.areas (s.bench.body i)).1;
        };
      })
  works-Inv i lt at = record {
    reach = Threads.later inv.reach (Threads.works i lt);
    outside = λ j. elim (Bool-cases (i == j)) [
      | inl same ↦ rw same (
          subst
            (λ k. IsOutside (s.worker k) (access_move u.number s.bench.areas (s.bench.body i)).1)
            ((==_iff i j).0 same) (rw at tt))
      | inr other ↦ rw other (inv.outside j)
    ];
    fresh = inv.fresh;
    others = inv.others;
  }

  pub unlocks-Inv :
      (x : Input) (i : ℕ) (w : Bool)
      → i < n
      → (x.outside || r) ≡ true
      → s.worker i ≡ working
      → s.bench.lock.pc i ≡ held w
      → s.bench.body i ≡ done
      → Inv u n r areas (record s {
        worker = update s.worker i leaving;
        bench = record s.bench {
          lock = record {
            mem = (move x s.bench.lock.mem (held w)).0;
            pc = update s.bench.lock.pc i (move x s.bench.lock.mem (held w)).1;
          };
          body = update s.bench.body i out;
        };
      })
  unlocks-Inv x i w lt ok at owner ended = record {
    reach = Threads.later inv.reach (Threads.unlocks x i lt owner ended ok);
    outside = update-IsOutside s.worker s.bench.body i leaving out inv.outside refl;
    fresh = λ k e j le. elim (Bool-cases (i == j)) [
      | inl same ↦ absurd (ground (arith, inv.fresh k e j le))
      | inr other ↦ rw other (inv.fresh k e j le)
    ];
    others = λ j le. ground (arith, inv.others j le);
  }

  pub tests-Inv :
      (i : ℕ)
      → i < n
      → s.worker i ≡ testing
      → Inv u n r areas
          (record s { worker = update s.worker i (if s.global_stop then finished else requesting) })
  tests-Inv i lt at =
      moved i (if s.global_stop then finished else requesting)
        (tested s.global_stop (s.bench.body i) (was_out i at)) lt (λ e. ground arith) s.arrived
        s.record_cnt

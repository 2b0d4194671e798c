-- ===== src/Bench/Walk.antt =====
-- The benchmark goes through the algorithms once and ends.
use ccminer.Common.{
  ℕ, zero, suc, ◌+◌, ◌≤◌, ◌<◌, ◌≡◌, refl, Bool, true, false, not, ◌&&◌, ◌||◌, List, [], ◌∷◌, arith,
  ltb, leb, ◌==◌, if◌then◌else◌, Bool-cases, inl, inr,
}
use ccminer.Common.Table.{tested, tested_lem}
use ccminer.Algos.{ShaAlgos, to_int}
use ccminer.Bench.{Bench, next_algo, duplicated, unwanted, bench_algo_switch_next, is_old_device}
use ccminer.Float.{Arith}
use ccminer.Stats.{Globals, get_speed, purge_all}
use ccminer.Common.Int.{pos}

abbrev pub contains : List ℕ → ℕ → Bool
contains [] algo = false
contains (a ∷ rest) algo = algo == a || contains rest algo

advances : Bool → ℕ → Bool
advances old algo = ltb algo (next_algo old algo) && leb (next_algo old algo) (to_int ShaAlgos.auto)

advances_table : (tested 71 (advances true) ≡ true) × (tested 71 (advances false) ≡ true)
unfolding tested advances next_algo
advances_table = (refl, refl)

next_algo_bounds :
    (old : Bool) (algo : ℕ)
    → algo < to_int ShaAlgos.auto
    → (algo < next_algo old algo) × (next_algo old algo ≤ to_int ShaAlgos.auto)
unfolding advances
next_algo_bounds true algo h = ground (arith, tested_lem 71 (advances true) algo advances_table.0 h)
next_algo_bounds false algo h =
    ground (arith, tested_lem 71 (advances false) algo advances_table.1 h)

skips : ℕ → Bool
skips algo =
    not (contains duplicated (next_algo false algo) || contains unwanted (next_algo false algo))

skips_table : tested 71 skips ≡ true
unfolding tested skips next_algo
skips_table = refl

-- From any algorithm before the last, the next one is further on and at most the last, and on a
-- device that is not old it is none of those that are to be left out.
pub next_algo_lem :
    (algo : ℕ)
    → algo < to_int ShaAlgos.auto
    → (algo < next_algo false algo)
      × (next_algo false algo ≤ to_int ShaAlgos.auto)
      × (contains duplicated (next_algo false algo) ≡ false)
      × (contains unwanted (next_algo false algo) ≡ false)
unfolding skips
next_algo_lem algo h =
    let (up, top) = next_algo_bounds false algo h in
    let out = tested_lem 71 skips algo skips_table h in
    (up, top, ground (arith, out), ground (arith, out))

-- On an old device the walk stops at an algorithm that every device was to leave out.
pub old_device_runs_heavy : next_algo true (to_int ShaAlgos.fugue256) ≡ to_int ShaAlgos.heavy
unfolding next_algo
old_device_runs_heavy = refl

module _ (fp : Arith) (g : Globals) (device_sm : ℕ → ℕ) (thr_id : ℕ) where
  -- The calls until one returns false: the number of algorithms that were measured.
  pub rounds : ℕ → Bench → ℕ × Bool
  rounds zero b = (0, false)
  rounds (suc fuel) b =
      let (b', more) = bench_algo_switch_next fp g device_sm thr_id b in
      let rest = rounds fuel b' in if more then (rest.0 + 1, rest.1) else (1, true)

  -- From any algorithm before the last, the calls come to an end within as many as there are
  -- algorithms left.
  pub rounds_end :
      (fuel : ℕ) (b : Bench)
      → b.opt_algo < to_int ShaAlgos.auto
      → to_int ShaAlgos.auto ≤ b.opt_algo + fuel
      → (rounds fuel b).1 ≡ true
  unfolding rounds bench_algo_switch_next
  rounds_end zero b h f = absurd (omega arith)
  rounds_end (suc fuel) b h f =
      let old = is_old_device g device_sm thr_id in
      let next = next_algo_bounds old b.opt_algo h in
      elim (Bool-cases (next_algo old b.opt_algo == to_int ShaAlgos.auto)) [
        | inl last ↦ rw last refl
        | inr more ↦ rw more (rounds_end fuel _ (ground arith) (ground arith))
      ]

  -- A call stores the thread's speed for the algorithm that was measured. Unless that was the last
  -- one it goes on to the next, without the old records of speeds and rates.
  pub bench_algo_switch_next_lem :
      (b : Bench)
      → let (b', more) = bench_algo_switch_next fp g device_sm thr_id b in
        let next = next_algo (is_old_device g device_sm thr_id) b.opt_algo in
        (b'.algo_hashrates thr_id b.opt_algo
          ≡ get_speed fp g (pos thr_id) (b.thr_hashrates thr_id) b.stats)
        × (more ≡ not (next == to_int ShaAlgos.auto))
        × (b'.opt_algo ≡ (if more then next else b.opt_algo))
        × (more ≡ true → (b'.stats.scans ≡ []) × (b'.global_hashrate ≡ 0))
  unfolding bench_algo_switch_next purge_all
  bench_algo_switch_next_lem b =
      (ground arith, ground arith, ground arith, λ h. (ground arith, ground arith))

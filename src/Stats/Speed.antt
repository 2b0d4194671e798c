-- ===== src/Stats/Speed.antt =====
-- The average speed against a description by lists.
use ccminer.Common.{
  ℕ, zero, suc, ◌+◌, ◌≡◌, List, [], ◌∷◌, arith, take, length, reverse, if◌then◌else◌, ◌==◌,
}
use mathlib.Core.List.{foldl}
use ccminer.Common.Int.{ℤ, negsuc, eq_int}
use ccminer.Common.Omap.{Map}
use ccminer.Float.{Arith}
use ccminer.Stats.{StatsData, Stats, Globals, is_sample, sum_samples, get_speed}
use ccminer.Float.{Double}

-- The rates of the entries that count for a thread, in the order of the list.
pub samples : ℤ → Map StatsData → List Double
samples thr_id [] = []
samples thr_id ((k, e) ∷ scans) =
    let more = samples thr_id scans in if is_sample thr_id e then e.hashrate ∷ more else more

module _ (fp : Arith) where
  sum_samples_lem :
      (thr_id : ℤ) (room : ℕ) (speed : Double) (records : ℕ) (scans : Map StatsData)
      → sum_samples fp thr_id room speed records scans ≡ (
        foldl fp.add speed (take room (samples thr_id scans)),
        records + length (take room (samples thr_id scans)),
      )
  unfolding sum_samples samples
  sum_samples_lem thr_id zero speed records scans = ground arith
  sum_samples_lem thr_id (suc room) speed records [] = ground arith
  sum_samples_lem thr_id (suc room) speed records ((k, e) ∷ scans) = ground (
    arith,
    sum_samples_lem thr_id room (fp.add speed e.hashrate) (records + 1) scans,
    sum_samples_lem thr_id (suc room) speed records scans,
  )

  -- The speed is the mean of the newest `opt_statsavg` samples of the thread, summed from the
  -- newest on, or the default where there is none; for all threads, times the number of threads.
  pub get_speed_lem :
      (g : Globals) (thr_id : ℤ) (def_speed : Double) (s : Stats)
      → let rates = take g.opt_statsavg (samples thr_id (reverse s.scans)) in
        let mean = fp.div (foldl fp.add (fp.of_int 0) rates) (fp.of_int (length rates)) in
        let one = (if length rates == 0 then def_speed else mean) in
        get_speed fp g thr_id def_speed s
        ≡ (if eq_int thr_id (negsuc 0) then fp.mul one (fp.of_int g.opt_n_threads) else one)
  unfolding get_speed
  get_speed_lem g thr_id def_speed s =
      rw (sum_samples_lem thr_id g.opt_statsavg (fp.of_int 0) 0 (reverse s.scans)) (ground arith)

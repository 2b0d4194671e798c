-- ===== src/Stats.antt =====
-- stats.cpp: the speeds that the threads measured. The std::map and `uid` are the state that each
-- function takes and returns. Doubles are bit patterns; their arithmetic, which the compiler gives,
-- is an argument.
pub mod Speed
pub mod Records
mod Tests
use ccminer.Common.{
  ℕ, zero, suc, ◌+◌, ◌-◌, ◌*◌, ◌%◌, ◌^◌, Bool, true, false, not, ◌&&◌, ◌||◌, List, [], ◌∷◌, reverse,
  ltb, ◌==◌, if◌then◌else◌, length,
}
use ccminer.Common.Int.{ℤ, pos, negsuc, eq_int}
use ccminer.Common.Omap.{Map, insert, retain}
use ccminer.Float.{Double, Arith}

pub record StatsData : Type 0 where
  pub uid : ℕ
  pub tm_stat : ℕ
  pub hashcount : ℕ
  pub height : ℕ
  pub difficulty : Double
  pub hashrate : Double
  pub thr_id : ℕ
  pub gpu_id : ℕ
  pub hashfound : ℕ
  pub ignored : ℕ
  pub npool : ℕ
  pub pool_type : ℕ
  pub globalhashcount : ℕ

pub record Stats : Type 0 where
  pub uid : ℕ
  pub scans : Map StatsData

-- What the functions read of the program's globals.
pub record Globals : Type 0 where
  pub device_map : ℕ → ℕ
  pub cur_pooln : ℕ
  pub pool_type : ℕ
  pub net_diff : Double
  pub stratum_diff : Double
  pub global_hashrate : ℕ
  pub opt_n_threads : ℕ
  pub opt_statsavg : ℕ

module _ (fp : Arith) (g : Globals) where
  open fp use {add, mul, div, lt, is_zero, of_int, decimal}

  -- A rate far from the global one is not counted.
  is_erroneous : ℕ → Double → Bool
  is_erroneous uid hashrate =
      let ratio = div hashrate (mul (of_int 1) (of_int g.global_hashrate)) in
      (g.opt_n_threads == 1 && (not (g.global_hashrate == 0) && ltb 10 uid))
      && (lt ratio (decimal 4 10) || lt (decimal 16 10) ratio)

  pub speed_data : ℕ → ℕ → ℕ → ℕ → Double → ℕ → ℕ → StatsData
  unfolding is_erroneous
  speed_data uid now thr_id hashcount hashrate found height = record {
    uid = uid % 2 ^ 32;
    tm_stat = now % 2 ^ 32;
    hashcount = hashcount;
    height = height;
    difficulty = if is_zero g.net_diff then g.stratum_diff else g.net_diff;
    hashrate = hashrate;
    thr_id = thr_id % 256;
    gpu_id = g.device_map thr_id % 256;
    hashfound = found;
    ignored = if is_erroneous uid hashrate then 1 else 0;
    npool = g.cur_pooln % 256;
    pool_type = g.pool_type;
    globalhashcount = g.global_hashrate % 2 ^ 32;
  }

  -- `uid` grows also where the call returns early.
  unfoldable pub remember_speed : ℕ → ℕ → ℕ → Double → ℕ → ℕ → Stats → Stats
  unfolding speed_data
  remember_speed now thr_id hashcount hashrate found height s =
      let next = (s.uid + 1) % 2 ^ 64 in
      if ltb hashcount 1000 || lt hashrate (decimal 1 100)
      then record s { uid = next }
      else record {
        uid = next;
        scans = insert s.uid (speed_data next now thr_id hashcount hashrate found height) s.scans;
      }

-- `!ignored` and `thr_id == -1 || i->second.thr_id == thr_id`
pub is_of_thread : ℤ → StatsData → Bool
is_of_thread thr_id e = e.ignored == 0 && (eq_int thr_id (negsuc 0) || eq_int (pos e.thr_id) thr_id)

pub is_sample : ℤ → StatsData → Bool
unfolding is_of_thread
is_sample thr_id e = is_of_thread thr_id e && ltb 1000 e.hashcount

module _ (fp : Arith) where
  -- The loop of get_speed over the entries by falling key: how many more are wanted, the sum and
  -- the number so far.
  sum_samples : ℤ → ℕ → Double → ℕ → Map StatsData → Double × ℕ
  unfolding is_sample
  sum_samples thr_id zero speed records scans = (speed, records)
  sum_samples thr_id (suc room) speed records [] = (speed, records)
  sum_samples thr_id (suc room) speed records ((k, e) ∷ scans) = elim (is_sample thr_id e) [
    | true ↦ sum_samples thr_id room (fp.add speed e.hashrate) (records + 1) scans
    | false ↦ sum_samples thr_id (suc room) speed records scans
  ]

  -- The average, the default where there is no sample, and the factor for all threads.
  average : Globals → ℤ → Double → Double × ℕ → Double
  average g thr_id def_speed (speed, records) =
      let one = (if records == 0 then def_speed else fp.div speed (fp.of_int records)) in
      if eq_int thr_id (negsuc 0) then fp.mul one (fp.of_int g.opt_n_threads) else one

  unfoldable pub get_speed : Globals → ℤ → Double → Stats → Double
  unfolding sum_samples average
  get_speed g thr_id def_speed s =
      average g thr_id def_speed
        (sum_samples thr_id g.opt_statsavg (fp.of_int 0) 0 (reverse s.scans))

  -- The loop of get_gpu_speed: the threads left, the thread and the sum so far.
  sum_threads : Globals → ℤ → Stats → ℕ → ℕ → Double → Double
  unfolding get_speed
  sum_threads g gpu_id s zero thr_id speed = speed
  sum_threads g gpu_id s (suc left) thr_id speed = sum_threads g gpu_id s left (thr_id + 1) (
      if eq_int gpu_id (negsuc 0) || eq_int (pos (g.device_map thr_id)) gpu_id
      then fp.add speed (get_speed g (pos thr_id) (fp.of_int 0) s)
      else speed)

  unfoldable pub get_gpu_speed : Globals → ℤ → Stats → Double
  unfolding sum_threads
  get_gpu_speed g gpu_id s = sum_threads g gpu_id s g.opt_n_threads 0 (fp.of_int 0)

history : ℤ → ℕ → Map StatsData → List StatsData
unfolding is_of_thread
history thr_id zero scans = []
history thr_id (suc room) [] = []
history thr_id (suc room) ((k, e) ∷ scans) = elim (is_of_thread thr_id e) [
  | true ↦ e ∷ history thr_id room scans
  | false ↦ history thr_id (suc room) scans
]

unfoldable pub get_history : ℤ → ℕ → Stats → List StatsData
unfolding history
get_history thr_id max_records s = history thr_id max_records (reverse s.scans)

-- STATS_PURGE_TIMEOUT, in seconds
abbrev pub purge_timeout : ℕ
purge_timeout = 120 * 60

pub is_stale : ℕ → StatsData → Bool
is_stale now e =
    not (e.ignored == 0) || ltb purge_timeout ((now % 2 ^ 32 + 2 ^ 32 - e.tm_stat) % 2 ^ 32)

unfoldable pub purge_old : ℕ → Stats → Stats
unfolding is_stale
purge_old now s = record s { scans = retain (λ k e. not (is_stale now e)) s.scans }

unfoldable pub purge_all : Stats → Stats
purge_all s = record s { scans = [] }

-- sizeof(stats_data)
abbrev pub record_size : ℕ
record_size = 48

-- The memory and the number of the records.
unfoldable pub getmeminfo : Stats → ℕ × ℕ
getmeminfo s = let records = length s.scans % 2 ^ 32 in (records * record_size, records)

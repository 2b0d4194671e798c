-- ===== src/Stats/Tests.antt =====
-- stats.cpp: the theorems on the records of speeds at concrete ones.
use ccminer.Common.{
  ◌≡◌, ◌||◌, [], ◌∷◌, ◌++◌, reverse, arith, ltb, ◌==◌, if◌then◌else◌, length, take,
}
use mathlib.Core.List.{foldl}
use ccminer.Common.Int.{pos, negsuc, eq_int}
use ccminer.Fixtures.{naturals, stats_globals}
use ccminer.Stats.{StatsData, Stats, speed_data, remember_speed, get_speed}
use ccminer.Stats.Speed.{samples, get_speed_lem}
use ccminer.Stats.Records.{IsValid, remember_speed_lem}

abbrev a_scan : StatsData
a_scan = record {
  uid = 7;
  tm_stat = 1000;
  hashcount = 5000;
  height = 9;
  difficulty = 0;
  hashrate = 30;
  thr_id = 0;
  gpu_id = 0;
  hashfound = 0;
  ignored = 0;
  npool = 0;
  pool_type = 2;
  globalhashcount = 0;
}

abbrev one_scan : Stats
one_scan = record { uid = 8; scans = (7, a_scan) ∷ [] }

one_scan-IsValid : IsValid one_scan
one_scan-IsValid = record { sorted = (omega arith, tt); below = (omega arith, tt) }

get_speed_lem_example :
    let rates = take 2 (samples (pos 0) (reverse one_scan.scans)) in
    let mean = naturals.div (foldl naturals.add 0 rates) (length rates) in
    let one = (if length rates == 0 then 11 else mean) in
    get_speed naturals stats_globals (pos 0) 11 one_scan
    ≡ (if eq_int (pos 0) (negsuc 0) then naturals.mul one 2 else one)
get_speed_lem_example = get_speed_lem naturals stats_globals (pos 0) 11 one_scan

remember_speed_lem_example :
    let t = remember_speed naturals stats_globals 1200 0 6000 35 0 9 one_scan in
    let e = speed_data naturals stats_globals 9 1200 0 6000 35 0 9 in
    (t.uid ≡ 9)
    × (t.scans ≡ (
        if ltb 6000 1000 || naturals.lt 35 (naturals.decimal 1 100)
        then one_scan.scans
        else one_scan.scans ++ (8, e) ∷ []))
    × IsValid t
remember_speed_lem_example =
    remember_speed_lem naturals stats_globals 1200 0 6000 35 0 9 one_scan one_scan-IsValid
      (omega arith)

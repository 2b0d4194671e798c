-- ===== src/Bench/Tests.antt =====
-- bench.cpp: the theorems on the benchmark at a concrete state.
use ccminer.Common.{◌≡◌, true, arith}
use ccminer.Common.Int.{pos}
use ccminer.Fixtures.{naturals, stats_globals, no_stats}
use ccminer.Algos.{ShaAlgos, to_int}
use ccminer.Bench.{Bench}
use ccminer.Bench.Walk.{rounds, rounds_end}

abbrev at_keccak : Bench
at_keccak = record {
  opt_algo = to_int ShaAlgos.keccak;
  global_hashrate = 40;
  thr_hashrates = λ i. 20;
  stats = no_stats;
  algo_mem_used = λ i j. pos 0;
  device_mem_free = λ i. pos 0;
  algo_hashrates = λ i j. 0;
  algo_throughput = λ i j. 0;
}

rounds_end_example : (rounds naturals stats_globals (λ i. 500) 0 80 at_keccak).1 ≡ true
rounds_end_example =
    rounds_end naturals stats_globals (λ i. 500) 0 80 at_keccak (omega arith) (omega arith)

-- ===== src/Bench.antt =====
-- bench.cpp: the benchmark of all algorithms in turn, as one thread runs it. The barriers, at which
-- the threads wait for one another, the pause and the messages change no state and are left out;
-- device memory is not measured any more, both of its readings are the constant 10.
pub mod Walk
mod Tests
use ccminer.Common.{
  ℕ, suc, ◌+◌, ◌-◌, ◌%◌, Bool, true, false, not, ◌&&◌, List, [], ◌∷◌, ltb, leb, ◌==◌, if◌then◌else◌,
}
use ccminer.Common.Int.{ℤ, pos, negsuc}
use ccminer.Algos.{ShaAlgos, to_int}
use ccminer.Float.{Arith}
use ccminer.Stats.{Stats, Globals, get_speed, purge_all}
use ccminer.Float.{Double}

-- `if (algo == skipped) algo++;`, one test after another.
pub skip : List ℕ → ℕ → ℕ
skip [] algo = algo
skip (skipped ∷ rest) algo = skip rest (if algo == skipped then algo + 1 else algo)

-- Duplicated, dead and disabled algorithms, in the order of the tests.
abbrev pub duplicated : List ℕ
duplicated =
    to_int ShaAlgos.c11
    ∷ to_int ShaAlgos.dmd_gr
    ∷ to_int ShaAlgos.heavy
    ∷ to_int ShaAlgos.mjollnir
    ∷ to_int ShaAlgos.keccakc
    ∷ to_int ShaAlgos.whirlcoin
    ∷ to_int ShaAlgos.whirlpoolx
    ∷ to_int ShaAlgos.cryptolight
    ∷ to_int ShaAlgos.cryptonight
    ∷ to_int ShaAlgos.wildkeccak
    ∷ to_int ShaAlgos.quark
    ∷ to_int ShaAlgos.lbry
    ∷ []

-- The kernels that a device below SM 3.0 cannot run.
abbrev pub incompatible : List ℕ
incompatible =
    to_int ShaAlgos.groestl
    ∷ to_int ShaAlgos.myr_gr
    ∷ to_int ShaAlgos.neoscrypt
    ∷ to_int ShaAlgos.whirlpoolx
    ∷ []

abbrev pub unwanted : List ℕ
unwanted = to_int ShaAlgos.scrypt ∷ to_int ShaAlgos.scrypt_jane ∷ []

-- The algorithm after `algo`; `old` is the test of the device.
pub next_algo : Bool → ℕ → ℕ
unfolding skip
next_algo old algo =
    let first = skip duplicated (algo + 1) in
    skip unwanted (if old then skip incompatible first else first)

pub record Bench : Type 0 where
  pub opt_algo : ℕ
  pub global_hashrate : ℕ
  pub thr_hashrates : ℕ → Double
  pub stats : Stats
  pub algo_mem_used : ℕ → ℕ → ℤ
  pub device_mem_free : ℕ → ℤ
  pub algo_hashrates : ℕ → ℕ → Double
  pub algo_throughput : ℕ → ℕ → ℕ

-- `a[i] = v`
abbrev pub update {ℓ} : {A : Type ℓ} → (ℕ → A) → ℕ → A → ℕ → A
update a i v j = if j == i then v else a j

-- `x - 10`, on an int
abbrev less_ten : ℤ → ℤ
less_ten (pos n) = if leb 10 n then pos (n - 10) else negsuc (9 - n)
less_ten (negsuc n) = negsuc (n + 10)

-- `device_sm[dev_id] && device_sm[dev_id] < 300`
pub is_old_device : Globals → (ℕ → ℕ) → ℕ → Bool
is_old_device g device_sm thr_id =
    let sm = device_sm (g.device_map (thr_id % 140)) in not (sm == 0) && ltb sm 300

module _ (fp : Arith) (g : Globals) (device_sm : ℕ → ℕ) where
  -- The tables that the call fills before it changes the algorithm.
  store_rate : ℕ → Bench → Bench
  store_rate thr_id b =
      let hashrate = get_speed fp g (pos thr_id) (b.thr_hashrates thr_id) b.stats in
      let used = less_ten (b.device_mem_free thr_id) in
      record b {
        algo_mem_used =
            update b.algo_mem_used thr_id (update (b.algo_mem_used thr_id) b.opt_algo used);
        device_mem_free = update b.device_mem_free thr_id (pos 10);
        algo_hashrates =
            update b.algo_hashrates thr_id (update (b.algo_hashrates thr_id) b.opt_algo hashrate);
      }

  unfoldable pub bench_algo_switch_next : ℕ → Bench → Bench × Bool
  unfolding store_rate is_old_device
  bench_algo_switch_next thr_id b =
      let algo = next_algo (is_old_device g device_sm thr_id) b.opt_algo in
      let stored = store_rate thr_id b in
      if algo == to_int ShaAlgos.auto then (stored, false) else (
        record stored {
          stats = purge_all b.stats;
          opt_algo = algo;
          global_hashrate = 0;
          thr_hashrates = update b.thr_hashrates thr_id (fp.of_int 0);
        },
        true,
      )

-- bench_set_throughput
unfoldable pub set_throughput : ℕ → ℕ → Bench → Bench
set_throughput thr_id throughput b = record b {
  algo_throughput =
      update b.algo_throughput thr_id (update (b.algo_throughput thr_id) b.opt_algo throughput);
}

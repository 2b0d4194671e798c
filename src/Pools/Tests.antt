-- ===== src/Pools/Tests.antt =====
-- pools.cpp: the theorems on the pools at a concrete miner.
use ccminer.Common.{◌+◌, ◌≡◌, ◌≢◌, Bool, true, arith}
use ccminer.Work.{Work}
use ccminer.Fixtures.{naturals, a_miner}
use ccminer.Pools.{Miner, pool_get_first_valid}
use ccminer.Pools.Change.{pool_switch}
use ccminer.Pools.Choice.{IsChoice, pool_get_first_valid-IsChoice}
use ccminer.Pools.Switch.{in_use, of_pool, pool_switch_lem}

pool_get_first_valid-IsChoice_example : IsChoice 1 a_miner (pool_get_first_valid 1 a_miner)
pool_get_first_valid-IsChoice_example = pool_get_first_valid-IsChoice 1 a_miner

fetch : Work → Work
fetch w = w

abbrev switched : Miner × Bool
switched = pool_switch naturals fetch 50 1 a_miner

pool_switch_lem_example :
    (switched.1 ≡ true)
    × (in_use switched.0 ≡ of_pool 1 (a_miner.pools 1))
    × (a_miner.cur_pooln ≢ 1
        → (switched.0.pool_switch_count ≡ a_miner.pool_switch_count + 1)
          × (switched.0.stratum_need_reset ≡ true))
    × (a_miner.cur_pooln ≡ 1 → switched.0.pool_switch_count ≡ a_miner.pool_switch_count)
pool_switch_lem_example = pool_switch_lem naturals fetch 50 1 a_miner (omega arith)

-- ===== src/Limits.antt =====
-- ccminer.cpp: wanna_mine, which has a miner thread wait while the network's difficulty or hash rate
-- is beyond the pool's limits. The build is the one without USE_WRAPNVML, which has no temperatures.
pub mod Waits
mod Tests
use ccminer.Common.{ℕ, ◌+◌, Bool, true, false, not, ◌&&◌, ◌||◌, ltb, ◌==◌, if◌then◌else◌}
use ccminer.Bench.{update}
use ccminer.Float.{Double, Arith}
use ccminer.Pools.{Pool, Miner, pool_get_first_valid}

-- The options that no pool has.
pub record Resume : Type 0 where
  pub fp : Arith
  pub opt_resume_diff : Double
  pub opt_resume_rate : Double

-- The globals that a call reads or changes.
pub record Mining : Type 0 where
  pub miner : Miner
  pub net_hashrate : ℕ
  pub conditional_pool_rotate : Bool

unfoldable pub is_positive : Arith → Double → Bool
is_positive fp x = fp.lt (fp.of_int 0) x

-- `max > 0. && net > max`
unfoldable pub is_high : Arith → Double → Double → Bool
unfolding is_positive
is_high fp max net = is_positive fp max && fp.lt max net

-- `max > 0. && resume > 0. && conditional_state[thr_id] && net > resume`
unfoldable pub is_held : Arith → Bool → Double → Double → Double → Bool
unfolding is_positive
is_held fp waiting max resume net =
    is_positive fp max && is_positive fp resume && waiting && fp.lt resume net

abbrev allow_pool_rotate : ℕ → Miner → Bool
allow_pool_rotate thr_id m = thr_id == 0 && ltb 1 m.num_pools && not m.pool_is_switching

-- The pools differ in the limit, and mining does not resume by itself.
diff_rotates : Resume → Miner → Pool → Bool
unfolding is_high
diff_rotates o m next =
    is_high o.fp m.opt_max_diff m.net_diff
    && ltb 1 m.num_pools
    && not (o.fp.eq next.max_diff (m.pools m.cur_pooln).max_diff)
    && o.fp.le o.opt_resume_diff (o.fp.of_int 0)

rate_rotates : Resume → ℕ → Miner → Pool → Bool
unfolding is_high
rate_rotates o net_hashrate m next =
    is_high o.fp m.opt_max_rate (o.fp.of_int net_hashrate)
    && not (o.fp.eq next.max_rate (m.pools m.cur_pooln).max_rate)
    && o.fp.le o.opt_resume_rate (o.fp.of_int 0)

-- The local variable `state`
unfoldable pub has_to_wait : Resume → Bool → ℕ → Miner → Bool
unfolding is_high is_held
has_to_wait o waiting net_hashrate m =
    is_high o.fp m.opt_max_diff m.net_diff
    || is_held o.fp waiting m.opt_max_diff o.opt_resume_diff m.net_diff
    || is_high o.fp m.opt_max_rate (o.fp.of_int net_hashrate)
    || is_held o.fp waiting m.opt_max_rate o.opt_resume_rate (o.fp.of_int net_hashrate)

unfoldable pub wanna_mine : Resume → ℕ → Mining → Mining × Bool
unfolding has_to_wait diff_rotates rate_rotates pool_get_first_valid
wanna_mine o thr_id g =
    let m : Miner = g.miner in
    let next : Pool = m.pools (pool_get_first_valid (m.cur_pooln + 1) m) in
    let waits = has_to_wait o (m.conditional_state thr_id) g.net_hashrate m in
    let rotates = diff_rotates o m next || rate_rotates o g.net_hashrate m next in
    (
      record g {
        miner = record m { conditional_state = update m.conditional_state thr_id waits };
        conditional_pool_rotate =
            if rotates then allow_pool_rotate thr_id m else g.conditional_pool_rotate;
      },
      not waits,
    )

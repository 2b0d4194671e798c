-- ===== src/Pools/Change.antt =====
-- pools.cpp: the switch from one pool to another. The mutexes make each switch one step.
use ccminer.Common.{
  ℕ, ◌+◌, Bool, true, false, not, ◌||◌, List, [], ◌∷◌, ltb, ◌==◌, if◌then◌else◌, take, length,
}
use ccminer.Algos.{ShaAlgos, to_int}
use ccminer.Bench.{update}
use ccminer.Common.Int.{ℤ, pos, eq_int}
use ccminer.Cstring.{codes, text_eq}
use ccminer.Float.{Arith}
use ccminer.Hashlog.{purge_all as hashlog_purge_all}
use ccminer.Queue.{tq_push}
use ccminer.Stats.{purge_all as stats_purge_all}
use ccminer.Stratum.{stratum_free_job}
use ccminer.Work.{Work}
use ccminer.Pools.{
  pool_stratum, pool_longpoll, has_flag, is_empty, pool_get_first_valid, Pool, Miner,
}

-- `for (n = 0; n < count; n++) a[n] = v`
pub fill {ℓ} : {A : Type ℓ} → ℕ → A → (ℕ → A) → ℕ → A
fill count v a n = if ltb n count then v else a n

-- The text `part` stands somewhere in `text`: `strstr(text, part) != NULL`
pub has_part : List ℕ → List ℕ → Bool
has_part part [] = is_empty part
has_part part (c ∷ text) = text_eq part (take (length part) (c ∷ text)) || has_part part text

abbrev pub uses_rpc2 : ℤ → Bool
uses_rpc2 algo =
    eq_int algo (pos (to_int ShaAlgos.wildkeccak))
    || eq_int algo (pos (to_int ShaAlgos.cryptonight))
    || eq_int algo (pos (to_int ShaAlgos.cryptolight))

-- "save prev stratum connection infos": the job of the connection is dropped first.
unfoldable pub save_stratum : Miner → Miner
save_stratum m =
    let prev = m.pools m.cur_pooln in
    if has_flag prev.type pool_stratum
    then (let freed = stratum_free_job m.stratum in
        record m {
          stratum = freed;
          pools = update m.pools m.cur_pooln (record prev { stratum = freed });
        })
    else m

-- "save global attributes" of the pool `prevn`
unfoldable pub save_flags : ℕ → Miner → Miner
save_flags prevn m =
    let prev = m.pools prevn in
    record m {
      pools = update m.pools prevn (record prev {
        allow_mininginfo = m.allow_mininginfo;
        allow_gbt = m.allow_gbt;
        check_dups = m.check_dups;
      });
    }

-- The part under stratum_work_lock: the credentials and the options of the pool `p`.
unfoldable pub load_options : Pool → Miner → Miner
unfolding has_part
load_options p m =
    let wanted = has_flag p.type pool_stratum in
    record m {
      rpc_user = p.user;
      rpc_pass = p.pass;
      rpc_url = p.url;
      short_url = p.short_url;
      opt_scantime = p.scantime;
      opt_max_diff = p.max_diff;
      opt_max_rate = p.max_rate;
      opt_shares_limit = p.shares_limit;
      opt_time_limit = p.time_limit;
      want_stratum = wanted;
      have_stratum = wanted;
      opt_stratum_stats = has_part (codes "stats") p.pass || text_eq p.user (codes "benchmark");
    }

-- Another algorithm: the measured speeds, and the log of shares, are of no more use.
unfoldable pub switch_algo : Arith → Pool → Miner → Miner
unfolding fill
switch_algo fp p m =
    if eq_int p.algo m.opt_algo
    then m
    else if eq_int m.opt_algo (pos (to_int ShaAlgos.auto))
    then record m { opt_algo = p.algo }
    else record m {
      opt_algo = p.algo;
      thr_hashrates = fill m.opt_n_threads (fp.of_int 0) m.thr_hashrates;
      stats = stats_purge_all m.stats;
      hashlog = if m.check_dups then hashlog_purge_all m.hashlog else m.hashlog;
    }

-- "unlock the stratum thread"
unfoldable pub join_stratum : Pool → Miner → Miner
join_stratum p m =
    if m.want_stratum
    then record m {
      stratum = record (p.stratum) { pooln = m.cur_pooln; rpc2 = uses_rpc2 p.algo };
      stratum_queue = (tq_push m.rpc_url m.stratum_queue).0;
    }
    else m

-- "will unlock the longpoll thread"; `fetch` is what get_work leaves in g_work.
unfoldable pub join_longpoll : (Work → Work) → Pool → Miner → Miner
join_longpoll fetch p m =
    let wanted = has_flag p.type pool_longpoll || not (has_flag p.type pool_stratum) in
    if wanted
    then record m { want_longpoll = true; have_longpoll = false; g_work = fetch m.g_work }
    else record m { want_longpoll = false }

-- The block for a pool that is not the current one.
unfoldable pub enter_pool : Arith → (Work → Work) → ℕ → Pool → Miner → Miner
unfolding fill
enter_pool fp fetch now p m = join_longpoll fetch p (
    join_stratum p (record m {
      pool_switch_count = m.pool_switch_count + 1;
      net_diff = fp.of_int 0;
      g_work_time = 0;
      g_work = record (m.g_work) { words = update m.g_work.words 0 0 };
      pool_is_switching = true;
      stratum_need_reset = true;
      firstwork_time = now;
      work_restart = fill m.opt_n_threads true m.work_restart;
      conditional_state = fill m.opt_n_threads false m.conditional_state;
      allow_gbt = p.allow_gbt;
      allow_mininginfo = p.allow_mininginfo;
      check_dups = p.check_dups;
    }))

abbrev set_rpc2 : Pool → Miner → Miner
set_rpc2 p m = record m { stratum = record (m.stratum) { rpc2 = uses_rpc2 p.algo } }

unfoldable pub pool_switch : Arith → (Work → Work) → ℕ → ℕ → Miner → Miner × Bool
pool_switch fp fetch now pooln m =
    let prevn = m.cur_pooln in
    let saved = save_stratum m in
    if ltb pooln m.num_pools
    then (let moved = save_flags prevn (record saved { cur_pooln = pooln }) in
        let p = moved.pools pooln in
        let changed = switch_algo fp p (load_options p moved) in
        (set_rpc2 p (if prevn == pooln then changed else enter_pool fp fetch now p changed), true))
    else (saved, false)

unfoldable pub pool_switch_next : Arith → (Work → Work) → ℕ → Miner → Miner × Bool
unfolding pool_switch pool_get_first_valid
pool_switch_next fp fetch now m =
    if ltb 1 m.num_pools
    then pool_switch fp fetch now (pool_get_first_valid (m.cur_pooln + 1) m) m
    else (m, false)

-- `parse` is what parse_arg('o', params) does to the globals; it may advance cur_pooln.
unfoldable pub pool_switch_url : Arith → (Work → Work) → ℕ → (Miner → Miner) → Miner → Miner × Bool
unfolding pool_switch
pool_switch_url fp fetch now parse m =
    let parsed = parse m in
    let back = record parsed { cur_pooln = m.cur_pooln } in
    if parsed.cur_pooln == m.cur_pooln
    then (back, false)
    else pool_switch fp fetch now parsed.cur_pooln back

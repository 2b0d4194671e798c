-- ===== src/Pools.antt =====
-- pools.cpp: the table of pools, and the globals that a switch of pools changes. Text that is copied
-- into a field of a record is cut to its size.
pub mod Attributes
pub mod Choice
pub mod Change
pub mod Switch
mod Tests
use ccminer.Common.{
  ℕ, zero, suc, ◌+◌, ◌%◌, bit_and, bit_or, Bool, true, false, not, ◌&&◌, ◌||◌, List, [], ◌∷◌, ltb,
  ◌==◌, if◌then◌else◌, take, length,
}
use ccminer.Algos.{ShaAlgos, to_int, algo_to_int}
use ccminer.Bench.{update}
use ccminer.Common.Int.{ℤ, pos, negsuc, eq_int}
use ccminer.Cstring.{codes, case_eq, text_eq, atoi}
use ccminer.Float.{Double, Arith}
use ccminer.Hashlog.{Log, purge_all as hashlog_purge_all}
use ccminer.Queue.{ThreadQ, tq_push}
use ccminer.Stats.{Stats, purge_all as stats_purge_all}
use ccminer.Stratum.{Stratum, stratum_free_job}
use ccminer.Work.{Work}

abbrev pub pool_getwork : ℕ
pool_getwork = 1

abbrev pub pool_stratum : ℕ
pool_stratum = 2

abbrev pub pool_longpoll : ℕ
pool_longpoll = 4

abbrev pub st_defined : ℕ
st_defined = 1

abbrev pub st_valid : ℕ
st_valid = 2

abbrev pub st_disabled : ℕ
st_disabled = 4

abbrev pub st_removed : ℕ
st_removed = 8

-- struct pool_infos, less the counters of shares and times
pub record Pool : Type 0 where
  pub id : ℕ
  pub type : ℕ
  pub status : ℕ
  pub algo : ℤ
  pub name : List ℕ
  pub url : List ℕ
  pub short_url : List ℕ
  pub user : List ℕ
  pub pass : List ℕ
  pub max_diff : Double
  pub max_rate : Double
  pub shares_limit : ℤ
  pub time_limit : ℤ
  pub scantime : ℤ
  pub stratum : Stratum
  pub allow_gbt : Bool
  pub allow_mininginfo : Bool
  pub check_dups : Bool

-- `flags & mask` as a condition
abbrev pub has_flag : ℕ → ℕ → Bool
has_flag flags mask = not (bit_and flags mask == 0)

-- The credentials and the options of the pool in use, and the other globals that a switch changes.
pub record Miner : Type 0 where
  pub pools : ℕ → Pool
  pub num_pools : ℕ
  pub cur_pooln : ℕ
  pub rpc_url : List ℕ
  pub rpc_user : List ℕ
  pub rpc_pass : List ℕ
  pub short_url : List ℕ
  pub opt_scantime : ℤ
  pub opt_max_diff : Double
  pub opt_max_rate : Double
  pub opt_shares_limit : ℤ
  pub opt_time_limit : ℤ
  pub opt_algo : ℤ
  pub allow_gbt : Bool
  pub allow_mininginfo : Bool
  pub check_dups : Bool
  pub stratum : Stratum
  pub want_stratum : Bool
  pub have_stratum : Bool
  pub want_longpoll : Bool
  pub have_longpoll : Bool
  pub opt_stratum_stats : Bool
  pub opt_n_threads : ℕ
  pub thr_hashrates : ℕ → Double
  pub stats : Stats
  pub hashlog : Log
  pub pool_switch_count : ℕ
  pub net_diff : Double
  pub g_work_time : ℕ
  pub g_work : Work
  pub pool_is_switching : Bool
  pub stratum_need_reset : Bool
  pub firstwork_time : ℕ
  pub work_restart : ℕ → Bool
  pub conditional_state : ℕ → Bool
  pub stratum_queue : ThreadQ (List ℕ)

-- The start of a text, without regard to case: `!strncasecmp(text, prefix, length prefix)`
pub starts_with : List ℕ → List ℕ → Bool
starts_with [] text = true
starts_with (c ∷ prefix) [] = false
starts_with (c ∷ prefix) (d ∷ text) = case_eq (c ∷ []) (d ∷ []) && starts_with prefix text

-- "init pool options as unset"
unset_options : Arith → ℕ → Miner → Pool → Pool
unset_options fp pooln m p = record p {
  id = pooln % 256;
  status = bit_or p.status st_defined;
  algo = negsuc 0;
  max_diff = fp.minus_one;
  max_rate = fp.minus_one;
  scantime = negsuc 0;
  shares_limit = negsuc 0;
  time_limit = negsuc 0;
  allow_mininginfo = m.allow_mininginfo;
  allow_gbt = m.allow_gbt;
  check_dups = m.check_dups;
}

with_creds : Miner → Pool → Pool
with_creds m p = record p {
  url = take 511 m.rpc_url;
  short_url = take 63 m.short_url;
  user = take 191 m.rpc_user;
  pass = take 383 m.rpc_pass;
}

abbrev is_empty : List ℕ → Bool
is_empty [] = true
is_empty (c ∷ s) = false

with_type : List ℕ → Pool → Pool
unfolding starts_with
with_type url p = if is_empty url then p else record p {
  type = if starts_with (codes "stratum") url then pool_stratum else pool_getwork;
  status = bit_or p.status st_valid;
}

pub pool_creds : Arith → ℕ → Miner → Pool
unfolding unset_options with_creds with_type
pool_creds fp pooln m =
    let p = with_creds m (m.pools pooln) in
    with_type m.rpc_url (if has_flag p.status st_defined then p else unset_options fp pooln m p)

unfoldable pub pool_set_creds : Arith → ℕ → Miner → Miner
unfolding pool_creds
pool_set_creds fp pooln m = record m { pools = update m.pools pooln (pool_creds fp pooln m) }

pub with_defaults : Arith → Miner → Pool → Pool
with_defaults fp m p = record p {
  algo = if eq_int p.algo (negsuc 0) then m.opt_algo else p.algo;
  max_diff = if fp.eq p.max_diff fp.minus_one then m.opt_max_diff else p.max_diff;
  max_rate = if fp.eq p.max_rate fp.minus_one then m.opt_max_rate else p.max_rate;
  scantime = if eq_int p.scantime (negsuc 0) then m.opt_scantime else p.scantime;
  shares_limit = if eq_int p.shares_limit (negsuc 0) then m.opt_shares_limit else p.shares_limit;
  time_limit = if eq_int p.time_limit (negsuc 0) then m.opt_time_limit else p.time_limit;
}

-- The loop of pool_init_defaults: the pools left and the pool.
init_from : Arith → ℕ → ℕ → Miner → Miner
unfolding with_defaults
init_from fp zero i m = m
init_from fp (suc left) i m =
    init_from fp left (i + 1)
      (record m { pools = update m.pools i (with_defaults fp m (m.pools i)) })

unfoldable pub pool_init_defaults : Arith → Miner → Miner
unfolding init_from
pool_init_defaults fp m = init_from fp m.num_pools 0 m

-- The pool after the attribute `key` is set.
pub set_attr : Arith → List ℕ → List ℕ → Pool → Pool
set_attr fp key arg p =
    if case_eq key (codes "name")
    then record p { name = take 63 arg }
    else if case_eq key (codes "algo")
    then record p { algo = algo_to_int arg }
    else if case_eq key (codes "scantime")
    then record p { scantime = atoi arg }
    else if case_eq key (codes "max-diff")
    then record p { max_diff = fp.atof arg }
    else if case_eq key (codes "max-rate")
    then record p { max_rate = fp.atof arg }
    else if case_eq key (codes "shares-limit")
    then record p { shares_limit = atoi arg }
    else if case_eq key (codes "time-limit")
    then record p { time_limit = atoi arg }
    else if case_eq key (codes "disabled") && not (eq_int (atoi arg) (pos 0))
    then record p { status = bit_or p.status st_removed }
    else p

unfoldable pub pool_set_attr : Arith → ℕ → List ℕ → List ℕ → Miner → Miner
unfolding set_attr
pool_set_attr fp pooln key arg m = record m {
  pools = update m.pools pooln (set_attr fp key arg (m.pools pooln));
}

-- POOL_ST_VALID is set, and neither POOL_ST_DISABLED nor POOL_ST_REMOVED
pub is_usable : Pool → Bool
is_usable p = has_flag p.status st_valid && not (has_flag p.status (bit_or st_disabled st_removed))

-- The loop of pool_get_first_valid: the rounds left and the round; 0 where no pool is found.
pub first_usable : (ℕ → Pool) → ℕ → ℕ → ℕ → ℕ → ℕ
unfolding is_usable
first_usable pools num_pools startfrom zero i = 0
first_usable pools num_pools startfrom (suc left) i =
    let pooln = (startfrom + i) % num_pools in
    if is_usable (pools pooln) then pooln else first_usable pools num_pools startfrom left (i + 1)

unfoldable pub pool_get_first_valid : ℕ → Miner → ℕ
unfolding first_usable
pool_get_first_valid startfrom m = first_usable m.pools m.num_pools startfrom m.num_pools 0

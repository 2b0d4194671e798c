-- ===== src/Fixtures.antt =====
-- The concrete data of the tests: whole numbers in place of doubles, a work unit, a connection, two
-- pools and a miner of miner.h.
use ccminer.Common.{
  ℕ, ◌+◌, ◌-◌, ◌*◌, ◌/◌, ◌^◌, true, false, none, List, [], ◌∷◌, ltb, leb, ◌==◌, replicate,
  if◌then◌else◌,
}
use ccminer.Common.Int.{ℤ, pos, pos_part}
use ccminer.Cstring.{codes}
use ccminer.Float.{Arith}
use ccminer.Work.{Work}
use ccminer.Stratum.{Stratum, no_job}
use ccminer.Pools.{Pool, Miner}
use ccminer.Shares.{ShareContext}
use ccminer.Stats.{Stats, Globals}

abbrev pub naturals : Arith
naturals = record {
  add = λ a b. a + b;
  mul = λ a b. a * b;
  div = λ a b. a / b;
  lt = ltb;
  le = leb;
  eq = λ a b. a == b;
  is_zero = λ a. a == 0;
  of_int = λ n. n;
  decimal = λ n d. n / d;
  minus_one = 2 ^ 64 - 1;
  truncate = λ a. a;
  ldexp = λ a e. a * 2 ^ pos_part e;
  atof = λ s. 0;
}

abbrev pub a_work : Work
a_work = record {
  words = λ i. i;
  target = λ i. 2 ^ 31;
  maxvote = 0;
  job_id = codes "1f";
  xnonce2_len = 0;
  xnonce2 = replicate 32 0;
  pooln = 0;
  valid_nonces = 0;
  submit_nonce_id = 0;
  nonces = λ i. 0;
  sharediff = λ i. 3;
  targetdiff = 2;
  height = 9;
  scanned_from = 1;
  scanned_to = 100;
  extra = replicate 1388 0;
  solution = replicate 1344 7;
}

abbrev pub a_stratum : Stratum
a_stratum = record {
  url = [];
  next_diff = 5;
  sharediff = 0;
  xnonce1_size = 2;
  xnonce1 = 171 ∷ 205 ∷ [];
  xnonce2_size = 3;
  job = no_job;
  pooln = 0;
  rpc2 = false;
  is_equihash = true;
  srvtime_diff = pos 0;
}

-- A stratum pool that is defined and valid.
abbrev pub a_pool : ℤ → List ℕ → Pool
a_pool algo url = record {
  id = 0;
  type = 2;
  status = 3;
  algo = algo;
  name = [];
  url = url;
  short_url = url;
  user = codes "user";
  pass = codes "x";
  max_diff = 0;
  max_rate = 0;
  shares_limit = pos 0;
  time_limit = pos 0;
  scantime = pos 5;
  stratum = a_stratum;
  allow_gbt = false;
  allow_mininginfo = false;
  check_dups = true;
}

abbrev pub no_stats : Stats
no_stats = record { uid = 7; scans = [] }

-- Pool 0 is in use; pool 1 has another algorithm.
abbrev pub a_miner : Miner
a_miner = record {
  pools = λ i. if i == 1 then a_pool (pos 3) (codes "b") else a_pool (pos 2) (codes "a");
  num_pools = 2;
  cur_pooln = 0;
  rpc_url = codes "a";
  rpc_user = codes "user";
  rpc_pass = codes "x";
  short_url = codes "a";
  opt_scantime = pos 5;
  opt_max_diff = 0;
  opt_max_rate = 0;
  opt_shares_limit = pos 0;
  opt_time_limit = pos 0;
  opt_algo = pos 2;
  allow_gbt = false;
  allow_mininginfo = false;
  check_dups = true;
  stratum = a_stratum;
  want_stratum = true;
  have_stratum = true;
  want_longpoll = false;
  have_longpoll = false;
  opt_stratum_stats = false;
  opt_n_threads = 2;
  thr_hashrates = λ i. 8;
  stats = no_stats;
  hashlog = [];
  pool_switch_count = 4;
  net_diff = 0;
  g_work_time = 0;
  g_work = a_work;
  pool_is_switching = false;
  stratum_need_reset = false;
  firstwork_time = 0;
  work_restart = λ i. false;
  conditional_state = λ i. true;
  stratum_queue = record { q = []; frozen = false };
}

abbrev pub stats_globals : Globals
stats_globals = record {
  device_map = λ i. i;
  cur_pooln = 0;
  pool_type = 2;
  net_diff = 0;
  stratum_diff = 0;
  global_hashrate = 0;
  opt_n_threads = 2;
  opt_statsavg = 2;
}

abbrev pub a_context : ShareContext
a_context = record {
  fp = naturals;
  llround = λ d. d;
  now = 100;
  net_diff = 5;
  globals = stats_globals;
  stats = no_stats;
  thr_hashrates = λ i. 8;
  opt_n_threads = 2;
  opt_showdiff = true;
  hashlog = [];
  job_id = none;
  sharediff = 3;
  pooln = 1;
}

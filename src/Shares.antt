-- ===== src/Shares.antt =====
-- ccminer.cpp: share_result and stratum_handle_response, which count what the pool says of the
-- shares; miner.h: the counters of struct pool_infos. Messages and the time of an answer are left out.
pub mod Counts
mod Tests
use ccminer.Common.{
  ℕ, zero, suc, ◌+◌, ◌-◌, ◌%◌, ◌^◌, Bool, true, false, not, ◌&&◌, ◌||◌, Option, none, some, List,
  [], ◌∷◌, ltb, ◌==◌, if◌then◌else◌, get_elem?,
}
use ccminer.Common.Int.{ℤ, pos, lt_int, pos_part}
use ccminer.Cstring.{codes}
use ccminer.Float.{Double, Arith}
use ccminer.Hashlog.{Log, get_sharediff}
use ccminer.Pools.{starts_with}
use ccminer.Session.{Message, no_value, int_value}
use ccminer.Stats.{Stats, Globals, get_speed}
use ccminer.Stratum.{Json, text, truth, array, elements, string_at}

pub record Tally : Type 0 where
  pub accepted_count : ℕ
  pub rejected_count : ℕ
  pub solved_count : ℕ
  pub last_share_time : ℕ
  pub best_share : Double

-- What the answers change: the counters of the pools and three globals.
pub record Shares : Type 0 where
  pub tallies : ℕ → Tally
  pub check_dups : Bool
  pub g_work_time : ℕ
  pub global_hashrate : ℕ

-- What they read; `llround` is the C library's, and the rates stand by thread.
pub record ShareContext : Type 0 where
  pub fp : Arith
  pub llround : Double → ℕ
  pub now : ℕ
  pub net_diff : Double
  pub globals : Globals
  pub stats : Stats
  pub thr_hashrates : ℕ → Double
  pub opt_n_threads : ℕ
  pub opt_showdiff : Bool
  pub hashlog : Log
  pub job_id : Option (List ℕ)
  pub sharediff : Double
  pub pooln : ℕ

-- The loop over the threads: those left, the thread and the sum so far.
sum_rates : ShareContext → ℕ → ℕ → Double → Double
unfolding get_speed
sum_rates r zero i hashrate = hashrate
sum_rates r (suc left) i hashrate =
    sum_rates r left (i + 1)
      (r.fp.add hashrate (get_speed r.fp r.globals (pos i) (r.thr_hashrates i) r.stats))

-- `!net_diff || sharediff < net_diff` is a share that solves no block.
is_solved : ShareContext → Double → Bool
is_solved r sharediff = not (r.fp.is_zero r.net_diff || r.fp.lt sharediff r.net_diff)

unfoldable pub counted : ShareContext → Bool → Double → Tally → Tally
unfolding is_solved
counted r result sharediff t = record {
  accepted_count = if result then (t.accepted_count + 1) % 2 ^ 32 else t.accepted_count;
  rejected_count = if result then t.rejected_count else (t.rejected_count + 1) % 2 ^ 32;
  solved_count = if is_solved r sharediff then (t.solved_count + 1) % 2 ^ 32 else t.solved_count;
  last_share_time = r.now;
  best_share = if r.fp.lt t.best_share sharediff then sharediff else t.best_share;
}

-- A rejection as a duplicate turns the check for duplicates on.
is_duplicate : Option (List ℕ) → Bool
is_duplicate none = false
is_duplicate (some reason) = starts_with (codes "duplicate") reason

unfoldable pub share_result : ShareContext → Bool → ℕ → Double → Option (List ℕ) → Shares → Shares
unfolding counted is_duplicate sum_rates
share_result r result pooln sharediff reason s =
    let turned = not s.check_dups && is_duplicate reason in
    record {
      tallies = λ i. if i == pooln then counted r result sharediff (s.tallies i) else s.tallies i;
      check_dups = s.check_dups || turned;
      g_work_time = if turned then 0 else s.g_work_time;
      global_hashrate = r.llround (sum_rates r r.opt_n_threads 0 (r.fp.of_int 0));
    }

-- json_is_true
abbrev pub is_true : Json → Bool
is_true (truth b) = b
is_true _ = false

-- The text at index 1 of an error that is an array.
reason_of : Option Json → Option (List ℕ)
reason_of (some (array items)) = string_at (elements items) 1
reason_of _ = none

-- The difficulty of the share that an answer is for; a negative number of a nonce is in no record.
sharediff_of : ShareContext → Shares → ℤ → Double
unfolding get_sharediff
sharediff_of r s num =
    if r.opt_showdiff && s.check_dups && not (lt_int num (pos 10))
    then get_sharediff r.job_id (pos_part num - 10) r.sharediff r.hashlog
    else r.sharediff

answer_counted : ShareContext → Message → ℤ → Shares → Option Json → Shares × Bool
unfolding share_result reason_of sharediff_of
answer_counted r m num s none = (s, false)
answer_counted r m num s (some result) =
    (share_result r (is_true result) r.pooln (sharediff_of r s num) (reason_of m.error) s, true)

unfoldable pub stratum_handle_response : ShareContext → Option Message → Shares → Shares × Bool
unfolding answer_counted
stratum_handle_response r none s = (s, false)
stratum_handle_response r (some m) s =
    if no_value m.id || lt_int (int_value m.id) (pos 4)
    then (s, false)
    else answer_counted r m (int_value m.id) s m.result

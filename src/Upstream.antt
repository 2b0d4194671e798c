-- ===== src/Upstream.antt =====
-- ccminer.cpp: submit_upstream_work, which sends a share to its pool, and get_blocktemplate with
-- gbt_work_decode, by which it learns the height of the chain. What the server answers is an
-- argument; messages and the times of the submission are left out.
pub mod Blocks
pub mod Text
pub mod Repeated
pub mod Stale
pub mod Resubmit
mod Tests
use ccminer.Common.{
  ℕ, zero, suc, ◌+◌, ◌%◌, ◌^◌, Bool, true, false, not, ◌&&◌, ◌||◌, Option, none, some, List, [],
  ◌∷◌, ◌++◌, ltb, ◌==◌, if◌then◌else◌, length, drop,
}
use ccminer.Algos.{ShaAlgos, to_int, zr5, scrypt_jane}
use ccminer.Common.Int.{pos, eq_int}
use ccminer.Cstring.{text_eq}
use ccminer.Float.{Double}
use ccminer.Hashlog.{Globals, already_submitted, remember_submit}
use ccminer.Hex.{bin2hex}
use ccminer.Pools.{Pool, Miner, pool_stratum, has_flag}
use ccminer.Session.Methods.{restart_threads}
use ccminer.Shares.{Tally, Shares, ShareContext, share_result, is_true}
use ccminer.Stratum.{Stratum, Job, Json, text}
use ccminer.Stratum.Verus.Submit.{verus_stratum_submit}
use ccminer.Upstream.Blocks.{Template, get_blocktemplate}
use ccminer.Upstream.Text.{one_of, Encoded, encoded, share_line, getwork_line, checks_dups}
use ccminer.Wire.{Sent, stratum_send_line}
use ccminer.Work.{Work}

-- The members "result" and "reject-reason" of the answer to a share.
pub record ShareAnswer : Type 0 where
  pub result : Option Json
  pub reject_reason : Option Json

-- The options, the time, what the socket takes, and what the server answers:
-- to the request of the height, NULL where it gives none, and to a share's text.
pub record Sending : Type 0 where
  pub opt_submit_stale : Bool
  pub submit_old : Bool
  pub opt_quiet : Bool
  pub opt_showdiff : Bool
  pub use_roots : Bool
  pub opt_vote : ℕ
  pub now : ℕ
  pub sends : List Sent
  pub is_lost : Bool
  pub template : Option Template
  pub server : List ℕ → Option ShareAnswer
  pub shares : ShareContext

-- The globals, the counters of the pools, and what is on the wire.
pub record Upstream : Type 0 where
  pub miner : Miner
  pub stales_count : ℕ → ℕ
  pub tallies : ℕ → Tally
  pub check_stratum_jobs : Bool
  pub global_hashrate : ℕ
  pub wire : List ℕ

abbrev pub is_stratum : Miner → Work → Bool
is_stratum m work = has_flag (m.pools work.pooln).type pool_stratum

abbrev pub log_globals : Miner → Globals
log_globals m = record {
  cur_pooln = m.cur_pooln;
  pool_type = (m.pools m.cur_pooln).type;
  shares_count = m.stratum.job.shares_count;
}

pub remembered : Sending → Work → ℕ → Miner → Miner
unfolding remember_submit
remembered c work nonce m = record m {
  hashlog = remember_submit (log_globals m) c.now work nonce m.hashlog;
}

pub one_more : Miner → Miner
one_more m = record m {
  stratum = record (m.stratum) {
    job = record (m.stratum.job) { shares_count = (m.stratum.job.shares_count + 1) % 2 ^ 32 };
  };
}

-- A share of Verus; whatever came of it, shares_count goes up.
verus_sent : Sending → Work → Upstream → Stratum × Work × List ℕ × Bool → Upstream × Bool
unfolding remembered one_more
verus_sent c work s (sctx, sent, wire, ok) =
    let m : Miner = record (s.miner) { stratum = sctx } in
    let logged = if ok then remembered c sent (sent.nonces work.submit_nonce_id) m else m in
    (record s { miner = one_more logged; wire = s.wire ++ wire }, true)

-- The name of the job is another than that of the work in hand; it stands after the time.
unfoldable pub is_outdated : Miner → Work → Bool
is_outdated m work =
    ltb 0 (length (drop 8 work.job_id))
    && not (text_eq (drop 8 work.job_id) (drop 8 m.g_work.job_id))

-- `stale_work` after the two first tests, and the pool's count of stale shares.
pub first_tests : Sending → Work → Upstream → Upstream × Bool
unfolding is_outdated
first_tests c work s =
    let m : Miner = s.miner in
    let lower = not (work.height == 0) && ltb work.height m.g_work.height in
    let count = (s.stales_count work.pooln + 1) % 2 ^ 32 in
    let outdated : Upstream = record s {
      stales_count = λ i. if i == work.pooln then count else s.stales_count i;
      check_stratum_jobs = s.check_stratum_jobs || ltb 5 count;
    } in
    if m.have_stratum
      && not lower
      && not c.opt_submit_stale
      && not (one_of m.opt_algo (zr5 ∷ scrypt_jane ∷ []))
    then (if is_outdated m work then (outdated, true) else (s, false))
    else (s, lower)

-- `memcmp(a, b, ...)` on `n` words from the word `i` on
differs : (ℕ → ℕ) → (ℕ → ℕ) → ℕ → ℕ → Bool
differs a b i zero = false
differs a b i (suc n) = not (a i == b i) || differs a b (i + 1) n

-- The state, whether a block of this height was already solved, and `stale_work`.
pub asked_height : Sending → Work → Upstream → Bool → Upstream × Bool × Bool
unfolding get_blocktemplate
asked_height c work s stale =
    let (m, answered, height) = get_blocktemplate c.opt_quiet c.is_lost c.template 0 s.miner in
    if not s.miner.have_stratum && not stale && s.miner.allow_gbt
    then (
      record s { miner = m },
      answered && not (work.height == 0) && ltb work.height height,
      stale,
    )
    else (s, false, stale)

-- ZR5 compares the header with the work in hand.
last_test : Work → Miner → Bool → Bool
unfolding differs
last_test work m stale =
    if not stale && one_of m.opt_algo (zr5 ∷ []) && not m.have_stratum
    then differs work.words m.g_work.words 1 17
    else stale

-- The line is sent, and the share is counted and remembered.
sent_share : Sending → Work → ℕ → Miner → Upstream → Bool × List ℕ → Upstream × Bool
unfolding remembered one_more
sent_share c work nonce m s (ok, wire) =
    let tried : Miner = record m {
      stratum = record (m.stratum) { sharediff = work.sharediff work.submit_nonce_id };
    } in
    let logged = if m.check_dups || c.opt_showdiff then remembered c work nonce tried else tried in
    if ok
    then (record s { miner = one_more logged; wire = s.wire ++ wire }, true)
    else (record s { miner = tried; wire = s.wire ++ wire }, false)

-- A share that was sent before is not sent again: the threads restart.
unfoldable pub stratum_submit : Sending → Work → Upstream → Upstream × Bool
unfolding encoded already_submitted checks_dups share_line stratum_send_line sent_share
stratum_submit c work s =
    let e : Encoded = encoded s.miner.opt_algo work in
    let m : Miner = record (s.miner) {
      check_dups = s.miner.check_dups || checks_dups s.miner.opt_algo;
    } in
    let again : Miner = record m {
      g_work_time = 0;
      work_restart = restart_threads m.opt_n_threads m.work_restart;
    } in
    if m.check_dups && not (already_submitted work.job_id e.nonce m.hashlog == 0)
    then (record s { miner = again }, true)
    else sent_share c work e.nonce m s (
        stratum_send_line c.sends
          (share_line m.opt_algo c.opt_vote (m.pools work.pooln).user m.stratum work e))

-- The text of a member, or NULL.
abbrev reason_text : Option Json → Option (List ℕ)
reason_text (some (text reason)) = some reason
reason_text _ = none

abbrev is_yes : Option Json → Bool
is_yes none = false
is_yes (some v) = is_true v

-- The answer of a getwork server is counted. share_result returns true always, so that the job is
-- not erased from the log of shares.
judged : Sending → Work → Upstream → Option ShareAnswer → Upstream × Bool
unfolding share_result
judged c work s none = (s, false)
judged c work s (some v) =
    let counted : Shares =
      share_result c.shares (is_yes v.result) work.pooln (work.sharediff 0)
        (reason_text v.reject_reason)
        (record {
          tallies = s.tallies;
          check_dups = s.miner.check_dups;
          g_work_time = s.miner.g_work_time;
          global_hashrate = s.global_hashrate;
        }) in
    (
      record s {
        miner = record (s.miner) {
          check_dups = counted.check_dups;
          g_work_time = counted.g_work_time;
        };
        tallies = counted.tallies;
        global_hashrate = counted.global_hashrate;
      },
      true,
    )

-- The share goes to its pool, unless it is stale.
pub to_pool : Sending → Work → Upstream × Bool × Bool → Upstream × Bool
unfolding stratum_submit judged last_test getwork_line
to_pool c work (s, solved, stale) =
    if solved
    then (s, true)
    else if not c.submit_old && last_test work s.miner stale
    then (s, true)
    else if is_stratum s.miner work
    then stratum_submit c work s
    else judged c work s (c.server (getwork_line s.miner.opt_algo c.use_roots work))

unfoldable pub submit_upstream_work : Sending → Work → Upstream → Upstream × Bool
unfolding verus_sent verus_stratum_submit to_pool asked_height first_tests
submit_upstream_work c work s =
    let (tested, stale) = first_tests c work s in
    if is_stratum s.miner work && s.miner.stratum.is_equihash
    then verus_sent c work s
        (verus_stratum_submit c.sends (s.miner.pools work.pooln).user work s.miner.stratum)
    else to_pool c work (asked_height c work tested stale)

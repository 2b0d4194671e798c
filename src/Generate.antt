-- ===== src/Generate.antt =====
-- ccminer.cpp: stratum_gen_work, which makes a work unit from the connection's job, and
-- calc_network_diff. SHA256 of OpenSSL and rand are arguments; the build without the algorithms of
-- WITH_HEAVY_ALGO is modelled, and messages are left out.
pub mod Counter
pub mod Header
pub mod Words
mod Tests
use ccminer.Common.{
  ℕ, zero, suc, ◌+◌, ◌-◌, ◌*◌, ◌/◌, ◌%◌, ◌^◌, Bool, true, false, not, ◌&&◌, ◌||◌, Option, none,
  some, List, [], ◌∷◌, ◌++◌, ltb, ◌==◌, if◌then◌else◌, length, take, drop, get_or, replicate,
}
use ccminer.Algos.{
  ShaAlgos, to_int, decred, equihash, sia, lbry, phi2, mjollnir, heavy, zr5, hmq1725, jackpot, jha,
  neoscrypt, scrypt, scrypt_jane, allium, dmd_gr, fresh, fugue256, groestl, keccakc, lyra2v2,
  lyra2z, timetravel, bitcore, x16r, x16s, keccak, lyra2,
}
use ccminer.Common.Int.{ℤ, pos, eq_int}
use ccminer.Common.Memory.{overlay, write_at}
use ccminer.Float.{Double, Arith}
use ccminer.Hex.{hex_digit}
use ccminer.Stratum.{Stratum, Job}
use ccminer.Stratum.Verus.{verus_network_diff, verus_work_set_target}
use ccminer.Target.Difficulty.{work_set_target}
use ccminer.Generate.Words.{
  Settings, is_algo, le32dec, be32dec, swab32, set_words, set_word, header_start, decred_words,
  equihash_words, lbry_words, phi2_words, sia_words, other_words,
}
use ccminer.Work.{Work}

-- What it changes: the connection, the work and three globals.
pub record State : Type 0 where
  pub sctx : Stratum
  pub work : Work
  pub net_diff : Double
  pub opt_difficulty : Double
  pub stratum_diff : Double

-- "%07x" of 28 bits, and the name of the job, as far as they fit.
seven_digits : ℕ → List ℕ
unfolding hex_digit
seven_digits w =
    hex_digit (w / 2 ^ 24 % 16)
    ∷ hex_digit (w / 2 ^ 20 % 16)
    ∷ hex_digit (w / 2 ^ 16 % 16)
    ∷ hex_digit (w / 2 ^ 12 % 16)
    ∷ hex_digit (w / 2 ^ 8 % 16)
    ∷ hex_digit (w / 2 ^ 4 % 16)
    ∷ hex_digit (w % 16)
    ∷ []

unfoldable pub work_id : List ℕ → List ℕ → List ℕ
unfolding seven_digits be32dec
work_id ntime id = take 127 (seven_digits (be32dec ntime 0 % 2 ^ 28) ++ b' ' ∷ id)

-- The hash of the coinbase, and behind it the last branch: the loop over the branches computes no
-- hash.
merkle_root_of : Settings → Job → List ℕ
merkle_root_of c job =
    let hash = if is_algo c (decred ∷ equihash ∷ sia ∷ []) then [] else c.sha256 job.coinbase in
    branches (overlay hash (replicate 64 0)) job.merkle
  where
    branches : List ℕ → List (List ℕ) → List ℕ
    branches root [] = root
    branches root (b ∷ merkle) = branches (write_at 32 b root) merkle

-- The loop over the second nonce: a byte that wraps to 0 carries into the next.
unfoldable pub increment : List ℕ → List ℕ
increment [] = []
increment (b ∷ bs) = if (b + 1) % 256 == 0 then 0 ∷ increment bs else (b + 1) % 256 ∷ bs

abbrev pub second_nonce : Stratum → List ℕ
second_nonce s = take s.xnonce2_size (drop s.job.xnonce2 s.job.coinbase)

unfoldable pub next_nonce : Stratum → Stratum
unfolding increment
next_nonce s =
    let coinbase = write_at s.job.xnonce2 (increment (second_nonce s)) s.job.coinbase in
    record s { job = record (s.job) { coinbase = coinbase } }

-- decred takes its height from the header, and cuts the extranonce that does not fit.
decred_sctx : Stratum → (ℕ → ℕ) → Stratum
decred_sctx s words = record s {
  xnonce1_size = if ltb 64 s.xnonce1_size then 64 else s.xnonce1_size;
  job = record (s.job) { height = words 32 };
}

-- The header by algorithm, from `root`, and the connection.
unfoldable pub assemble : Settings → List ℕ → Stratum → Work → Stratum × Work
unfolding decred_words equihash_words lbry_words phi2_words sia_words other_words decred_sctx
assemble c root s work =
    let start = header_start s.job in
    let with_words = λ (words : ℕ → ℕ). record work { words = words } in
    if is_algo c (decred ∷ [])
    then (decred_sctx s (decred_words c s start), with_words (decred_words c s start))
    else if is_algo c (equihash ∷ [])
    then (
      s,
      record work {
        words = equihash_words s start;
        solution = overlay (take 1344 s.job.solution) work.solution;
      },
    )
    else if is_algo c (lbry ∷ [])
    then (s, with_words (lbry_words root s.job start))
    else if is_algo c (phi2 ∷ [])
    then (s, with_words (phi2_words root s.job start))
    else if is_algo c (sia ∷ [])
    then (s, with_words (sia_words c s.job start))
    else (s, with_words (other_words c root s.job start))

unfoldable pub calc_network_diff : Settings → Work → Double → Double
unfolding verus_network_diff
calc_network_diff c work net_diff =
    if is_algo c (equihash ∷ []) then verus_network_diff c.fp work else net_diff

-- The words that some algorithms hash with their bytes swapped, and the vote of heavy; the reward of
-- a job is never set.
swapped : Settings → Work → Work
unfolding swab32
swapped c work =
    if is_algo c (mjollnir ∷ heavy ∷ zr5 ∷ [])
    then record work { words = set_words 0 20 (λ i. swab32 (work.words i)) work.words }
    else work

voted : Settings → Work → Work
voted c work =
    if is_algo c (heavy ∷ [])
    then record work { maxvote = 2048; words = set_word 20 c.opt_vote work.words }
    else work

-- The target by algorithm: the difficulty over a factor.
factor : Settings → Double
factor c =
    if is_algo c (hmq1725 ∷ jackpot ∷ jha ∷ neoscrypt ∷ scrypt ∷ scrypt_jane ∷ [])
    then c.fp.of_int 65536
    else if is_algo c (
        allium ∷ dmd_gr ∷ fresh ∷ fugue256 ∷ groestl ∷ keccakc ∷ lbry ∷ lyra2v2 ∷ lyra2z ∷ phi2
        ∷ timetravel ∷ bitcore ∷ x16r ∷ x16s ∷ [])
    then c.fp.of_int 256
    else c.fp.of_int 128

has_factor : Settings → Bool
has_factor c = is_algo c (
    hmq1725 ∷ jackpot ∷ jha ∷ neoscrypt ∷ scrypt ∷ scrypt_jane ∷ allium ∷ dmd_gr ∷ fresh ∷ fugue256
    ∷ groestl ∷ keccakc ∷ lbry ∷ lyra2v2 ∷ lyra2z ∷ phi2 ∷ timetravel ∷ bitcore ∷ x16r ∷ x16s
    ∷ keccak ∷ lyra2 ∷ [])

unfoldable pub targeted : Settings → Job → Double → Work → Work
unfolding factor has_factor work_set_target verus_work_set_target le32dec
targeted c job difficulty work =
    let fp = c.fp in
    if has_factor c
    then work_set_target fp (fp.div job.diff (fp.mul (factor c) difficulty)) work
    else if is_algo c (equihash ∷ [])
    then verus_work_set_target (fp.div job.diff difficulty)
        (record work { target = set_words 0 8 (le32dec job.extra) work.target })
    else work_set_target fp (fp.div job.diff difficulty) work

-- The name, the second nonce, the height and the pool of the work.
named : List ℕ → State → Work
unfolding work_id
named id st = record (st.work) {
  job_id = work_id st.sctx.job.ntime id;
  xnonce2_len = st.sctx.xnonce2_size;
  xnonce2 = overlay (second_nonce st.sctx) st.work.xnonce2;
  height = st.sctx.job.height;
  pooln = st.sctx.pooln % 256;
}

-- From the lock on: there is a job.
generated : Settings → List ℕ → State → State
unfolding named merkle_root_of next_nonce assemble calc_network_diff swapped voted targeted
generated c id st =
    let root = merkle_root_of c st.sctx.job in
    let (sctx, work) = assemble c root (next_nonce st.sctx) (named id st) in
    let net_diff =
      if c.opt_showdiff || c.fp.lt (c.fp.of_int 0) c.opt_max_diff
      then calc_network_diff c work st.net_diff
      else st.net_diff in
    let difficulty = if c.fp.is_zero st.opt_difficulty then c.fp.of_int 1 else st.opt_difficulty in
    record {
      sctx = sctx;
      work = targeted c sctx.job difficulty (voted c (swapped c work));
      net_diff = net_diff;
      opt_difficulty = difficulty;
      stratum_diff = sctx.job.diff;
    }

with_job : Settings → Option (List ℕ) → State → State × Bool
unfolding generated
with_job c none st = (st, false)
with_job c (some id) st = (generated c id st, true)

unfoldable pub stratum_gen_work : Settings → State → State × Bool
unfolding with_job
stratum_gen_work c st = with_job c st.sctx.job.job_id st

-- ===== src/Generate/Words.antt =====
-- ccminer.cpp: the words of a block header that stratum_gen_work assembles, by algorithm; compat.h and
-- miner.h: le32dec, be32dec and swab32.
use ccminer.Common.{
  ℕ, ◌+◌, ◌-◌, ◌*◌, ◌/◌, ◌%◌, ◌^◌, Bool, false, not, ◌&&◌, ◌||◌, List, [], ◌∷◌, ltb, ◌==◌,
  if◌then◌else◌, take, drop, get_or,
}
use ccminer.Algos.{ShaAlgos, to_int, mjollnir}
use ccminer.Common.Int.{ℤ, pos, eq_int}
use ccminer.Float.{Double, Arith}
use ccminer.Stratum.{Stratum, Job}

-- What the function is given from outside, and the options that it reads.
pub record Settings : Type 0 where
  pub fp : Arith
  pub sha256 : List ℕ → List ℕ
  pub random : ℕ
  pub opt_algo : ℤ
  pub opt_vote : ℕ
  pub opt_showdiff : Bool
  pub opt_max_diff : Double

unfoldable pub is_algo : Settings → List ShaAlgos → Bool
is_algo c [] = false
is_algo c (a ∷ algos) = eq_int c.opt_algo (pos (to_int a)) || is_algo c algos

-- le32dec and be32dec of four bytes, at a word of a buffer
abbrev pub byte_at : List ℕ → ℕ → ℕ → ℕ
byte_at buffer i k = get_or (drop (4 * i) buffer) k 0

unfoldable pub le32dec : List ℕ → ℕ → ℕ
le32dec buffer i =
    byte_at buffer i 0
    + 2 ^ 8 * byte_at buffer i 1
    + 2 ^ 16 * byte_at buffer i 2
    + 2 ^ 24 * byte_at buffer i 3

unfoldable pub be32dec : List ℕ → ℕ → ℕ
be32dec buffer i =
    2 ^ 24 * byte_at buffer i 0
    + 2 ^ 16 * byte_at buffer i 1
    + 2 ^ 8 * byte_at buffer i 2
    + byte_at buffer i 3

unfoldable pub swab32 : ℕ → ℕ
swab32 w =
    2 ^ 24 * (w % 256) + 2 ^ 16 * (w / 2 ^ 8 % 256) + 2 ^ 8 * (w / 2 ^ 16 % 256) + w / 2 ^ 24 % 256

-- `n` words from `start` on are those of `f`.
abbrev pub set_words : ℕ → ℕ → (ℕ → ℕ) → (ℕ → ℕ) → ℕ → ℕ
set_words start n f words i =
    if not (ltb i start) && ltb i (start + n) then f (i - start) else words i

abbrev pub set_word : ℕ → ℕ → (ℕ → ℕ) → ℕ → ℕ
set_word j v words i = if i == j then v else words i

-- The version and the previous hash, in words that were cleared.
unfoldable pub header_start : Job → ℕ → ℕ
unfolding le32dec
header_start job =
    set_words 1 8 (le32dec job.prevhash) (set_word 0 (le32dec job.version 0) (λ i. 0))

-- The block header of decred: its vote, the extranonce as far as it fits, a random word and the end of the
-- coinbase.
unfoldable pub decred_words : Settings → Stratum → (ℕ → ℕ) → ℕ → ℕ
unfolding swab32 le32dec
decred_words c s start =
    let reversed = set_words 1 8 (λ i. swab32 (start (i + 1))) start in
    let filled = set_words 9 27 (le32dec s.job.coinbase) reversed in
    let w = filled 25 in
    let vote = c.opt_vote * 2 % 2 ^ 16 + w % 2 in
    let voted = set_word 25 (w / 2 ^ 16 * 2 ^ 16 + vote) filled in
    let size = if ltb 64 s.xnonce1_size then 64 else s.xnonce1_size in
    let nonced = set_words 36 ((size + 3) / 4) (λ i. le32dec (take size s.xnonce1) i) voted in
    set_word 44 (le32dec (drop (s.job.coinbase_size - 4) s.job.coinbase) 0)
      (set_word 37 (c.random * 2 ^ 10 % 2 ^ 32) nonced)

unfoldable pub equihash_words : Stratum → (ℕ → ℕ) → ℕ → ℕ
unfolding le32dec
equihash_words s start =
    let size = s.xnonce1_size % 32 in
    let roots = set_words 9 16 (le32dec s.job.coinbase) start in
    let timed = set_word 26 (le32dec s.job.nbits 0) (set_word 25 (le32dec s.job.ntime 0) roots) in
    set_word 35 0x80 (set_words 27 ((size + 3) / 4) (le32dec (take size s.xnonce1)) timed)

unfoldable pub lbry_words : List ℕ → Job → (ℕ → ℕ) → ℕ → ℕ
unfolding le32dec be32dec
lbry_words root job start =
    let claim = set_words 17 8 (le32dec job.extra) (set_words 9 8 (be32dec root) start) in
    set_word 28 (2 ^ 31)
      (set_word 26 (le32dec job.nbits 0) (set_word 25 (le32dec job.ntime 0) claim))

unfoldable pub phi2_words : List ℕ → Job → (ℕ → ℕ) → ℕ → ℕ
unfolding le32dec be32dec
phi2_words root job start = set_words 20 16 (le32dec job.extra) (
    set_word 18 (le32dec job.nbits 0)
      (set_word 17 (le32dec job.ntime 0) (set_words 9 8 (be32dec root) start)))

unfoldable pub sia_words : Settings → Job → (ℕ → ℕ) → ℕ → ℕ
unfolding le32dec be32dec swab32
sia_words c job start =
    let extra = get_or job.coinbase 32 0 + 256 * get_or job.coinbase 33 0 in
    let hashed = set_words 0 8 (λ i. le32dec job.prevhash (7 - i)) start in
    let mixed = set_word 9 (swab32 extra + c.random * 256 % 2 ^ 16) (set_word 8 0 hashed) in
    let timed = set_word 11 (be32dec job.nbits 0) (set_word 10 (be32dec job.ntime 0) mixed) in
    set_word 20 (2 ^ 31) (set_words 12 8 (le32dec job.coinbase) timed)

unfoldable pub other_words : Settings → List ℕ → Job → (ℕ → ℕ) → ℕ → ℕ
unfolding le32dec be32dec
other_words c root job start =
    let timed =
      set_word 18 (le32dec job.nbits 0)
        (set_word 17 (le32dec job.ntime 0) (set_words 9 8 (be32dec root) start)) in
    set_word 31 (if is_algo c (mjollnir ∷ []) then 0x2a0 else 0x280) (set_word 20 (2 ^ 31) timed)

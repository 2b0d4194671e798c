-- ===== src/Scan/Setup.antt =====
-- verus/verusscan.cpp: from the work to the block and the key of its search, and from the nonce
-- found back to the work (with bn_store_hash_target_ratio of bignum.cpp). `malloc` is taken to
-- succeed.
pub mod Outcome
use ccminer.Common.{
  ℕ, zero, suc, ◌+◌, ◌-◌, ◌*◌, ◌/◌, ◌%◌, ◌^◌, Bool, true, false, not, Option, none, some, List, [],
  ◌∷◌, ◌&&◌, ◌||◌, ltb, leb, ◌==◌, if◌then◌else◌, get_or,
}
use ccminer.Common.Memory.{write_at}
use ccminer.Bench.{update}
use ccminer.Float.{Double, Arith}
use ccminer.Work.{Work}
use ccminer.Scan.{
  Bytes, Key, Hashes, Scan, copy, byte_of, fix_from, fix_key, prepare_hash_input, finalized,
  finalize_hash, verus2hash, try_nonce, scan_from,
}

-- The number of `n` bytes, the least significant first.
pub number_of : ℕ → Bytes → ℕ
number_of zero bytes = 0
number_of (suc n) bytes = number_of n bytes + bytes n * 256 ^ n

abbrev pub word_of : Bytes → ℕ → ℕ
word_of bytes j = number_of 4 (λ i. bytes (4 * j + i))

unfoldable pub bytes_of : ℕ → Bytes → List ℕ
bytes_of zero bytes = []
bytes_of (suc n) bytes = bytes 0 ∷ bytes_of n (λ i. bytes (i + 1))

-- The state of VerusHashHalf.
pub record Digest : Type 0 where
  pub cur : Bytes
  pub result : Bytes
  pub cur_pos : ℕ

module _ (h : Hashes) where
  -- "digest up to 32 bytes at a time": each round takes one byte at least, so `len` rounds do.
  unfoldable pub digest_from : Bytes → ℕ → ℕ → ℕ → Digest → Digest
  digest_from bytes len zero pos d = d
  digest_from bytes len (suc left) pos d =
      let room = 32 - d.cur_pos in
      let full : Bytes = copy (32 + d.cur_pos) room (λ i. bytes (pos + i)) d.cur in
      let hashed =
        digest_from bytes len left (pos + room)
          (record { cur = copy 0 32 (h.haraka512 full) d.result; result = full; cur_pos = 0 }) in
      if leb len pos then d else if leb room (len - pos) then hashed else record d {
        cur = copy (32 + d.cur_pos) (len - pos) (λ i. bytes (pos + i)) d.cur;
        cur_pos = d.cur_pos + (len - pos);
      }

  -- `fresh` is what buf2 holds before it is written.
  unfoldable pub verus_hash_half : Bytes → Bytes → ℕ → Bytes
  verus_hash_half fresh bytes len =
      let d = digest_from bytes len len 0 (record { cur = λ _. 0; result = fresh; cur_pos = 0 }) in
      let filled : Bytes = copy 47 16 d.cur d.cur in update filled 63 (filled 0)

  -- Block `i` of the key: haraka256, one time more than the block before.
  key_block : ℕ → Bytes → Bytes
  key_block zero seed = h.haraka256 seed
  key_block (suc i) seed = h.haraka256 (key_block i seed)

  unfoldable pub gen_new_clkey : Bytes → Key
  unfolding key_block
  gen_new_clkey seed k = number_of 16 (λ i. key_block (k / 2) seed (k % 2 * 16 + i))

-- The test for merged mining.
pub is_merged : Work → Bool
is_merged w = leb 7 (get_or w.solution 0 0) && ltb 0 (get_or w.solution 5 0)

-- The bytes of header and solution that are cleared for merged mining.
abbrev pub is_cleared : ℕ → Bool
is_cleared i =
    (leb 4 i && ltb i 100)
    || (leb 104 i && ltb i 108)
    || (leb 108 i && ltb i 140)
    || (leb 151 i && ltb i 215)

unfoldable pub full_data : Work → Bytes
unfolding is_merged
full_data w i =
    if is_merged w && is_cleared i
    then 0
    else if ltb i 140
    then byte_of (w.words (i / 4)) (i % 4)
    else if i == 140
    then 253
    else if i == 141
    then 64
    else if i == 142
    then 5
    else get_or w.solution (i - 143) 0

unfoldable pub nonce_space : Work → Bytes
unfolding is_merged
nonce_space w i =
    if not (is_merged w)
    then 0
    else if ltb i 7
    then byte_of (w.words (27 + i / 4)) (i % 4)
    else if ltb i 11
    then byte_of (w.words 32) (i - 7)
    else 0

abbrev pub turned : Bytes → Bytes
turned block i = block ((i + 1) % 16)

abbrev pub hash_limit : ℕ → ℕ
hash_limit max_nonce = if max_nonce == 0 then 1 else max_nonce

module _ (h : Hashes) where
  -- The block that the nonces are put into.
  unfoldable pub block_of : Bytes → Work → Bytes
  block_of fresh w = copy 32 11 (nonce_space w) (verus_hash_half h fresh (full_data w) 1487)

  unfoldable pub key_of : Bytes → Work → Key
  key_of fresh w = gen_new_clkey h (verus_hash_half h fresh (full_data w) 1487)

  unfoldable pub searched : Bytes → (ℕ → Bool) → Work → ℕ → Scan h × Option ℕ
  searched fresh restart w max_nonce =
      let block : Bytes = block_of fresh w in
      scan_from h (turned block) (block 0) w.target restart (hash_limit max_nonce) (record {
        vhash = λ _. 0;
        buffer = block;
        key = key_of fresh w;
        nonce_buf = 0;
        completed = 0;
      })

module _ (fp : Arith) (opt_showdiff : Bool) (ratio : (ℕ → ℕ) → (ℕ → ℕ) → Double) where
  -- `ratio` is bn_hash_target_ratio; the ratio itself is read by nothing that is modelled.
  unfoldable pub bn_store_hash_target_ratio : (ℕ → ℕ) → (ℕ → ℕ) → ℕ → Work → Work
  bn_store_hash_target_ratio hash target nonce w =
      if not opt_showdiff || leb 2 nonce then w else record w {
        sharediff = update w.sharediff nonce (fp.mul w.targetdiff (ratio hash target));
      }

  -- The bytes of the field for the nonce, with the nonce found in the last four.
  abbrev pub full_nonce : Work → ℕ → Bytes
  full_nonce w nonce = copy 11 4 (byte_of nonce) (nonce_space w)

  -- The lambda of scanhash_verus. The caller starts with no valid nonce, so that the count of 8 bits does
  -- not wrap and the first of the two nonces is written.
  unfoldable pub record_solution : (ℕ → ℕ) → ℕ → Work → Work
  record_solution vhash solution_nonce w =
      let nonce = w.valid_nonces in
      let header : Bytes = full_data w in
      let extra : List ℕ =
        write_at 1332 (bytes_of 15 (full_nonce w solution_nonce))
          (write_at 0 (bytes_of 1347 (λ i. header (140 + i))) w.extra) in
      let stored : Work = bn_store_hash_target_ratio vhash w.target nonce (record w {
        valid_nonces = w.valid_nonces + 1;
        words = λ j. if ltb j 35 then word_of header j else w.words j;
        extra = extra;
      }) in
      record stored { nonces = update stored.nonces nonce (word_of header 30) }

  unfoldable pub after_search : (ℕ → ℕ) → Option ℕ → Work → Work
  after_search vhash none w = w
  after_search vhash (some nonce) w = record_solution vhash nonce w

  -- From the label `out` on.
  unfoldable pub finish : (h : Hashes) → Work → Scan h × Option ℕ → Work × ℕ
  finish h w (end, found) =
      let done : Work = after_search end.vhash found w in
      (
        record done { words = update done.words 30 ((word_of (full_data w) 30 + 1) % 2 ^ 32) },
        end.completed,
      )

  -- The work and the number of hashes done. The value returned is the work's number of valid nonces.
  unfoldable pub scanhash_verus : Hashes → Bytes → (ℕ → Bool) → Work → ℕ → Work × ℕ
  unfolding searched finish after_search record_solution bn_store_hash_target_ratio block_of key_of
      verus_hash_half digest_from gen_new_clkey full_data nonce_space scan_from try_nonce verus2hash
      fix_key fix_from finalize_hash finalized prepare_hash_input copy number_of bytes_of
  scanhash_verus h fresh restart w max_nonce = finish h w (searched h fresh restart w max_nonce)

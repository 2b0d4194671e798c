-- ===== src/Scan.antt =====
-- verus/verusscan.cpp: the search of one thread for a nonce whose hash meets the target, in the
-- build with one lane (not ARM). Buffers are functions of the index; a key is one of 128-bit words.
-- The hash functions (haraka.c, verus_clhash) are the parameter `Hashes`.
pub mod Prepared
pub mod Keys
pub mod Restore
pub mod Loop
pub mod Lanes
pub mod Setup
mod Tests
use ccminer.Common.{
  ℕ, zero, suc, ◌+◌, ◌-◌, ◌*◌, ◌/◌, ◌%◌, ◌^◌, Bool, true, false, Option, none, some, List, ◌&&◌,
  ltb, leb, ◌==◌, if◌then◌else◌, bit_and,
}
use ccminer.Bench.{update}
use ccminer.Float.{Double}
use ccminer.Target.{fulltest}

abbrev pub Bytes : Type 0
Bytes = ℕ → ℕ

abbrev pub Key : Type 0
Key = ℕ → ℕ

-- What a run of verusclhashv2_2 leaves: its value, the key that it has written to, and for each of
-- its 32 rounds the two places of the key and what they held before the round.
pub record ClHash : Type 0 where
  pub intermediate : ℕ
  pub key : Key
  pub fixrand : ℕ → ℕ
  pub fixrandex : ℕ → ℕ
  pub g_prand : ℕ → ℕ
  pub g_prandex : ℕ → ℕ

pub record Hashes : Type 0 where
  -- of 64 bytes, 32 bytes, and of 32 bytes, 32 bytes
  pub haraka512 : Bytes → Bytes
  pub haraka256 : Bytes → Bytes
  -- the hash as eight words, and its last word alone
  pub haraka512_keyed : Bytes → Key → ℕ → ℕ
  pub haraka512_keyed_highword : Bytes → Key → ℕ
  pub verusclhashv2_2 : Key → Bytes → ClHash

-- `memcpy(to + start, from, count)`
unfoldable pub copy : ℕ → ℕ → Bytes → Bytes → Bytes
copy start count from to i = if leb start i && ltb i (start + count) then from (i - start) else to i

-- The loop of FixKey: the rounds left, the last one first.
unfoldable pub fix_from : ClHash → ℕ → Key → Key
fix_from r zero key = key
fix_from r (suc i) key =
    fix_from r i (update (update key (r.fixrandex i) (r.g_prandex i)) (r.fixrand i) (r.g_prand i))

unfoldable pub fix_key : ClHash → Key → Key
unfolding fix_from
fix_key r key = fix_from r 32 key

-- The build for ARM keeps the key as it was, and the two places of a round in one word.
unfoldable pub restore_from : (ℕ → ℕ) → Key → ℕ → ℕ → Key → Key
restore_from touched pristine zero i key = key
restore_from touched pristine (suc left) i key =
    let first = bit_and (touched i) (2 ^ 16 - 1) in
    let second = touched i / 2 ^ 16 in
    restore_from touched pristine left (i + 1)
      (update (update key first (pristine first)) second (pristine second))

unfoldable pub restore_key : (ℕ → ℕ) → Key → Key → Key
unfolding restore_from
restore_key touched key pristine = restore_from touched pristine 32 0 key

-- Byte `i` of a number, the least significant first.
abbrev pub byte_of : ℕ → ℕ → ℕ
byte_of n i = n / 256 ^ i % 256

-- The first block, turned by one byte, its first byte and the nonce.
unfoldable pub prepare_hash_input : Bytes → Bytes → ℕ → ℕ → Bytes
unfolding copy
prepare_hash_input cur fill1 first_byte nonce =
    copy 43 4 (byte_of nonce) (update (copy 48 16 fill1 cur) 47 first_byte)

module _ (h : Hashes) where
  -- The buffer that FinalizeHash hashes: bytes 1 to 7 and 0 of the value, twice.
  unfoldable pub finalized : Bytes → ℕ → Bytes
  unfolding copy
  finalized cur intermediate =
      update (copy 48 16 (λ i. byte_of intermediate ((i + 1) % 8)) cur) 47 (byte_of intermediate 0)

  -- The key is read from place `intermediate & 511` on. The result: is the hash valid, and the hash
  -- buffer, which is written only if the last word passes.
  unfoldable pub finalize_hash : (ℕ → ℕ) → Bytes → (ℕ → ℕ) → ℕ → Key → ℕ → Bool × (ℕ → ℕ)
  finalize_hash hash cur target high_target data_key intermediate =
      let buffer = finalized cur intermediate in
      let key : Key = λ i. data_key (i + bit_and intermediate 511) in
      if leb (h.haraka512_keyed_highword buffer key) high_target
      then (fulltest (h.haraka512_keyed buffer key) target, h.haraka512_keyed buffer key)
      else (false, hash)

  pub record Hashed : Type 0 where
    pub valid : Bool
    pub hash : ℕ → ℕ
    pub buffer : Bytes
    pub key : Key

  unfoldable pub verus2hash : (ℕ → ℕ) → Bytes → (ℕ → ℕ) → ℕ → Key → Hashed
  verus2hash hash cur target high_target data_key =
      let r = h.verusclhashv2_2 data_key cur in
      let (valid, written) = finalize_hash hash cur target high_target r.key r.intermediate in
      record {
        valid = valid;
        hash = written;
        buffer = finalized cur r.intermediate;
        key = fix_key r r.key;
      }

  -- What the loop of scanhash_verus changes.
  pub record Scan : Type 0 where
    pub vhash : ℕ → ℕ
    pub buffer : Bytes
    pub key : Key
    pub nonce_buf : ℕ
    pub completed : ℕ

  module _ (fill1 : Bytes) (first_byte : ℕ) (target : ℕ → ℕ) (restart : ℕ → Bool) where
    -- One round up to the test of `valid`.
    unfoldable pub try_nonce : Scan → Bool × Scan
    try_nonce s =
        let r =
          verus2hash s.vhash (prepare_hash_input s.buffer fill1 first_byte s.nonce_buf) target
            (target 7) s.key in
        (
          r.valid,
          record {
            vhash = r.hash;
            buffer = r.buffer;
            key = r.key;
            nonce_buf = s.nonce_buf;
            completed = s.completed + 1;
          },
        )

    -- The loop, on the hashes that are left: the state at its end and the nonce found. `restart n`
    -- is what work_restart and abort_flag say after `n` hashes.
    unfoldable pub scan_from : ℕ → Scan → Scan × Option ℕ
    scan_from zero s = (s, none)
    scan_from (suc left) s =
        let (valid, tried) = try_nonce s in
        let next : Scan = record tried { nonce_buf = (s.nonce_buf + 1) % 2 ^ 32 } in
        let rest = scan_from left next in
        if valid
        then (tried, some s.nonce_buf)
        else if bit_and next.completed 511 == 0 && restart next.completed
        then (next, none)
        else rest

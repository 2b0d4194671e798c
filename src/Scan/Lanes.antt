-- ===== src/Scan/Lanes.antt =====
-- verus/verusscan.cpp: the loop of scanhash_verus that hashes two nonces at a time, in the build for
-- ARM, up to the label `out`.
pub mod Batches
use ccminer.Common.{
  ℕ, zero, suc, ◌+◌, ◌-◌, ◌*◌, ◌%◌, ◌^◌, Bool, true, false, Option, none, some, ◌&&◌, ◌||◌, ◌==◌,
  if◌then◌else◌, bit_and,
}
use ccminer.Scan.{Key, Bytes, Hashes, prepare_hash_input, finalized, finalize_hash, restore_key}

-- What a run leaves for one lane: its value, the key that it has written to, and the places noted.
pub record LaneHash : Type 0 where
  pub intermediate : ℕ
  pub key : Key
  pub touched : ℕ → ℕ

-- The buffer and the key of a lane.
pub record Lane : Type 0 where
  pub buffer : Bytes
  pub key : Key

pub record Lanes : Type 0 where
  pub vhash : ℕ → ℕ
  pub first : Lane
  pub second : Lane
  pub nonce_buf : ℕ
  pub completed : ℕ

-- The end of a batch: the nonce found, the state, is a restart asked for, and the rest of the search.
abbrev pub after_batch : Option ℕ → Lanes → Bool → Lanes × Option ℕ → Lanes × Option ℕ
after_batch (some n) next told rest = (next, some n)
after_batch none next told rest = if told then (next, none) else rest

-- `dual` is verusclhashv2_2_dual, `fresh` what candidate_hash holds before it is written.
module _ (h : Hashes) (dual : Key → Bytes → Key → Bytes → LaneHash × LaneHash) (fresh : ℕ → ℕ)
    (fill1 : Bytes) (first_byte : ℕ) (target : ℕ → ℕ) (pristine : Key) where
  -- One batch up to the test of `found`: the nonce found, and the state with both nonces counted.
  pub batch : Lanes → Option ℕ × Lanes
  batch s =
      let second_nonce = (s.nonce_buf + 1) % 2 ^ 32 in
      let buf0 = prepare_hash_input s.first.buffer fill1 first_byte s.nonce_buf in
      let buf1 = prepare_hash_input s.second.buffer fill1 first_byte second_nonce in
      let r = dual s.first.key buf0 s.second.key buf1 in
      let (found0, hash0) = finalize_hash h fresh buf0 target (target 7) r.0.key r.0.intermediate in
      let (found1, hash1) = finalize_hash h fresh buf1 target (target 7) r.1.key r.1.intermediate in
      (
        if found0 then some s.nonce_buf else if found1 then some second_nonce else none,
        record {
          vhash = if found0 then hash0 else if found1 then hash1 else s.vhash;
          first = record {
            buffer = finalized h buf0 r.0.intermediate;
            key = restore_key r.0.touched r.0.key pristine;
          };
          second = record {
            buffer = finalized h buf1 r.1.intermediate;
            key = restore_key r.1.touched r.1.key pristine;
          };
          nonce_buf = (s.nonce_buf + 2) % 2 ^ 32;
          completed = s.completed + 2;
        },
      )

  -- The loop, on the batches that are left. `restart n` is what work_restart and abort_flag say
  -- after `n` hashes.
  unfoldable pub batches_from : (ℕ → Bool) → ℕ → Lanes → Lanes × Option ℕ
  batches_from restart zero s = (s, none)
  batches_from restart (suc left) s =
      let (found, next) = batch s in
      let rest = batches_from restart left next in
      after_batch found next (bit_and next.completed 511 == 0 && restart next.completed) rest

-- ===== src/Scan/Prepared.antt =====
-- verus/verusscan.cpp: the buffer of a round, and the early test of the last word.
use ccminer.Common.{
  ℕ, ◌+◌, ◌≡◌, refl, sym, fun_ext, true, Bool-cases, inl, inr, leb, arith, bit_and,
}
use ccminer.Target.{fulltest}
use ccminer.Target.Compare.{fulltest_last}
use ccminer.Scan.{Key, Bytes, Hashes, copy, prepare_hash_input, finalized, finalize_hash}

-- Buffers that agree below byte 43 and above byte 63.
unfoldable pub Alike : Bytes → Bytes → Type 0
Alike a b = (i : ℕ) → copy 43 21 (λ _. 0) a i ≡ copy 43 21 (λ _. 0) b i

pub prepare-Alike :
    (a b fill1 : Bytes) (first_byte nonce : ℕ)
    → Alike a b
    → prepare_hash_input a fill1 first_byte nonce ≡ prepare_hash_input b fill1 first_byte nonce
unfolding prepare_hash_input copy Alike
prepare-Alike a b fill1 first_byte nonce alike = fun_ext (λ i. let h = alike i in ground arith)

pub finalized-Alike :
    (h : Hashes) (a fill1 : Bytes) (first_byte nonce v : ℕ)
    → Alike (finalized h (prepare_hash_input a fill1 first_byte nonce) v) a
unfolding prepare_hash_input copy finalized Alike
finalized-Alike h a fill1 first_byte nonce v i = ground arith

-- The early test of the last word changes no verdict, if the last word is that of the whole hash.
pub finalize_hash_lem :
    (h : Hashes) (hash : ℕ → ℕ) (cur : Bytes) (target : ℕ → ℕ) (key : Key) (v : ℕ)
    → ((buffer : Bytes) (k : Key)
        → h.haraka512_keyed_highword buffer k ≡ h.haraka512_keyed buffer k 7)
    → (finalize_hash h hash cur target (target 7) key v).0
      ≡ fulltest (h.haraka512_keyed (finalized h cur v) (λ i. key (i + bit_and v 511))) target
unfolding finalize_hash
finalize_hash_lem h hash cur target key v last =
    let buffer : Bytes = finalized h cur v in
    let k : Key = λ i. key (i + bit_and v 511) in
    let e : h.haraka512_keyed_highword buffer k ≡ h.haraka512_keyed buffer k 7 = last buffer k in
    elim (Bool-cases (leb (h.haraka512_keyed_highword buffer k) (target 7))) [
      | inl low ↦ rw low refl
      | inr high ↦
          rw high (sym (fulltest_last (h.haraka512_keyed buffer k) target (ground (arith, e))))
    ]

-- A valid hash is in the hash buffer.
pub finalize_hash-hash :
    (h : Hashes) (hash : ℕ → ℕ) (cur : Bytes) (target : ℕ → ℕ) (high : ℕ) (key : Key) (v : ℕ)
    → (finalize_hash h hash cur target high key v).0 ≡ true
    → (finalize_hash h hash cur target high key v).1
      ≡ h.haraka512_keyed (finalized h cur v) (λ i. key (i + bit_and v 511))
unfolding finalize_hash
finalize_hash-hash h hash cur target high key v =
    elim (Bool-cases
      (leb (h.haraka512_keyed_highword (finalized h cur v) (λ i. key (i + bit_and v 511))) high)) [
        | inl low ↦ rw low (λ _. refl)
        | inr above ↦ rw above (λ never. absurd (grind arith))
      ]

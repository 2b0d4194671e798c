-- ===== src/Scan/Loop.antt =====
-- verus/verusscan.cpp: what the search finds.
use ccminer.Common.{
  ℕ, zero, suc, ◌+◌, ◌%◌, ◌^◌, ◌≤◌, ◌<◌, ◌≡◌, ◌⊎◌, refl, sym, ap, ◌∙◌, Bool, true, false, ◌&&◌,
  Option, some, none, Bool-cases, inl, inr, ◌==◌, ==_iff, arith, bit_and,
}
use ccminer.Target.{fulltest}
use ccminer.Scan.{
  Key, Bytes, Hashes, Scan, prepare_hash_input, finalized, verus2hash, try_nonce, scan_from,
}
use ccminer.Scan.Keys.{Logged, fix_key-Logged}
use ccminer.Scan.Prepared.{
  Alike, prepare-Alike, finalized-Alike, finalize_hash_lem, finalize_hash-hash,
}

-- The hash functions do what the search relies on, for the key `key`: verusclhashv2_2 notes what it
-- writes to, and haraka512_keyed_highword is the last word of haraka512_keyed.
pub record IsHashes (h : Hashes) (key : Key) : Type 0 where
  pub logged :
      (buffer : Bytes)
      → Logged (h.verusclhashv2_2 key buffer) 32 key (h.verusclhashv2_2 key buffer).key
  pub last :
      (buffer : Bytes) (k : Key)
      → h.haraka512_keyed_highword buffer k ≡ h.haraka512_keyed buffer k 7

module _ (h : Hashes) (fill1 : Bytes) (first_byte : ℕ) (target : ℕ → ℕ) (key : Key)
    (block : Bytes) where
  -- The hash of one nonce, from the key and the block as they were made.
  pub hash_of : ℕ → ℕ → ℕ
  hash_of nonce =
      let cur = prepare_hash_input block fill1 first_byte nonce in
      let r = h.verusclhashv2_2 key cur in
      h.haraka512_keyed (finalized h cur r.intermediate)
        (λ i. r.key (i + bit_and r.intermediate 511))

  pub passes : ℕ → Bool
  passes nonce = fulltest (hash_of nonce) target

  -- The state of the loop at the head of a round.
  pub record IsReady (s : Scan h) : Type 0 where
    pub same_key : s.key ≡ key
    pub same_block : Alike s.buffer block

  -- A search of `left` nonces from state `s` on has found the nonce `n`: the first that passes.
  pub record Found (s : Scan h) (left n : ℕ) (end : Scan h) : Type 0 where
    pub inside : (s.nonce_buf ≤ n) × (n < s.nonce_buf + left)
    pub passing : passes n ≡ true
    pub first : (k : ℕ) → s.nonce_buf ≤ k → k < n → passes k ≡ false
    pub hashes : end.completed + s.nonce_buf ≡ s.completed + n + 1
    pub hash : end.vhash ≡ hash_of n

  -- The search has found none, and has ended early only at a multiple of 512 hashes, by `restart`.
  pub record Exhausted (restart : ℕ → Bool) (s : Scan h) (left : ℕ) (end : Scan h) : Type 0 where
    pub none_passes :
        (k : ℕ) → s.nonce_buf ≤ k → k + s.completed < s.nonce_buf + end.completed → passes k ≡ false
    pub bound : (s.completed ≤ end.completed) × (end.completed ≤ s.completed + left)
    pub early :
        (end.completed ≡ s.completed + left)
        ⊎ ((bit_and end.completed 511 ≡ 0) × (restart end.completed ≡ true))

  unfoldable pub Searched : (ℕ → Bool) → Scan h → ℕ → Scan h × Option ℕ → Type 0
  Searched restart s left (end, some n) = Found s left n end
  Searched restart s left (end, none) = Exhausted restart s left end

  -- A search goes on from a nonce that does not pass.
  Searched-next :
      (restart : ℕ → Bool) (left : ℕ) (s next : Scan h)
      → next.nonce_buf ≡ s.nonce_buf + 1
      → next.completed ≡ s.completed + 1
      → passes s.nonce_buf ≡ false
      → (r : Scan h × Option ℕ) → Searched restart next left r
      → Searched restart s (suc left) r
  unfolding Searched
  Searched-next restart left s next follows counts fails (end, some n) found = record {
    inside = (omega (arith, found.inside.0), omega (arith, found.inside.1));
    passing = found.passing;
    first = λ k from to. elim (Bool-cases (k == s.nonce_buf)) [
      | inl here ↦ ap passes ((==_iff k s.nonce_buf).0 here) ∙ fails
      | inr later ↦ found.first k (ground arith) to
    ];
    hashes = omega (arith, found.hashes);
    hash = found.hash;
  }
  Searched-next restart left s next follows counts fails (end, none) rest = record {
    none_passes = λ k from to. elim (Bool-cases (k == s.nonce_buf)) [
      | inl here ↦ ap passes ((==_iff k s.nonce_buf).0 here) ∙ fails
      | inr later ↦ rest.none_passes k (ground arith) (omega arith)
    ];
    bound = (omega (arith, rest.bound.0), omega (arith, rest.bound.1));
    early = elim rest.early [ inl all ↦ inl (omega arith) | inr told ↦ inr told ];
  }

  module _ (restart : ℕ → Bool) (good : IsHashes h key) where
    -- A round tells whether the nonce passes, and leaves key and block for the next one.
    try_nonce_lem :
        (s : Scan h)
        → IsReady s
        → ((try_nonce h fill1 first_byte target restart s).1.completed ≡ s.completed + 1)
          × ((try_nonce h fill1 first_byte target restart s).0 ≡ passes s.nonce_buf)
          × IsReady (try_nonce h fill1 first_byte target restart s).1
          × ((try_nonce h fill1 first_byte target restart s).0 ≡ true
              → (try_nonce h fill1 first_byte target restart s).1.vhash ≡ hash_of s.nonce_buf)
    unfolding try_nonce passes hash_of verus2hash Alike
    try_nonce_lem s ready =
        let cur : Bytes = prepare_hash_input s.buffer fill1 first_byte s.nonce_buf in
        let same : cur ≡ prepare_hash_input block fill1 first_byte s.nonce_buf =
          prepare-Alike s.buffer block fill1 first_byte s.nonce_buf ready.same_block in
        (
          refl,
          finalize_hash_lem h s.vhash cur target _ _ good.last ∙ rw (ready.same_key, same) refl,
          record {
            same_key = rw ready.same_key (fix_key-Logged _ key _ (good.logged cur));
            same_block = λ i.
                finalized-Alike h s.buffer fill1 first_byte s.nonce_buf _ i ∙ ready.same_block i;
          },
          λ valid.
              finalize_hash-hash h s.vhash cur target (target 7) _ _ valid
              ∙ rw (ready.same_key, same) refl,
        )

    pub scan_from-Searched :
        (left : ℕ) (s : Scan h)
        → IsReady s
        → s.nonce_buf + left < 2 ^ 32
        → Searched restart s left (scan_from h fill1 first_byte target restart left s)
    unfolding scan_from Searched
    scan_from-Searched zero s ready room = record {
      none_passes = λ k from to. absurd (omega arith);
      bound = (omega arith, omega arith);
      early = inl (omega arith);
    }
    scan_from-Searched (suc left) s ready room =
        let (counts, verdict, still, written) = try_nonce_lem s ready in
        let tried : Scan h = (try_nonce h fill1 first_byte target restart s).1 in
        let next : Scan h = record tried { nonce_buf = (s.nonce_buf + 1) % 2 ^ 32 } in
        let follows : next.nonce_buf ≡ s.nonce_buf + 1 = omega arith in
        elim (Bool-cases (try_nonce h fill1 first_byte target restart s).0) [
          | inl valid ↦ rw valid (record {
            inside = (omega arith, omega arith);
            passing = sym verdict ∙ valid;
            first = λ k from to. absurd (omega arith);
            hashes = omega (arith, counts);
            hash = written valid;
          })
          | inr invalid ↦
              rw invalid
                (elim (Bool-cases ((bit_and tried.completed 511 == 0) && restart tried.completed)) [
                  | inl told ↦ rw told (record {
                    none_passes =
                        λ k from to. ap passes (omega (arith, counts)) ∙ sym verdict ∙ invalid;
                    bound = (omega (arith, counts), omega (arith, counts));
                    early = inr (ground (arith, told), ground (arith, told));
                  })
                  | inr on ↦ rw on (
                      Searched-next restart left s next follows counts (sym verdict ∙ invalid) _ (
                        scan_from-Searched left next
                          (record { same_key = still.same_key; same_block = still.same_block })
                          (omega (arith, follows))))
                ])
        ]

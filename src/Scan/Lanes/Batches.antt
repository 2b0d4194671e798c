-- ===== src/Scan/Lanes/Batches.antt =====
-- verus/verusscan.cpp: what the loop with two lanes finds.
use ccminer.Common.{
  ℕ, zero, suc, ◌+◌, ◌*◌, ◌%◌, ◌^◌, ◌≤◌, ◌<◌, ◌≡◌, ◌⊎◌, inl, inr, refl, sym, subst, ap, ◌∙◌, Bool,
  true, false, Bool-cases, Option, none, some, ◌&&◌, ltb, ◌==◌, ==_iff, if◌then◌else◌, arith,
  bit_and,
}
use ccminer.Target.{fulltest}
use ccminer.Scan.{Key, Bytes, Hashes, prepare_hash_input, finalized, finalize_hash, restore_key}
use ccminer.Scan.Prepared.{
  Alike, prepare-Alike, finalized-Alike, finalize_hash_lem, finalize_hash-hash,
}
use ccminer.Scan.Restore.{Noted, restore_key-Noted}
use ccminer.Scan.Lanes.{LaneHash, Lane, Lanes, batch, after_batch, batches_from}

-- What the loop relies on, for the key `key`: the two lanes of `dual` are two runs of `single`,
-- which notes the places that it writes to, and haraka512_keyed_highword is the last word of
-- haraka512_keyed.
pub record IsDual (h : Hashes) (dual : Key → Bytes → Key → Bytes → LaneHash × LaneHash)
    (single : Key → Bytes → LaneHash) (key : Key) : Type 0 where
  pub apart : (a b : Bytes) → dual key a key b ≡ (single key a, single key b)
  pub noted : (a : Bytes) (j : ℕ) → Noted (single key a).touched key 0 32 (single key a).key j
  pub last :
      (buffer : Bytes) (k : Key)
      → h.haraka512_keyed_highword buffer k ≡ h.haraka512_keyed buffer k 7

-- The first of two valid hashes is kept.
choose :
    (f0 f1 p0 p1 : Bool) (x0 x1 y0 y1 old : ℕ → ℕ)
    → f0 ≡ p0
    → (f0 ≡ true → x0 ≡ y0)
    → f1 ≡ p1
    → (f1 ≡ true → x1 ≡ y1)
    → (if f0 then x0 else if f1 then x1 else old) ≡ (if p0 then y0 else if p1 then y1 else old)
choose true f1 p0 p1 x0 x1 y0 y1 old e0 h0 e1 h1 = rw (sym e0) (h0 refl)
choose false true p0 p1 x0 x1 y0 y1 old e0 h0 e1 h1 = rw (sym e0, sym e1) (h1 refl)
choose false false p0 p1 x0 x1 y0 y1 old e0 h0 e1 h1 = rw (sym e0, sym e1) refl

module _ (h : Hashes) (single : Key → Bytes → LaneHash) (fill1 : Bytes) (first_byte : ℕ)
    (target : ℕ → ℕ) (key : Key) (block : Bytes) where
  -- The buffer and the hash of one nonce, from the key and the block as they were made.
  abbrev prepared : ℕ → Bytes
  prepared nonce = prepare_hash_input block fill1 first_byte nonce

  pub lane_hash : ℕ → ℕ → ℕ
  lane_hash nonce =
      let r = single key (prepared nonce) in
      h.haraka512_keyed (finalized h (prepared nonce) r.intermediate)
        (λ i. r.key (i + bit_and r.intermediate 511))

  pub lane_passes : ℕ → Bool
  lane_passes nonce = fulltest (lane_hash nonce) target

  pub record IsReady (lane : Lane) : Type 0 where
    pub same_key : lane.key ≡ key
    pub same_block : Alike lane.buffer block

  -- A search of `left` batches from state `s` on has found the nonce `n`: the first that passes. One
  -- nonce behind it may have been hashed as well.
  pub record Found (s : Lanes) (left n : ℕ) (end : Lanes) : Type 0 where
    pub inside : (s.nonce_buf ≤ n) × (n < s.nonce_buf + 2 * left)
    pub passing : lane_passes n ≡ true
    pub first : (k : ℕ) → s.nonce_buf ≤ k → k < n → lane_passes k ≡ false
    pub hashes :
        (s.completed + n < s.nonce_buf + end.completed)
        × (s.nonce_buf + end.completed ≤ s.completed + n + 2)
    pub hash : end.vhash ≡ lane_hash n

  -- The search has found none, and has ended early only at a multiple of 512 hashes, by `restart`.
  pub record Exhausted (restart : ℕ → Bool) (s : Lanes) (left : ℕ) (end : Lanes) : Type 0 where
    pub none_passes :
        (k : ℕ)
        → s.nonce_buf ≤ k
        → k + s.completed < s.nonce_buf + end.completed
        → lane_passes k ≡ false
    pub bound : (s.completed ≤ end.completed) × (end.completed ≤ s.completed + 2 * left)
    pub early :
        (end.completed ≡ s.completed + 2 * left)
        ⊎ ((bit_and end.completed 511 ≡ 0) × (restart end.completed ≡ true))

  pub Searched : (ℕ → Bool) → Lanes → ℕ → Lanes × Option ℕ → Type 0
  Searched restart s left (end, some n) = Found s left n end
  Searched restart s left (end, none) = Exhausted restart s left end

  -- Two nonces that do not pass.
  both_fail :
      (s : Lanes)
      → lane_passes s.nonce_buf ≡ false
      → lane_passes (s.nonce_buf + 1) ≡ false
      → (k : ℕ) → s.nonce_buf ≤ k
      → k < s.nonce_buf + 2
      → lane_passes k ≡ false
  both_fail s q0 q1 k from to = elim (Bool-cases (k == s.nonce_buf)) [
    | inl here ↦ ap lane_passes ((==_iff k s.nonce_buf).0 here) ∙ q0
    | inr off ↦ ap lane_passes (ground arith) ∙ q1
  ]

  Searched-next :
      (restart : ℕ → Bool) (left : ℕ) (s next : Lanes)
      → next.nonce_buf ≡ s.nonce_buf + 2
      → next.completed ≡ s.completed + 2
      → ((k : ℕ) → s.nonce_buf ≤ k → k < s.nonce_buf + 2 → lane_passes k ≡ false)
      → (r : Lanes × Option ℕ) → Searched restart next left r
      → Searched restart s (suc left) r
  unfolding Searched
  Searched-next restart left s next follows counts fails (end, some n) found = record {
    inside = (omega (arith, found.inside.0), omega (arith, found.inside.1));
    passing = found.passing;
    first = λ k from to. elim (Bool-cases (ltb k (s.nonce_buf + 2))) [
      | inl near ↦ fails k from (ground arith)
      | inr far ↦ found.first k (ground arith) to
    ];
    hashes = (omega (arith, found.hashes.0), omega (arith, found.hashes.1));
    hash = found.hash;
  }
  Searched-next restart left s next follows counts fails (end, none) rest = record {
    none_passes = λ k from to. elim (Bool-cases (ltb k (s.nonce_buf + 2))) [
      | inl near ↦ fails k from (ground arith)
      | inr far ↦ rest.none_passes k (ground arith) (omega arith)
    ];
    bound = (omega (arith, rest.bound.0), omega (arith, rest.bound.1));
    early = elim rest.early [ inl all ↦ inl (omega arith) | inr told ↦ inr told ];
  }

  module _ (dual : Key → Bytes → Key → Bytes → LaneHash × LaneHash) (fresh : ℕ → ℕ)
      (good : IsDual h dual single key) where
    -- A lane's verdict, its hash, and the state that it leaves.
    lane_lem :
        (nonce : ℕ)
        → let r = single key (prepared nonce) in
          let verdict =
            finalize_hash h fresh (prepared nonce) target (target 7) r.key r.intermediate in
          (verdict.0 ≡ lane_passes nonce)
          × (verdict.0 ≡ true → verdict.1 ≡ lane_hash nonce)
          × IsReady (record {
            buffer = finalized h (prepared nonce) r.intermediate;
            key = restore_key r.touched r.key key;
          })
    unfolding lane_passes lane_hash Alike
    lane_lem nonce =
        let cur : Bytes = prepared nonce in
        (
          finalize_hash_lem h fresh cur target _ _ good.last,
          finalize_hash-hash h fresh cur target (target 7) _ _,
          record {
            same_key = restore_key-Noted _ key _ (good.noted cur);
            same_block = λ i. finalized-Alike h block fill1 first_byte nonce _ i;
          },
        )

    abbrev step : Lanes → Option ℕ × Lanes
    step s = batch h dual fresh fill1 first_byte target key s

    pub record AreReady (s : Lanes) : Type 0 where
      pub lane0 : IsReady s.first
      pub lane1 : IsReady s.second

    batch_lem :
        (s : Lanes)
        → AreReady s
        → s.nonce_buf + 2 < 2 ^ 32
        → ((step s).0 ≡ (
            if lane_passes s.nonce_buf
            then some s.nonce_buf
            else if lane_passes (s.nonce_buf + 1)
            then some (s.nonce_buf + 1)
            else none))
          × ((step s).1.vhash ≡ (
              if lane_passes s.nonce_buf
              then lane_hash s.nonce_buf
              else if lane_passes (s.nonce_buf + 1)
              then lane_hash (s.nonce_buf + 1)
              else s.vhash))
          × AreReady (step s).1
          × ((step s).1.nonce_buf ≡ s.nonce_buf + 2)
          × ((step s).1.completed ≡ s.completed + 2)
    unfolding batch
    batch_lem s ready room =
        let next : (s.nonce_buf + 1) % 2 ^ 32 ≡ s.nonce_buf + 1 = omega arith in
        let same0 : prepare_hash_input s.first.buffer fill1 first_byte s.nonce_buf
            ≡ prepared s.nonce_buf =
          prepare-Alike s.first.buffer block fill1 first_byte s.nonce_buf ready.lane0.same_block in
        let same1 : prepare_hash_input s.second.buffer fill1 first_byte (s.nonce_buf + 1)
            ≡ prepared (s.nonce_buf + 1) =
          prepare-Alike s.second.buffer block fill1 first_byte (s.nonce_buf + 1)
            ready.lane1.same_block in
        let (v0, h0, r0) = lane_lem s.nonce_buf in
        let (v1, h1, r1) = lane_lem (s.nonce_buf + 1) in
        rw
          (
            next,
            same0,
            same1,
            ready.lane0.same_key,
            ready.lane1.same_key,
            good.apart (prepared s.nonce_buf) (prepared (s.nonce_buf + 1)),
          )
          (
            rw (v0, v1) refl,
            choose _ _ _ _ _ _ _ _ _ v0 h0 v1 h1,
            record { lane0 = r0; lane1 = r1 },
            omega arith,
            refl,
          )

    -- From lanes that are ready, on nonces below 2^32, the search with two lanes finds the first
    -- nonce that passes and leaves its hash, or none of the nonces that were tried passes, and all
    -- batches were tried or a restart was asked for.
    pub batches_from-Searched :
        (restart : ℕ → Bool) (left : ℕ) (s : Lanes)
        → AreReady s
        → s.nonce_buf + 2 * left < 2 ^ 32
        → Searched restart s left
            (batches_from h dual fresh fill1 first_byte target key restart left s)
    unfolding batches_from Searched
    batches_from-Searched restart zero s ready room = record {
      none_passes = λ k from to. absurd (omega arith);
      bound = (omega arith, omega arith);
      early = inl (omega arith);
    }
    batches_from-Searched restart (suc left) s ready room =
        let (verdict, written, still, follows, counts) = batch_lem s ready (omega arith) in
        let next : Lanes = (step s).1 in
        let told : Bool = (bit_and next.completed 511 == 0) && restart next.completed in
        let rest : Lanes × Option ℕ =
          batches_from h dual fresh fill1 first_byte target key restart left next in
        let by_found : (f : Option ℕ)
            → (step s).0 ≡ f
            → Searched restart s (suc left) (after_batch f next told rest)
            → Searched restart s (suc left) (after_batch (step s).0 next told rest) =
          λ f e.
            subst (λ f. Searched restart s (suc left) (after_batch f next told rest)) (sym e) in
        elim (Bool-cases (lane_passes s.nonce_buf)) [
          | inl p0 ↦
              let e : (step s).0 ≡ some s.nonce_buf = verdict ∙ rw p0 refl in
              by_found _ e (record {
                inside = (omega arith, omega arith);
                passing = p0;
                first = λ k from to. absurd (omega arith);
                hashes = (omega (arith, counts), omega (arith, counts));
                hash = written ∙ rw p0 refl;
              })
          | inr q0 ↦ elim (Bool-cases (lane_passes (s.nonce_buf + 1))) [
            | inl p1 ↦
                let e : (step s).0 ≡ some (s.nonce_buf + 1) = verdict ∙ rw (q0, p1) refl in
                by_found _ e (record {
                  inside = (omega arith, omega arith);
                  passing = p1;
                  first = λ k from to. ap lane_passes (omega arith) ∙ q0;
                  hashes = (omega (arith, counts), omega (arith, counts));
                  hash = written ∙ rw (q0, p1) refl;
                })
            | inr q1 ↦
                let e : (step s).0 ≡ none = verdict ∙ rw (q0, q1) refl in
                let fails = both_fail s q0 q1 in
                by_found _ e (elim (Bool-cases told) [
                  | inl asked ↦ rw asked (record {
                    none_passes = λ k from to. fails k from (omega (arith, counts));
                    bound = (omega (arith, counts), omega (arith, counts));
                    early = inr (ground (arith, asked), ground (arith, asked));
                  })
                  | inr on ↦ rw on (
                      Searched-next restart left s next follows counts fails _
                        (batches_from-Searched restart left next still (omega (arith, follows))))
                ])
          ]
        ]

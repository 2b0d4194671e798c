-- ===== src/Scan/Setup/Outcome.antt =====
-- verus/verusscan.cpp: what scanhash_verus gives back.
use ccminer.Common.{
  ℕ, zero, suc, ◌+◌, ◌-◌, ◌^◌, ◌≤◌, ◌<◌, ◌≡◌, ◌⊎◌, inl, inr, refl, subst, ap, ◌∙◌, Bool, true,
  false, not, ◌&&◌, ◌||◌, Bool-cases, Option, none, some, arith, leb, ltb, length, get_or,
}
use ccminer.Common.Memory.{write_at, write_at-get, length-write_at}
use ccminer.Float.{Double, Arith}
use ccminer.Work.{Work}
use ccminer.Scan.{Bytes, Hashes, Scan, byte_of, copy}
use ccminer.Scan.Prepared.{Alike}
use ccminer.Scan.Loop.{IsHashes, passes, Searched, scan_from-Searched}
use ccminer.Scan.Setup.{
  full_data, bytes_of, full_nonce, block_of, key_of, turned, hash_limit, finish, searched,
  after_search, record_solution, bn_store_hash_target_ratio, scanhash_verus,
}

length-bytes_of : (n : ℕ) (f : Bytes) → length (bytes_of n f) ≡ n
unfolding bytes_of
length-bytes_of zero f = refl
length-bytes_of (suc n) f = ap suc (length-bytes_of n (λ i. f (i + 1)))

get-bytes_of : (n : ℕ) (f : Bytes) (j d : ℕ) → j < n → get_or (bytes_of n f) j d ≡ f j
unfolding bytes_of
get-bytes_of zero f j d h = absurd (omega arith)
get-bytes_of (suc n) f zero d h = refl
get-bytes_of (suc n) f (suc j) d h =
    get-bytes_of n (λ i. f (i + 1)) j d (omega arith) ∙ ap f (omega arith)

module _ (fp : Arith) (opt_showdiff : Bool) (ratio : (ℕ → ℕ) → (ℕ → ℕ) → Double) where
  -- The last four bytes of the solution are the nonce found.
  record_solution_lem :
      (vhash : ℕ → ℕ) (n : ℕ) (w : Work)
      → 1347 ≤ length w.extra
      → ((record_solution fp opt_showdiff ratio vhash n w).valid_nonces ≡ w.valid_nonces + 1)
        × ((j : ℕ)
            → j < 4
            → get_or (record_solution fp opt_showdiff ratio vhash n w).extra (1343 + j) 0
              ≡ byte_of n j)
  unfolding record_solution bn_store_hash_target_ratio copy
  record_solution_lem vhash n w room =
      let header : Bytes = full_data w in
      let space = bytes_of 15 (full_nonce fp opt_showdiff ratio w n) in
      let stored = write_at 0 (bytes_of 1347 (λ i. header (140 + i))) w.extra in
      let from_nonce : (j : ℕ)
          → j < 4
          → full_nonce fp opt_showdiff ratio w n (11 + j) ≡ byte_of n j =
        λ j few.
          let inside : (leb 11 (11 + j) && ltb (11 + j) 15) ≡ true = ground arith in
          let shift : 11 + j - 11 ≡ j = omega arith in rw (inside, shift) refl in
      let written : (j : ℕ)
          → j < 4
          → get_or (write_at 1332 space stored) (1343 + j) 0 ≡ byte_of n j =
        λ j few.
          subst (λ i. get_or (write_at 1332 space stored) i 0 ≡ byte_of n j) (omega arith)
            (write_at-get 1332 space stored (11 + j) 0
                (omega (
                  arith,
                  length-bytes_of 15 (full_nonce fp opt_showdiff ratio w n),
                  length-write_at 0 (bytes_of 1347 (λ i. header (140 + i))) w.extra,
                ))
                (omega (arith, length-bytes_of 15 (full_nonce fp opt_showdiff ratio w n)))
              ∙ get-bytes_of 15 (full_nonce fp opt_showdiff ratio w n) (11 + j) 0 (omega arith)
              ∙ from_nonce j few) in
      elim (Bool-cases (not opt_showdiff || leb 2 w.valid_nonces)) [
        | inl plain ↦ rw plain (refl, written)
        | inr shown ↦ rw shown (refl, written)
      ]

module _ (h : Hashes) (fresh : Bytes) (w : Work) where
  -- The nonce `n` meets the target of the work.
  pub meets : ℕ → Bool
  meets n =
      let block : Bytes = block_of h fresh w in
      passes h (turned block) (block 0) w.target (key_of h fresh w) block n

  searched-Searched :
      (restart : ℕ → Bool) (max_nonce : ℕ)
      → IsHashes h (key_of h fresh w)
      → max_nonce < 2 ^ 32
      → Searched h
          (turned (block_of h fresh w))
          (block_of h fresh w 0)
          w.target
          (key_of h fresh w)
          (block_of h fresh w)
          restart
          (record {
            vhash = λ _. 0;
            buffer = block_of h fresh w;
            key = key_of h fresh w;
            nonce_buf = 0;
            completed = 0;
          })
          (hash_limit max_nonce)
          (searched h fresh restart w max_nonce)
  unfolding searched Alike
  searched-Searched restart max_nonce good room =
      let block : Bytes = block_of h fresh w in
      scan_from-Searched h (turned block) (block 0) w.target (key_of h fresh w) block restart good
        (hash_limit max_nonce) _ (record { same_key = refl; same_block = λ i. refl }) (ground arith)

module _ (h : Hashes) (fp : Arith) (opt_showdiff : Bool) (ratio : (ℕ → ℕ) → (ℕ → ℕ) → Double)
    (fresh : Bytes) (restart : ℕ → Bool) (w : Work) (max_nonce : ℕ) where
  -- The work and the number of hashes are those of a search that found the first nonce that meets
  -- the target, or of one that found none.
  pub Outcome : Work × ℕ → Type 0
  Outcome (out, hashes_done) =
      ((n : ℕ) × (n < hash_limit max_nonce)
        × (meets h fresh w n ≡ true)
        × ((k : ℕ) → k < n → meets h fresh w k ≡ false)
        × (hashes_done ≡ n + 1)
        × (out.valid_nonces ≡ w.valid_nonces + 1)
        × ((j : ℕ) → j < 4 → get_or out.extra (1343 + j) 0 ≡ byte_of n j))
      ⊎ ((hashes_done ≤ hash_limit max_nonce)
          × ((k : ℕ) → k < hashes_done → meets h fresh w k ≡ false)
          × ((hashes_done ≡ hash_limit max_nonce) ⊎ (restart hashes_done ≡ true))
          × (out.valid_nonces ≡ w.valid_nonces))

  finish-Outcome :
      (good : IsHashes h (key_of h fresh w))
      → 1347 ≤ length w.extra
      → (r : Scan h × Option ℕ)
      → Searched h
          (turned (block_of h fresh w))
          (block_of h fresh w 0)
          w.target
          (key_of h fresh w)
          (block_of h fresh w)
          restart
          (record {
            vhash = λ _. 0;
            buffer = block_of h fresh w;
            key = key_of h fresh w;
            nonce_buf = 0;
            completed = 0;
          })
          (hash_limit max_nonce)
          r
      → Outcome (finish fp opt_showdiff ratio h w r)
  unfolding finish after_search Searched meets Outcome
  finish-Outcome good size (end, some n) found =
      let (counted, bytes) = record_solution_lem fp opt_showdiff ratio end.vhash n w size in
      inl (
        n,
        omega (arith, found.inside.1),
        found.passing,
        (λ k before. found.first k (omega arith) before),
        omega (arith, found.hashes),
        counted,
        bytes,
      )
  finish-Outcome good size (end, none) rest = inr (
    omega (arith, rest.bound.1),
    (λ k before. rest.none_passes k (omega arith) (omega arith)),
    elim rest.early [ inl all ↦ inl (omega (arith, all)) | inr told ↦ inr told.1 ],
    refl,
  )

  -- With hash functions that keep their promises and room for the solution, a search up to a limit
  -- ends in one of two ways. It has found the first nonce that meets the target: then the work
  -- counts one valid nonce more, and the last four bytes of its solution are that nonce. Or no nonce
  -- that was tried meets the target, and all below the limit were tried, or a restart was asked for.
  pub scanhash_verus-Outcome :
      IsHashes h (key_of h fresh w)
      → max_nonce < 2 ^ 32
      → 1347 ≤ length w.extra
      → Outcome (scanhash_verus fp opt_showdiff ratio h fresh restart w max_nonce)
  unfolding scanhash_verus
  scanhash_verus-Outcome good room size =
      finish-Outcome good size _ (searched-Searched h fresh w restart max_nonce good room)

-- ===== src/Pools/Attributes.antt =====
-- The options of the pools after the command line is read.
use ccminer.Common.{
  ℕ, zero, suc, ◌+◌, ◌≡◌, refl, ◌∙◌, true, false, ◌&&◌, arith, ltb, leb, ◌==◌, if◌then◌else◌,
  Bool-cases, inl, inr,
}
use ccminer.Bench.{update}
use ccminer.Float.{Arith}
use ccminer.Pools.{Miner, Pool, with_defaults, init_from, pool_init_defaults}

with_defaults-pools :
    (fp : Arith) (m : Miner) (pools : ℕ → Pool) (p : Pool)
    → with_defaults fp (record m { pools = pools }) p ≡ with_defaults fp m p
unfolding with_defaults
with_defaults-pools fp m pools p = refl

init_from-pools :
    (fp : Arith) (left i j : ℕ) (m : Miner)
    → (init_from fp left i m).pools j
      ≡ (if leb i j && ltb j (i + left) then with_defaults fp m (m.pools j) else m.pools j)
unfolding init_from
init_from-pools fp zero i j m = ground arith
init_from-pools fp (suc left) i j m = elim (Bool-cases (j == i)) [
  | inl own ↦
      let e : j ≡ i = ground arith in
      let past : leb (i + 1) j ≡ false = ground arith in
      let here : leb i j ≡ true = ground arith in
      let inside : ltb j (i + suc left) ≡ true = ground arith in
      init_from-pools fp left (i + 1) j _ ∙ rw (past, own, here, inside) (rw e refl)
  | inr other ↦
      let sameL : leb (i + 1) j ≡ leb i j = ground arith in
      let sameR : ltb j (i + 1 + left) ≡ ltb j (i + suc left) = ground arith in
      init_from-pools fp left (i + 1) j _
      ∙ rw
          (
            other,
            sameL,
            sameR,
            with_defaults-pools fp m (update m.pools i (with_defaults fp m (m.pools i)))
                (m.pools j),
          )
          refl
]

-- Each pool of the table gets the options of the command line in place of those that are unset,
-- and the entries behind the table stay as they are.
pub pool_init_defaults_lem :
    (fp : Arith) (m : Miner) (j : ℕ)
    → (pool_init_defaults fp m).pools j
      ≡ (if ltb j m.num_pools then with_defaults fp m (m.pools j) else m.pools j)
unfolding pool_init_defaults
pool_init_defaults_lem fp m j =
    let end : ltb j (0 + m.num_pools) ≡ ltb j m.num_pools = ground arith in
    let start : leb 0 j ≡ true = ground arith in
    init_from-pools fp m.num_pools 0 j m ∙ rw (start, end) refl

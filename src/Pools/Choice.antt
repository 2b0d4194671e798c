-- ===== src/Pools/Choice.antt =====
-- Which pool pool_get_first_valid finds.
use ccminer.Common.{
  ℕ, zero, suc, ◌+◌, ◌-◌, ◌%◌, ◌≤◌, ◌<◌, ◌≡◌, refl, ap, sym, ◌∙◌, true, false, ◌⊎◌, inl, inr, arith,
  ltb, Bool-cases,
}
use native.Mathlib.Nat.{mod-lt, mod-eq_of_lt, mod-add-mod, add-mod-mod, add-mod_right}
use ccminer.Pools.{Miner, Pool, is_usable, first_usable, pool_get_first_valid}

module _ (pools : ℕ → Pool) (n start : ℕ) where
  -- The pool at distance `j` from the start, round the table.
  abbrev nth : ℕ → ℕ
  nth j = (start + j) % n

  -- The result is the first usable pool from the start on, or none is usable and it is 0.
  abbrev pub IsFirst : ℕ → ℕ → ℕ → Type 0
  IsFirst from to r =
      ((j : ℕ) × (from ≤ j)
        × (j < to)
        × (r ≡ nth j)
        × (is_usable (pools r) ≡ true)
        × ((k : ℕ) → from ≤ k → k < j → is_usable (pools (nth k)) ≡ false))
      ⊎ ((r ≡ 0) × ((k : ℕ) → from ≤ k → k < to → is_usable (pools (nth k)) ≡ false))

  extend : (i to r : ℕ) → is_usable (pools (nth i)) ≡ false → IsFirst (i + 1) to r → IsFirst i to r
  extend i to r h (inl (j, a, b, e, u, before)) =
      inl (j, omega arith, b, e, u, λ k p q. step k p (before k) q)
    where
      step :
          (k : ℕ)
          → i ≤ k
          → (i + 1 ≤ k → k < j → is_usable (pools (nth k)) ≡ false)
          → k < j
          → is_usable (pools (nth k)) ≡ false
      step k p f q = elim (Bool-cases (ltb i k)) [
        | inl above ↦ f (ground arith) q
        | inr same ↦ let e : k ≡ i = ground arith in rw e h
      ]
  extend i to r h (inr (e, all)) = inr (e, λ k p q. step k p (all k) q)
    where
      step :
          (k : ℕ)
          → i ≤ k
          → (i + 1 ≤ k → k < to → is_usable (pools (nth k)) ≡ false)
          → k < to
          → is_usable (pools (nth k)) ≡ false
      step k p f q = elim (Bool-cases (ltb i k)) [
        | inl above ↦ f (ground arith) q
        | inr same ↦ let e : k ≡ i = ground arith in rw e h
      ]

  first_usable-IsFirst :
      (left i to : ℕ) → i + left ≡ to → IsFirst i to (first_usable pools n start left i)
  unfolding first_usable
  first_usable-IsFirst zero i to e = inr (refl, λ k p q. absurd (omega arith))
  first_usable-IsFirst (suc left) i to e = elim (Bool-cases (is_usable (pools (nth i)))) [
    | inl found ↦
        rw found (inl (i, omega arith, omega arith, refl, found, λ k p q. absurd (omega arith)))
    | inr next ↦ rw next (extend i to _ next (first_usable-IsFirst left (i + 1) to (omega arith)))
  ]

-- Where a pool `k` of the table stands, seen from `start`.
distance : ℕ → ℕ → ℕ → ℕ
distance n start k = (k + (n - start % n)) % n

distance_lem :
    (n start k : ℕ) → k < n → (distance n start k < n) × ((start + distance n start k) % n ≡ k)
unfolding distance
distance_lem n start k h =
    let below : start % n < n = mod-lt start (omega arith) in
    let sum : start % n + (k + (n - start % n)) ≡ k + n = omega arith in
    (
      mod-lt (k + (n - start % n)) (omega arith),
      add-mod-mod start (k + (n - start % n)) n
          ∙ sym (mod-add-mod start n (k + (n - start % n)))
          ∙ ap (λ t. t % n) sum
          ∙ add-mod_right k n
          ∙ mod-eq_of_lt h,
    )

-- What the search promises.
abbrev pub IsChoice : ℕ → Miner → ℕ → Type 0
IsChoice start m r =
    ((j : ℕ) × (j < m.num_pools)
      × (r ≡ (start + j) % m.num_pools)
      × (is_usable (m.pools r) ≡ true)
      × ((k : ℕ) → k < j → is_usable (m.pools ((start + k) % m.num_pools)) ≡ false))
    ⊎ ((r ≡ 0) × ((k : ℕ) → k < m.num_pools → is_usable (m.pools k) ≡ false))

IsFirst-IsChoice :
    (start : ℕ) (m : Miner) (r : ℕ)
    → IsFirst m.pools m.num_pools start 0 m.num_pools r
    → IsChoice start m r
IsFirst-IsChoice start m r (inl (j, a, b, e, u, before)) =
    inl (j, b, e, u, λ k q. before k (omega arith) q)
IsFirst-IsChoice start m r (inr (e, all)) = inr (
  e,
  λ k q.
      let (near, at) = distance_lem m.num_pools start k q in
      rw at at (all (distance m.num_pools start k) (omega arith) near),
)

-- The search finds the first usable pool in the order of the table from `start` on, and round; it
-- gives 0 only if no pool of the table is usable or pool 0 is that first one.
pub pool_get_first_valid-IsChoice :
    (start : ℕ) (m : Miner) → IsChoice start m (pool_get_first_valid start m)
unfolding pool_get_first_valid
pool_get_first_valid-IsChoice start m =
    IsFirst-IsChoice start m _
      (first_usable-IsFirst m.pools m.num_pools start m.num_pools 0 m.num_pools (omega arith))

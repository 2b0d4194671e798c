-- ===== src/Target/Compare.antt =====
-- fulltest against the 256-bit numbers that its arguments stand for.
use native.Mathlib.Nat.{pow-suc}
use ccminer.Common.{ℕ, zero, suc, ◌+◌, ◌*◌, ◌^◌, ◌≤◌, ◌<◌, ◌≡◌, refl, true, false, arith, ◌↔◌}
use ccminer.Target.{fulltest_from, fulltest}

-- The number that the first `n` words stand for.
unfoldable pub value : ℕ → (ℕ → ℕ) → ℕ
value zero w = 0
value (suc n) w = w n * (2 ^ 32) ^ n + value n w

abbrev pub AreWords : (ℕ → ℕ) → Type 0
AreWords w = (i : ℕ) → w i < 2 ^ 32

-- A larger leading word outweighs the words below it.
lead-lt : (a b x y p : ℕ) → a < b → x < p → a * p + x < b * p + y
lead-lt a b x y p h k = grind arith

value-lt : (n : ℕ) (w : ℕ → ℕ) → AreWords w → value n w < (2 ^ 32) ^ n
unfolding value
value-lt zero w h = omega arith
value-lt (suc n) w h = omega (
  arith,
  pow-suc (2 ^ 32) n,
  lead-lt (w n) (2 ^ 32) (value n w) 0 ((2 ^ 32) ^ n) (h n) (value-lt n w h),
)

fulltest_from_iff :
    (n : ℕ) (h t : ℕ → ℕ)
    → AreWords h
    → AreWords t
    → (fulltest_from n h t ≡ true) ↔ (value n h ≤ value n t)
unfolding fulltest_from value
fulltest_from_iff zero h t ah at = (λ _. omega arith, λ _. refl)
fulltest_from_iff (suc n) h t ah at =
    let (to, from) = fulltest_from_iff n h t ah at in
    let above = lead-lt (t n) (h n) (value n t) (value n h) ((2 ^ 32) ^ n) in
    let below = lead-lt (h n) (t n) (value n h) (value n t) ((2 ^ 32) ^ n) in
    (
      λ e. ground (arith, to, above, below, value-lt n t at, value-lt n h ah),
      λ e. ground (arith, from, above, below, value-lt n t at, value-lt n h ah),
    )

-- A hash passes exactly if the number that it stands for is at most the target's.
pub fulltest_iff :
    (hash target : ℕ → ℕ)
    → AreWords hash
    → AreWords target
    → (fulltest hash target ≡ true) ↔ (value 8 hash ≤ value 8 target)
unfolding fulltest
fulltest_iff hash target ah at = fulltest_from_iff 8 hash target ah at

-- A larger last word fails alone.
pub fulltest_last : (hash target : ℕ → ℕ) → target 7 < hash 7 → fulltest hash target ≡ false
unfolding fulltest fulltest_from
fulltest_last hash target above = ground arith

-- ===== src/Target.antt =====
-- util.cpp: fulltest, which compares a hash with the share target. Both are eight 32-bit words,
-- the least significant first. The messages that the loop logs change nothing and are left out.
pub mod Compare
pub mod Difficulty
mod Tests
use ccminer.Common.{ℕ, zero, suc, Bool, true, false, ltb, if◌then◌else◌}

-- The loop over `i`, from the word below `n` down to word 0.
fulltest_from : ℕ → (ℕ → ℕ) → (ℕ → ℕ) → Bool
fulltest_from zero hash target = true
fulltest_from (suc i) hash target =
    let lower = fulltest_from i hash target in
    if ltb (target i) (hash i) then false else if ltb (hash i) (target i) then true else lower

unfoldable pub fulltest : (ℕ → ℕ) → (ℕ → ℕ) → Bool
unfolding fulltest_from
fulltest hash target = fulltest_from 8 hash target

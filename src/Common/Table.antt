-- ===== src/Common/Table.antt =====
-- A law of all small numbers, checked by evaluation.
use ccminer.Common.{ℕ, zero, suc, ◌<◌, ◌≡◌, Bool, true, ◌&&◌, arith}

unfoldable pub tested : (bound : ℕ) (law : ℕ → Bool) → Bool
tested zero law = true
tested (suc bound) law = tested bound law && law bound

pub tested_lem :
    (bound : ℕ) (law : ℕ → Bool) (k : ℕ) → tested bound law ≡ true → k < bound → law k ≡ true
unfolding tested
tested_lem zero law k all few = absurd (omega arith)
tested_lem (suc bound) law k all few = ground (arith, all, few, tested_lem bound law k)

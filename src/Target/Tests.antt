-- ===== src/Target/Tests.antt =====
-- util.cpp: the theorem on fulltest at a concrete hash.
use ccminer.Common.{◌-◌, ◌*◌, ◌%◌, ◌^◌, ◌&&◌, ◌==◌, if◌then◌else◌}
use ccminer.Fixtures.{naturals}
use ccminer.Target.Compare.{value}
use ccminer.Target.Difficulty.{scale, diff_to_target, diff_to_target_lem}
use ccminer.Common.{◌≤◌, ◌≡◌, ◌↔◌, true, arith}
use ccminer.Target.{fulltest}
use ccminer.Target.Compare.{value, fulltest_iff}

fulltest_iff_example : (fulltest (λ i. 7) (λ i. 7) ≡ true) ↔ (value 8 (λ i. 7) ≤ value 8 (λ i. 7))
fulltest_iff_example = fulltest_iff (λ i. 7) (λ i. 7) (λ i. omega arith) (λ i. omega arith)

diff_to_target_lem_example : value 8 (diff_to_target naturals 1) ≡ (
    let (k, scaled) = scale naturals 6 1 in
    let m = naturals.truncate (naturals.div (naturals.of_int 4294901760) scaled) % 2 ^ 64 in
    if m == 0 && k == 6 then 2 ^ 256 - 1 else m * (2 ^ 32) ^ k)
diff_to_target_lem_example = diff_to_target_lem naturals 1

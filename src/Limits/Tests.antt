-- ===== src/Limits/Tests.antt =====
-- wanna_mine at a pool with a limit of 100 on the network's difficulty, where mining resumes at 50.
use ccminer.Common.{◌≡◌, refl, true, false, ◌∷◌, []}
use ccminer.Fixtures.{naturals, a_miner}
use ccminer.Limits.{Resume, Mining, wanna_mine}
use ccminer.Limits.Waits.{sampled, after, decided, after-decided}

abbrev options : Resume
options = record { fp = naturals; opt_resume_diff = 50; opt_resume_rate = 0 }

abbrev start : Mining
start = record {
  miner = record a_miner { opt_max_diff = 100; conditional_state = λ i. false };
  net_hashrate = 7;
  conditional_pool_rotate = false;
}

-- 80 alone is below the limit; after 120 it is not low enough.
mines_at_80 : (wanna_mine options 0 (sampled (80, 7) start)).1 ≡ true
unfolding wanna_mine
mines_at_80 = refl

waits_at_80 : (after options 0 ((80, 7) ∷ (120, 7) ∷ []) start).miner.conditional_state 0 ≡ true
unfolding after wanna_mine
waits_at_80 = refl

after-decided_example :
    (after options 0 ((80, 7) ∷ (120, 7) ∷ (10, 7) ∷ []) start).miner.conditional_state 0
    ≡ decided options start.miner ((80, 7) ∷ (120, 7) ∷ (10, 7) ∷ []) false
after-decided_example = after-decided options 0 ((80, 7) ∷ (120, 7) ∷ (10, 7) ∷ []) start

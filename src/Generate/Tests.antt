-- ===== src/Generate/Tests.antt =====
-- Runs of the making of work.
use ccminer.Common.{refl, false, some, [], ◌∷◌, arith, replicate}
use ccminer.Common.Int.{pos}
use ccminer.Cstring.{codes}
use ccminer.Fixtures.{naturals, a_work, a_stratum}
use ccminer.Generate.{State, stratum_gen_work}
use ccminer.Generate.Header.{Made, gen_work-Made}
use ccminer.Generate.Words.{Settings}
use ccminer.Stratum.{no_job}

abbrev settings : Settings
settings = record {
  fp = naturals;
  sha256 = λ bytes. replicate 32 1;
  random = 3;
  opt_algo = pos 12;
  opt_vote = 0;
  opt_showdiff = false;
  opt_max_diff = 0;
}

-- The second nonce 255, 2, 0 stands after two bytes.
abbrev a_state : State
a_state = record {
  sctx = record a_stratum {
    job = record no_job {
      job_id = some (codes "6a");
      coinbase = 9 ∷ 9 ∷ 255 ∷ 2 ∷ 0 ∷ 8 ∷ [];
      xnonce2 = 2;
    };
  };
  work = a_work;
  net_diff = 0;
  opt_difficulty = 1;
  stratum_diff = 0;
}

gen_work-Made_example : Made (codes "6a") a_state (stratum_gen_work settings a_state)
gen_work-Made_example =
    gen_work-Made settings a_state (codes "6a") refl (omega arith)
      (omega arith, (omega arith, (omega arith, tt)))

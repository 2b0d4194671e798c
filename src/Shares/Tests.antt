-- ===== src/Shares/Tests.antt =====
-- Runs of the answers to shares.
use ccminer.Common.{◌+◌, ◌%◌, ◌^◌, ◌≡◌, true, false, none, some, List, [], ◌∷◌}
use ccminer.Common.Int.{pos}
use ccminer.Cstring.{codes}
use ccminer.Fixtures.{a_context}
use ccminer.Session.{Message}
use ccminer.Stratum.{integer, truth}
use ccminer.Shares.{Shares, stratum_handle_response}
use ccminer.Shares.Counts.{Verdict, run, count_of, run_counts, Counted, response-Counted}

abbrev no_shares : Shares
no_shares = record {
  tallies = λ i. record {
    accepted_count = 0;
    rejected_count = 0;
    solved_count = 0;
    last_share_time = 0;
    best_share = 0;
  };
  check_dups = false;
  g_work_time = 9;
  global_hashrate = 0;
}

abbrev verdicts : List Verdict
verdicts =
    record { result = true; pooln = 1; sharediff = 3; reason = none }
    ∷ record { result = false; pooln = 1; sharediff = 7; reason = some (codes "Duplicate share") }
    ∷ []

run_counts_example :
    (((run a_context verdicts no_shares).tallies 1).accepted_count % 2 ^ 32
      ≡ (0 + count_of true 1 verdicts) % 2 ^ 32)
    × (((run a_context verdicts no_shares).tallies 1).rejected_count % 2 ^ 32
        ≡ (0 + count_of false 1 verdicts) % 2 ^ 32)
run_counts_example = run_counts a_context verdicts no_shares 1

abbrev an_answer : Message
an_answer = record {
  method = none;
  id = some (integer (pos 12));
  params = [];
  result = some (truth true);
  error = none;
}

response-Counted_example :
    Counted a_context
      (some an_answer)
      no_shares
      (stratum_handle_response a_context (some an_answer) no_shares)
response-Counted_example = response-Counted a_context (some an_answer) no_shares

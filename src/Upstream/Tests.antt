-- ===== src/Upstream/Tests.antt =====
-- Runs of submit_upstream_work.
use ccminer.Common.{ℕ, ◌≡◌, ◌≢◌, refl, Bool, true, false, none, [], ◌∷◌, arith}
use ccminer.Cstring.{codes, text_eq}
use ccminer.Fixtures.{a_context, a_miner, a_work}
use ccminer.Upstream.{Sending, Upstream, submit_upstream_work, is_outdated}
use ccminer.Upstream.Text.{encoded, one_of}
use ccminer.Upstream.Stale.{IsDropped, outdated-IsDropped}
use ccminer.Algos.{zr5, scrypt_jane}
use ccminer.Common.Int.{pos}
use ccminer.Common.Omap.{find}
use ccminer.Common.Memory.{write_at}
use ccminer.Hex.{bin2hex, cbin2hex}
use ccminer.Print.{print_unsigned}
use ccminer.Stratum.Verus.Submit.{word_bytes}
use ccminer.Upstream.Repeated.{share_nonce, IsSilent}
use ccminer.Upstream.Resubmit.{resubmit-IsSilent}
use ccminer.Wire.{took, send_loop}
use ccminer.Work.{Work}

abbrev a_share : Work
a_share = record a_work { job_id = codes "0000007 6a"; nonces = λ i. 77 }

abbrev sending : Sending
sending = record {
  opt_submit_stale = true;
  submit_old = false;
  opt_quiet = true;
  opt_showdiff = false;
  use_roots = false;
  opt_vote = 0;
  now = 50;
  sends = took 1000 ∷ took 10000 ∷ [];
  is_lost = false;
  template = none;
  server = λ text. none;
  shares = a_context;
}

abbrev upstream : Upstream
upstream = record {
  miner = a_miner;
  stales_count = λ i. 0;
  tallies = λ i. record {
    accepted_count = 0;
    rejected_count = 0;
    solved_count = 0;
    last_share_time = 0;
    best_share = 0;
  };
  check_stratum_jobs = false;
  global_hashrate = 0;
  wire = [];
}

abbrev plain : Upstream
plain = record upstream {
  miner = record a_miner { stratum = record (a_miner.stratum) { is_equihash = false } };
}

abbrev first : Upstream × Bool
first = submit_upstream_work sending a_share plain

resubmit-IsSilent_example : IsSilent first.0 (submit_upstream_work sending a_share first.0)
unfolding submit_upstream_work encoded find send_loop bin2hex word_bytes print_unsigned
resubmit-IsSilent_example =
    resubmit-IsSilent sending sending a_share plain refl refl refl nonzero (omega arith) sent wired
      on
  where
    nonzero : share_nonce plain a_share ≢ 0
    nonzero = omega arith

    sent : first.1 ≡ true
    sent = refl

    wired : first.0.wire ≢ plain.wire
    wired e = ground arith

    on : first.0.miner.check_dups ≡ true
    on = refl

-- A share of Verus counts twice.
abbrev verus : Upstream
verus = record upstream {
  miner = record a_miner { stratum = record (a_miner.stratum) { is_equihash = true } };
}

abbrev share_count : Upstream × Bool → ℕ
share_count (s, ret) = s.miner.stratum.job.shares_count

counted_twice : share_count (submit_upstream_work sending a_share verus) ≡ 2
unfolding submit_upstream_work send_loop cbin2hex bin2hex write_at print_unsigned
counted_twice = refl

abbrev strict : Sending
strict = record sending { opt_submit_stale = false }

outdated-IsDropped_example : IsDropped plain (submit_upstream_work strict a_share plain)
unfolding one_of is_outdated text_eq
outdated-IsDropped_example =
    outdated-IsDropped strict a_share plain refl refl refl refl other outdated
  where
    other : one_of (pos 2) (zr5 ∷ scrypt_jane ∷ []) ≡ false
    other = refl

    outdated : is_outdated plain.miner a_share ≡ true
    outdated = refl

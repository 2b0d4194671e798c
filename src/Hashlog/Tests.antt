-- ===== src/Hashlog/Tests.antt =====
-- hashlog.cpp: the theorems at concrete logs.
use ccminer.Common.{
  ◌+◌, ◌-◌, ◌*◌, ◌%◌, ◌^◌, ◌≡◌, ◌&&◌, none, [], ◌∷◌, arith, ltb, ◌==◌, if◌then◌else◌,
}
use ccminer.Common.Omap.{find}
use ccminer.Cstring.{codes}
use ccminer.Fixtures.{a_work}
use ccminer.Hashlog.{
  HashlogData, Log, Globals, zero_data, nonce_key, hextouint, already_submitted, remember_submit,
  purge_job, purge_old,
}
use ccminer.Hashlog.Submits.{IsSorted, same_job, already_submitted-remember_submit}
use ccminer.Hashlog.Purges.{digits_within, find-purge_job, purge_old_timeout}

abbrev globals : Globals
globals = record { cur_pooln = 1; pool_type = 2; shares_count = 3 }

-- The range 5 to 90 of job 0x1f, and a nonce of job 3 that was sent at time 1000.
abbrev a_range : HashlogData
a_range = record zero_data { njobid = 31; scanned_from = 5; scanned_to = 90 }

abbrev sent_nonce : HashlogData
sent_nonce = record zero_data { njobid = 3; nonce = 44; scanned_from = 1; tm_sent = 1000 }

abbrev two_jobs : Log
two_jobs = (3 * 2 ^ 32 + 44, sent_nonce) ∷ (31 * 2 ^ 32, a_range) ∷ []

two_jobs-IsSorted : IsSorted two_jobs
two_jobs-IsSorted = (omega arith, (omega arith, tt))

already_submitted-remember_submit_example :
    already_submitted (codes "1F") 77 (remember_submit globals 1234 a_work 77 two_jobs) ≡ (
      if same_job (codes "1F") (codes "1f") && 77 == 77
      then 1234 % 2 ^ 32
      else already_submitted (codes "1F") 77 two_jobs)
already_submitted-remember_submit_example =
    already_submitted-remember_submit globals 1234 a_work 77 two_jobs (codes "1F") 77 (omega arith)
      (omega arith) (omega arith)

-- A purge of job 3 erases the records of job 0x1f.
find-purge_job_example :
    find (nonce_key 31 0) (purge_job (codes "3") two_jobs)
    ≡ (if digits_within (hextouint (codes "3")) 31 then none else find (nonce_key 31 0) two_jobs)
find-purge_job_example = find-purge_job (codes "3") 31 0 two_jobs two_jobs-IsSorted (omega arith)

purge_old_timeout_example :
    already_submitted
      (codes "1f")
      77
      (purge_old 1534 (remember_submit globals 1234 a_work 77 two_jobs))
    ≡ (if ltb 300 (1534 - 1234) then 0 else 1234)
purge_old_timeout_example =
    purge_old_timeout globals 1234 1534 a_work 77 two_jobs two_jobs-IsSorted (omega arith)
      (omega arith) (omega arith) (omega arith)

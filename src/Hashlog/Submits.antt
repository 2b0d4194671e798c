-- ===== src/Hashlog/Submits.antt =====
-- Duplicate shares: what the log answers after a submission, and that its keys stay in order.
use ccminer.Common.{
  ℕ, ◌%◌, ◌^◌, ◌<◌, ◌≡◌, ◌≢◌, Bool, ◌&&◌, List, [], ◌∷◌, arith, ◌==◌, if◌then◌else◌,
}
use ccminer.Common.Omap.{Rising, find-insert, insert-Rising, retain-Rising}
use ccminer.Hashlog.{
  submit_data, Log, Call, submits, scans, purges_job, purges_old, purges_all, Globals, hextouint,
  nonce_key, already_submitted, remember_submit, step, run, remember_scan_range, purge_job,
  purge_old, purge_all,
}
use ccminer.Hashlog.Keys.{nonce_key_lem}
use ccminer.Work.{Work}

abbrev pub IsSorted : Log → Type 0
IsSorted log = Rising 0 log

-- Two texts name one job if their numbers agree in 32 bits.
abbrev pub same_job : List ℕ → List ℕ → Bool
same_job a b = hextouint a % 2 ^ 32 == hextouint b % 2 ^ 32

same_key :
    (a b x y : ℕ)
    → x < 2 ^ 32
    → y < 2 ^ 32
    → (nonce_key a x == nonce_key b y) ≡ (a % 2 ^ 32 == b % 2 ^ 32 && x == y)
same_key a b x y hx hy = ground (arith, nonce_key_lem a x hx, nonce_key_lem b y hy)

-- After a submission of `nonce`, the question for a nonce other than 0 answers with the time of
-- that submission for the same job and nonce, and as before for every other.
pub already_submitted-remember_submit :
    (g : Globals) (now : ℕ) (work : Work) (nonce : ℕ) (log : Log) (jobid : List ℕ) (asked : ℕ)
    → nonce < 2 ^ 32
    → asked < 2 ^ 32
    → asked ≢ 0
    → already_submitted jobid asked (remember_submit g now work nonce log) ≡ (
        if same_job jobid work.job_id && asked == nonce
        then now % 2 ^ 32
        else already_submitted jobid asked log)
unfolding already_submitted remember_submit
already_submitted-remember_submit g now work nonce log jobid asked hn ha h =
    let a = hextouint jobid in
    let b = hextouint work.job_id in
    ground (
      arith,
      find-insert (nonce_key a asked) (nonce_key b nonce) (submit_data g now work) log,
      same_key a b asked nonce ha hn,
    )

step-IsSorted : (log : Log) (call : Call) → IsSorted log → IsSorted (step log call)
unfolding step remember_submit remember_scan_range purge_job purge_old purge_all
step-IsSorted log (submits g now work nonce) h = insert-Rising 0 _ _ log (omega arith) h
step-IsSorted log (scans now work) h = insert-Rising 0 _ _ log (omega arith) h
step-IsSorted log (purges_job jobid) h = retain-Rising 0 _ log h
step-IsSorted log (purges_old now) h = retain-Rising 0 _ log h
step-IsSorted log purges_all h = tt

-- Every call keeps the entries in the order of their keys, one for each key.
pub run-IsSorted : (log : Log) (calls : List Call) → IsSorted log → IsSorted (run log calls)
unfolding run
run-IsSorted log [] h = h
run-IsSorted log (c ∷ cs) h = run-IsSorted (step log c) cs (step-IsSorted log c h)

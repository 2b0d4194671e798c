-- ===== src/Hashlog/Purges.antt =====
-- What the purges of the log erase.
use ccminer.Common.{
  ℕ, ◌-◌, ◌%◌, ◌^◌, ◌≤◌, ◌<◌, ◌≡◌, ◌≢◌, bit_and, Bool, true, not, none, List, arith, ◌==◌, ltb,
  if◌then◌else◌, Option-cases, inl, inr, ◌↔◌,
}
use ccminer.Common.Omap.{find, find-retain, find-insert, kept, insert, insert-Rising}
use ccminer.Hashlog.{
  Log, Globals, HashlogData, hextouint, key_prefix, nonce_key, has_prefix_bits, purge_job,
  purge_old, is_old, already_submitted, remember_submit, remember_scan_range, entry_or_zero,
  submit_data, scanned_data,
}
use ccminer.Hashlog.Keys.{nonce_key_lem, has_prefix_bits_lem}
use ccminer.Hashlog.Submits.{IsSorted}
use ccminer.Work.{Work}

same_truth : (b c : Bool) → (b ≡ true) ↔ (c ≡ true) → b ≡ c
same_truth b c h = ground (arith, h.0, h.1)

-- Whether the digits of the number `a` are all among those of `b`, in 32 bits.
abbrev pub digits_within : ℕ → ℕ → Bool
digits_within a b = bit_and (a % 2 ^ 32) (b % 2 ^ 32) == a % 2 ^ 32

prefix_test :
    (a b x : ℕ) → x < 2 ^ 32 → has_prefix_bits (key_prefix a) (nonce_key b x) ≡ digits_within a b
prefix_test a b x h =
    let (to, from) = has_prefix_bits_lem a (b % 2 ^ 32) x h in
    rw (nonce_key_lem b x h)
      (same_truth _ _ ((λ e. ground (arith, to)), (λ e. ground (arith, from))))

-- A purge of one job erases the records of every job whose number has all the binary digits of
-- that job's number, its own among them, and leaves the records of the others.
pub find-purge_job :
    (jobid : List ℕ) (b x : ℕ) (log : Log)
    → IsSorted log
    → x < 2 ^ 32
    → find (nonce_key b x) (purge_job jobid log)
      ≡ (if digits_within (hextouint jobid) b then none else find (nonce_key b x) log)
unfolding purge_job
find-purge_job jobid b x log s h = elim (Option-cases (find (nonce_key b x) log)) [
  | inl missing ↦ ground (
    arith,
    find-retain (nonce_key b x) 0 (λ k _. not (has_prefix_bits (key_prefix (hextouint jobid)) k))
        log s,
  )
  | inr (e, found) ↦ ground (
    arith,
    find-retain (nonce_key b x) 0 (λ k _. not (has_prefix_bits (key_prefix (hextouint jobid)) k))
        log s,
    prefix_test (hextouint jobid) b x h,
  )
]

find-purge_old_log :
    (now k : ℕ) (log : Log)
    → IsSorted log
    → find k (purge_old now log) ≡ kept (λ _ entry. not (is_old now entry)) k (find k log)
unfolding purge_old
find-purge_old_log now k log s = find-retain k 0 (λ _ entry. not (is_old now entry)) log s

-- A submission is remembered for exactly five minutes of purges: one within that time keeps the
-- answer to the duplicate test, and a later one makes the share unknown again.
pub purge_old_timeout :
    (g : Globals) (sent now : ℕ) (work : Work) (nonce : ℕ) (log : Log)
    → IsSorted log
    → nonce < 2 ^ 32
    → nonce ≢ 0
    → sent ≤ now
    → now < 2 ^ 32
    → already_submitted work.job_id nonce (purge_old now (remember_submit g sent work nonce log))
      ≡ (if ltb 300 (now - sent) then 0 else sent)
unfolding already_submitted remember_submit is_old
purge_old_timeout g sent now work nonce log s hn h le hnow =
    let k = nonce_key (hextouint work.job_id) nonce in
    let d = submit_data g sent work in
    ground (
      arith,
      find-purge_old_log now k (insert k d log) (insert-Rising 0 k d log (omega arith) s),
      find-insert k k d log,
    )

scanned_data-tm_sent :
    (now : ℕ) (work : Work) (log : Log)
    → (entry_or_zero (find (key_prefix (hextouint work.job_id)) log)).tm_sent ≡ 0
    → (scanned_data now work log).tm_sent ≡ 0
unfolding scanned_data
scanned_data-tm_sent now work log h = ground arith

forgotten :
    (now k : ℕ) (d : HashlogData) (log : Log)
    → IsSorted log
    → d.tm_sent ≡ 0
    → 300 < now
    → now < 2 ^ 32
    → find k (purge_old now (insert k d log)) ≡ none
unfolding is_old
forgotten now k d log s unsent h hnow = ground (
  arith,
  find-purge_old_log now k (insert k d log) (insert-Rising 0 k d log (omega arith) s),
  find-insert k k d log,
)

-- A scan adds no time of submission, so the next purge after the fifth minute of the clock erases
-- the job's range, however recent it is.
pub purge_old_forgets_range :
    (scanned now : ℕ) (work : Work) (log : Log)
    → IsSorted log
    → (entry_or_zero (find (key_prefix (hextouint work.job_id)) log)).tm_sent ≡ 0
    → 300 < now
    → now < 2 ^ 32
    → find
        (key_prefix (hextouint work.job_id))
        (purge_old now (remember_scan_range scanned work log))
      ≡ none
unfolding remember_scan_range is_old
purge_old_forgets_range scanned now work log s unsent h hnow =
    let k = key_prefix (hextouint work.job_id) in
    let d = scanned_data scanned work log in
    forgotten now k d log s (scanned_data-tm_sent scanned work log unsent) h hnow

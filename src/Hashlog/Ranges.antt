-- ===== src/Hashlog/Ranges.antt =====
-- The scanned range of a job, and the history for the API.
use ccminer.Common.{
  ℕ, zero, suc, ◌+◌, ◌%◌, ◌^◌, ◌≤◌, ◌<◌, ◌≡◌, refl, ap, min, true, some, List, [], ◌∷◌, arith, ◌==◌,
  ltb, ◌&&◌, ◌||◌, if◌then◌else◌, length, take, map, reverse, length-map, length-take, ◌∙◌,
}
use ccminer.Common.Omap.{find, find-insert_self}
use ccminer.Hashlog.{
  Log, HashlogData, hextouint, key_prefix, in_job, hi_dword, lo_dword, scan_range_from,
  get_scan_range, history, get_history, scanned_data, remember_scan_range, entry_or_zero,
  range_data, add_scan,
}
use ccminer.Work.{Work}

-- Each record's range is one of 32-bit words, and starts above 0.
abbrev pub AreRanges : Log → Type 0
AreRanges [] = Unit {0}
AreRanges ((k, e) ∷ log) =
    (e.scanned_to < 2 ^ 32) × (0 < e.scanned_from) × (e.scanned_from < 2 ^ 32) × AreRanges log

-- What the loop has in hand: both bounds are words, and the start is 0 only before the first hit.
range_bounds :
    (p from to : ℕ) (log : Log)
    → AreRanges log
    → from < 2 ^ 32
    → to < 2 ^ 32
    → ((scan_range_from p from to log).0 < 2 ^ 32)
      × ((scan_range_from p from to log).1 < 2 ^ 32)
      × (to ≤ (scan_range_from p from to log).1)
      × (0 < from
          → (0 < (scan_range_from p from to log).0) × ((scan_range_from p from to log).0 ≤ from))
unfolding scan_range_from
range_bounds p from to [] r hf ht = (hf, ht, omega arith, λ h. (h, omega arith))
range_bounds p from to ((k, e) ∷ log) r hf ht =
    let hit = in_job p k && ltb 0 e.scanned_to in
    let lower = ltb e.scanned_from from || from == 0 in
    let f = (if hit && lower then e.scanned_from else from) in
    let t = (if hit && ltb to e.scanned_to then e.scanned_to else to) in
    let ih = range_bounds p f t log r.3 (ground arith) (ground arith) in
    (ih.0, ih.1, ground (arith, ih.2), λ h. ground (arith, ih.3))

range_covers :
    (p from to k : ℕ) (e : HashlogData) (log : Log)
    → AreRanges log
    → from < 2 ^ 32
    → to < 2 ^ 32
    → find k log ≡ some e
    → in_job p k ≡ true
    → 0 < e.scanned_to
    → ((scan_range_from p from to log).0 ≤ e.scanned_from)
      × (e.scanned_to ≤ (scan_range_from p from to log).1)
unfolding scan_range_from find
range_covers p from to k e [] r hf ht found own pos = cc
range_covers p from to k e ((j, d) ∷ log) r hf ht found own pos =
    let hit = in_job p j && ltb 0 d.scanned_to in
    let lower = ltb d.scanned_from from || from == 0 in
    let f = (if hit && lower then d.scanned_from else from) in
    let t = (if hit && ltb to d.scanned_to then d.scanned_to else to) in
    let fw : f < 2 ^ 32 = ground arith in
    let tw : t < 2 ^ 32 = ground arith in
    let b = range_bounds p f t log r.3 fw tw in
    let ih = range_covers p f t k e log r.3 fw tw in
    (ground (arith, b.3, ih), ground (arith, b.2, ih))

-- The range that is reported for a job covers the range of each of its records.
pub get_scan_range_covers :
    (jobid : List ℕ) (k : ℕ) (e : HashlogData) (log : Log)
    → AreRanges log
    → find k log ≡ some e
    → in_job (key_prefix (hextouint jobid)) k ≡ true
    → 0 < e.scanned_to
    → (lo_dword (get_scan_range jobid log) ≤ e.scanned_from)
      × (e.scanned_to ≤ hi_dword (get_scan_range jobid log))
unfolding get_scan_range lo_dword hi_dword
get_scan_range_covers jobid k e log r found own pos =
    let p = key_prefix (hextouint jobid) in
    let c = range_covers p 0 0 k e log r (omega arith) (omega arith) found own pos in
    let b = range_bounds p 0 0 log r (omega arith) (omega arith) in
    (omega (arith, c.0, b.0, b.1), omega (arith, c.1, b.0, b.1))

extends :
    (work : Work) (njobid range added : ℕ) (old : HashlogData)
    → 0 < lo_dword range
    → lo_dword range ≤ hi_dword range
    → work.scanned_from ≡ hi_dword range + 1
    → work.scanned_from < work.scanned_to
    → work.scanned_from < 2 ^ 32
    → let entry = range_data njobid range old in
      let d = add_scan work (record entry { tm_add = added; last_from = work.scanned_from }) in
      (d.scanned_from ≡ lo_dword range) × (d.scanned_to ≡ work.scanned_to)
unfolding range_data add_scan
extends work njobid range added old lo order next run word = (ground arith, ground arith)

-- A scan that starts just behind a job's known range, which is not empty, and that ends behind its
-- own start extends that range to its own end.
pub remember_scan_range_extends :
    (now : ℕ) (work : Work) (log : Log)
    → let range = get_scan_range work.job_id log in
      0 < lo_dword range
      → lo_dword range ≤ hi_dword range
      → work.scanned_from ≡ hi_dword range + 1
      → work.scanned_from < work.scanned_to
      → work.scanned_from < 2 ^ 32
      → let key = key_prefix (hextouint work.job_id) in
        let d = entry_or_zero (find key (remember_scan_range now work log)) in
        (d.scanned_from ≡ lo_dword range) × (d.scanned_to ≡ work.scanned_to)
unfolding remember_scan_range
remember_scan_range_extends now work log lo order next run word =
    let k = key_prefix (hextouint work.job_id) in
    let old = entry_or_zero (find k log) in
    let range = get_scan_range work.job_id log in
    let entry = range_data (hextouint work.job_id) range old in
    let added = (if entry.tm_add == 0 then now % 2 ^ 32 else entry.tm_add) in
    rw (find-insert_self k (scanned_data now work log) log)
      (extends work (hextouint work.job_id) range added old lo order next run word)

-- What the history shows of an entry.
pub stamp : ℕ × HashlogData → HashlogData
stamp (key, e) = record e { nonce = lo_dword key; njobid = hi_dword key }

history-map : (n : ℕ) (log : Log) → history n log ≡ map stamp (take n log)
unfolding history stamp
history-map zero log = refl
history-map (suc n) [] = refl
history-map (suc n) (e ∷ log) = ap (◌∷◌ (stamp e)) (history-map n log)

-- The history is the newest records, by falling key, at most `n` of them, each with the job number
-- and the nonce of its key.
pub get_history_lem :
    (n : ℕ) (log : Log)
    → (get_history n log ≡ map stamp (take n (reverse log)))
      × (length (get_history n log) ≡ min n (length (reverse log)))
unfolding get_history
get_history_lem n log = (
  history-map n (reverse log),
  rw (history-map n (reverse log))
      (length-map (take n (reverse log)) stamp ∙ length-take n (reverse log)),
)

-- ===== src/Hashlog.antt =====
-- hashlog.cpp: the log of submitted nonces. Its std::map is a `Map` that each function takes and
-- returns; time(NULL) and the globals of the pool are arguments.
pub mod Keys
pub mod Submits
pub mod Purges
pub mod Ranges
mod Tests
use ccminer.Common.{
  ℕ, zero, suc, ◌+◌, ◌-◌, ◌*◌, ◌/◌, ◌%◌, ◌^◌, bit_and, Bool, true, false, not, ◌&&◌, ◌||◌, Option,
  none, some, List, [], ◌∷◌, reverse, ltb, ◌==◌, if◌then◌else◌, length,
}
use ccminer.Common.Omap.{Map, find, insert, retain}
use ccminer.Cstring.{strtoul16}
use ccminer.Float.{Double}
use ccminer.Work.{Work}

pub record HashlogData : Type 0 where
  pub npool : ℕ
  pub pool_type : ℕ
  pub nonce_id : ℕ
  pub job_nonce_id : ℕ
  pub height : ℕ
  pub sharediff : Double
  pub njobid : ℕ
  pub nonce : ℕ
  pub scanned_from : ℕ
  pub scanned_to : ℕ
  pub last_from : ℕ
  pub tm_add : ℕ
  pub tm_upd : ℕ
  pub tm_sent : ℕ

abbrev pub Log : Type 0
Log = Map HashlogData

-- memset(&data, 0, sizeof(data))
abbrev pub zero_data : HashlogData
zero_data = record {
  npool = 0;
  pool_type = 0;
  nonce_id = 0;
  job_nonce_id = 0;
  height = 0;
  sharediff = 0;
  njobid = 0;
  nonce = 0;
  scanned_from = 0;
  scanned_to = 0;
  last_from = 0;
  tm_add = 0;
  tm_upd = 0;
  tm_sent = 0;
}

-- The globals that a record copies: cur_pooln, the type of that pool, stratum.job.shares_count.
pub record Globals : Type 0 where
  pub cur_pooln : ℕ
  pub pool_type : ℕ
  pub shares_count : ℕ

pub hi_dword : ℕ → ℕ
hi_dword u = u / 2 ^ 32 % 2 ^ 32

pub lo_dword : ℕ → ℕ
lo_dword u = u % 2 ^ 32

pub hextouint : List ℕ → ℕ
hextouint jobid = strtoul16 jobid

-- `njobid << 32`
pub key_prefix : ℕ → ℕ
key_prefix njobid = njobid * 2 ^ 32 % 2 ^ 64

-- `(njobid << 32) + nonce`
pub nonce_key : ℕ → ℕ → ℕ
unfolding key_prefix
nonce_key njobid nonce = (key_prefix njobid + nonce) % 2 ^ 64

-- `(keymsk & key) == keypfx`, with the mask of the upper word
pub in_job : ℕ → ℕ → Bool
in_job keypfx key = bit_and ((2 ^ 32 - 1) * 2 ^ 32) key == keypfx

-- `(keypfx & key) == keypfx`
pub has_prefix_bits : ℕ → ℕ → Bool
has_prefix_bits keypfx key = bit_and keypfx key == keypfx

-- The loop of get_last_sent, over the entries by falling key.
last_sent : ℕ → Log → ℕ
unfolding has_prefix_bits lo_dword
last_sent keypfx [] = 0
last_sent keypfx ((key, entry) ∷ log) =
    if has_prefix_bits keypfx key && not (entry.tm_sent == 0)
    then lo_dword key
    else last_sent keypfx log

abbrev job_number : Option (List ℕ) → ℕ
job_number none = 2 ^ 32 - 1
job_number (some jobid) = hextouint jobid

unfoldable pub get_last_sent : Option (List ℕ) → Log → ℕ
unfolding last_sent key_prefix hextouint
get_last_sent jobid log = last_sent (key_prefix (job_number jobid)) (reverse log)

abbrev sent_at : Option HashlogData → ℕ
sent_at none = 0
sent_at (some entry) = entry.tm_sent

-- hashlog_already_submittted
unfoldable pub already_submitted : List ℕ → ℕ → Log → ℕ
unfolding get_last_sent nonce_key hextouint
already_submitted jobid nonce log =
    if nonce == 0
    then get_last_sent (some jobid) log
    else sent_at (find (nonce_key (hextouint jobid) nonce) log)

-- The record that a submission stores.
submit_data : Globals → ℕ → Work → HashlogData
unfolding hextouint
submit_data g now work = record zero_data {
  nonce_id = work.submit_nonce_id;
  scanned_from = work.scanned_from;
  scanned_to = work.scanned_to;
  sharediff = work.sharediff work.submit_nonce_id;
  height = work.height;
  njobid = hextouint work.job_id % 2 ^ 32;
  tm_add = now % 2 ^ 32;
  tm_upd = now % 2 ^ 32;
  tm_sent = now % 2 ^ 32;
  npool = g.cur_pooln % 256;
  pool_type = g.pool_type;
  job_nonce_id = g.shares_count % 256;
}

unfoldable pub remember_submit : Globals → ℕ → Work → ℕ → Log → Log
unfolding submit_data nonce_key hextouint
remember_submit g now work nonce log =
    insert (nonce_key (hextouint work.job_id) nonce) (submit_data g now work) log

-- The loop of get_scan_range: the bounds so far, over the entries by rising key.
scan_range_from : ℕ → ℕ → ℕ → Log → ℕ × ℕ
unfolding in_job
scan_range_from keypfx from to [] = (from, to)
scan_range_from keypfx from to ((key, entry) ∷ log) =
    let hit = in_job keypfx key && ltb 0 entry.scanned_to in
    let lower = ltb entry.scanned_from from || from == 0 in
    scan_range_from keypfx (if hit && lower then entry.scanned_from else from)
      (if hit && ltb to entry.scanned_to then entry.scanned_to else to) log

-- The upper word of the result is the end of the range, the lower its start.
unfoldable pub get_scan_range : List ℕ → Log → ℕ
unfolding scan_range_from key_prefix hextouint
get_scan_range jobid log =
    let (from, to) = scan_range_from (key_prefix (hextouint jobid)) 0 0 log in
    (from + 2 ^ 32 * to) % 2 ^ 64

abbrev entry_or_zero : Option HashlogData → HashlogData
entry_or_zero none = zero_data
entry_or_zero (some entry) = entry

-- The record of a job's range, before the scan is added.
range_data : ℕ → ℕ → HashlogData → HashlogData
unfolding hi_dword lo_dword
range_data njobid range old =
    if range == 0
    then record zero_data { njobid = njobid % 2 ^ 32 }
    else record old { scanned_from = lo_dword range; scanned_to = hi_dword range }

-- The end and the start of the range after the scan, for work->scanned_from < work->scanned_to.
next_to : Work → HashlogData → ℕ
next_to work entry =
    if entry.scanned_to == 0 || work.scanned_from == (entry.scanned_to + 1) % 2 ^ 32
    then work.scanned_to
    else entry.scanned_to

next_from : Work → HashlogData → ℕ
next_from work entry =
    if entry.scanned_from == 0
    then (if work.scanned_from == 0 then 1 else work.scanned_from)
    else if ltb work.scanned_from entry.scanned_from || work.scanned_to == entry.scanned_from - 1
    then work.scanned_from
    else entry.scanned_from

add_scan : Work → HashlogData → HashlogData
unfolding next_to next_from
add_scan work entry =
    if ltb work.scanned_from work.scanned_to
    then record entry { scanned_to = next_to work entry; scanned_from = next_from work entry }
    else entry

-- The record that a scan stores under the job's own key.
scanned_data : ℕ → Work → Log → HashlogData
unfolding get_scan_range range_data add_scan key_prefix hextouint
scanned_data now work log =
    let njobid = hextouint work.job_id in
    let range = get_scan_range work.job_id log in
    let old = entry_or_zero (find (key_prefix njobid) log) in
    let entry = range_data njobid range old in
    let added = (if entry.tm_add == 0 then now % 2 ^ 32 else entry.tm_add) in
    let scanned = add_scan work (record entry { tm_add = added; last_from = work.scanned_from }) in
    record scanned { tm_upd = now % 2 ^ 32 }

unfoldable pub remember_scan_range : ℕ → Work → Log → Log
unfolding scanned_data key_prefix hextouint
remember_scan_range now work log =
    insert (key_prefix (hextouint work.job_id)) (scanned_data now work log) log

-- The loop of get_sharediff, over the entries by falling key.
find_sharediff : ℕ → ℕ → Double → Log → Double
unfolding in_job
find_sharediff keypfx job_nonceid defvalue [] = defvalue
find_sharediff keypfx job_nonceid defvalue ((key, entry) ∷ log) =
    if in_job keypfx key && (entry.job_nonce_id == job_nonceid && not (entry.tm_sent == 0))
    then entry.sharediff
    else find_sharediff keypfx job_nonceid defvalue log

unfoldable pub get_sharediff : Option (List ℕ) → ℕ → Double → Log → Double
unfolding find_sharediff key_prefix hextouint
get_sharediff jobid job_nonceid defvalue log =
    find_sharediff (key_prefix (job_number jobid)) job_nonceid defvalue (reverse log)

-- The records that are copied out, over the entries by falling key.
history : ℕ → Log → List HashlogData
unfolding hi_dword lo_dword
history zero log = []
history (suc room) [] = []
history (suc room) ((key, entry) ∷ log) =
    record entry { nonce = lo_dword key; njobid = hi_dword key } ∷ history room log

unfoldable pub get_history : ℕ → Log → List HashlogData
unfolding history
get_history max_records log = history max_records (reverse log)

unfoldable pub purge_job : List ℕ → Log → Log
unfolding has_prefix_bits key_prefix hextouint
purge_job jobid log =
    retain (λ key entry. not (has_prefix_bits (key_prefix (hextouint jobid)) key)) log

-- LOG_PURGE_TIMEOUT, in seconds
abbrev pub purge_timeout : ℕ
purge_timeout = 5 * 60

-- `(now - tm_sent) > LOG_PURGE_TIMEOUT`, on uint32_t
pub is_old : ℕ → HashlogData → Bool
is_old now entry = ltb purge_timeout ((now % 2 ^ 32 + 2 ^ 32 - entry.tm_sent) % 2 ^ 32)

unfoldable pub purge_old : ℕ → Log → Log
unfolding is_old
purge_old now log = retain (λ key entry. not (is_old now entry)) log

unfoldable pub purge_all : Log → Log
purge_all log = []

-- sizeof(hashlog_data)
abbrev pub record_size : ℕ
record_size = 48

-- The memory and the number of the records.
unfoldable pub getmeminfo : Log → ℕ × ℕ
getmeminfo log = let records = length log % 2 ^ 32 in (records * record_size, records)

-- The calls that change the log.
pub data Call : Type 0 where
  submits : Globals → ℕ → Work → ℕ → Call
  scans : ℕ → Work → Call
  purges_job : List ℕ → Call
  purges_old : ℕ → Call
  purges_all : Call

pub step : Log → Call → Log
step log (submits g now work nonce) = remember_submit g now work nonce log
step log (scans now work) = remember_scan_range now work log
step log (purges_job jobid) = purge_job jobid log
step log (purges_old now) = purge_old now log
step log purges_all = purge_all log

unfoldable pub run : Log → List Call → Log
unfolding step
run log [] = log
run log (c ∷ cs) = run (step log c) cs

-- ===== src/Session/Notify.antt =====
-- util.cpp: getblocheight and stratum_notify, the job notification of pools that are not Verus pools.
-- `none` is a read outside a buffer or through NULL.
pub mod Coinbase
pub mod Height
pub mod Nonce
use ccminer.Common.{
  ℕ, zero, suc, ◌+◌, ◌-◌, ◌*◌, ◌/◌, ◌%◌, ◌^◌, Bool, true, false, not, ◌&&◌, ◌||◌, Option, none,
  some, List, [], ◌∷◌, ◌++◌, ltb, leb, ◌==◌, if◌then◌else◌, get_elem?, length, replicate,
}
use ccminer.Common.Int.{ℤ, lt_int, signed32}
use ccminer.Common.Memory.{overlay, write_at, resize}
use ccminer.Cstring.{codes, text_eq}
use ccminer.Hex.{hex2bin}
use ccminer.Stratum.{Stratum, Job, Json, text, array, elements, string_at, true_at}
use ccminer.Stratum.Verus.{same_id, le32, verus_stratum_notify}

infixl 5 ◌>>=◌
abbrev ◌>>=◌ : {A B : Type 0} → Option A → (A → Option B) → Option B
none >>= f = none
some a >>= f = f a

-- The two loops of getblocheight: the index where the test fails, or where `left` bytes have passed
-- it.
pub skip_while : ℕ → (ℕ → Bool) → List ℕ → ℕ → Option ℕ
skip_while zero test coinbase i = get_elem? coinbase i >>= λ b. some i
skip_while (suc left) test coinbase i =
    let more = skip_while left test coinbase (i + 1) in
    get_elem? coinbase i >>= λ b. if test b then more else some i

le16_at : List ℕ → ℕ → Option ℕ
le16_at coinbase i = do
  low ← get_elem? coinbase i
  high ← get_elem? coinbase (i + 1)
  some (low + 256 * high)

-- The top of the height, by the length of its push.
top_of : List ℕ → ℕ → ℕ → Option ℕ
unfolding le16_at
top_of coinbase hlen i =
    if hlen == 4 then le16_at coinbase i else if hlen == 3 then get_elem? coinbase i else some 0

tagged_height : List ℕ → ℕ → Option ℕ
unfolding top_of le16_at
tagged_height coinbase p = do
  hlen ← get_elem? coinbase (p + 1)
  low ← le16_at coinbase (p + 2)
  top ← top_of coinbase hlen (p + 4)
  some (low + 2 ^ 16 * top)

unfoldable pub getblocheight : List ℕ → Option ℕ
unfolding skip_while tagged_height
getblocheight coinbase = do
  tag ← skip_while 128 (λ b. not (b == 255)) coinbase 32
  p ← skip_while (160 - tag) (λ b. b == 255) coinbase tag
  last ← get_elem? coinbase (p - 1)
  before ← get_elem? coinbase (p - 2)
  if last == 255 && before == 255 then tagged_height coinbase p else some 0

-- The parameters of a notification that has them, in their sizes.
pub record JobFields : Type 0 where
  pub job_id : List ℕ
  pub prevhash : List ℕ
  pub coinb1 : List ℕ
  pub coinb2 : List ℕ
  pub branches : List Json
  pub version : List ℕ
  pub nbits : List ℕ
  pub stime : List ℕ

pub job_fits : JobFields → Bool
job_fits f =
    length f.prevhash == 64 && length f.version == 8 && length f.nbits == 8 && length f.stime == 8

array_at : List Json → ℕ → Option (List Json)
array_at params i = elim (get_elem? params i) [
  | some (array items) ↦ some (elements items)
  | _ ↦ none
]

-- `p` is the index of coinb1; `none` is a notification that is refused.
fields_from : ℕ → List Json → Option JobFields
unfolding job_fits array_at
fields_from p params = do
  branches ← array_at params (p + 2)
  job_id ← string_at params 0
  prevhash ← string_at params 1
  coinb1 ← string_at params p
  coinb2 ← string_at params (p + 1)
  version ← string_at params (p + 3)
  nbits ← string_at params (p + 4)
  stime ← string_at params (p + 5)
  let f : JobFields = record {
    job_id = job_id;
    prevhash = prevhash;
    coinb1 = coinb1;
    coinb2 = coinb2;
    branches = branches;
    version = version;
    nbits = nbits;
    stime = stime;
  }
  if job_fits f then some f else none

-- What the algorithm adds before coinb1: the bytes of a claim or of the roots, or nothing.
unfoldable pub extra_size : List ℕ → List Json → ℕ
extra_size algo params =
    if text_eq algo (codes "lbry")
    then 32
    else if text_eq algo (codes "phi2") && length params == 10
    then 64
    else 0

-- A branch is a text of 64 digits.
branch_of : Json → Option (List ℕ)
branch_of (text s) = if length s == 64 then some (hex2bin s 32).0 else none
branch_of _ = none

-- The loop over the branches: each fills a fresh buffer of 32 bytes.
unfoldable pub merkle_of : List ℕ → List Json → Option (List (List ℕ))
unfolding branch_of
merkle_of blank [] = some []
merkle_of blank (v ∷ branches) = do
  bytes ← branch_of v
  rest ← merkle_of blank branches
  some (overlay bytes blank ∷ rest)

-- `swab32(ntime) - (uint32_t) time(0)`
unfoldable pub swapped_time_ahead : ℕ → List ℕ → List ℕ → ℤ
unfolding le32
swapped_time_ahead now stack stime =
    signed32
      ((le32 (reverse4 (overlay (hex2bin stime 4).0 stack)) + 2 ^ 32 - now % 2 ^ 32) % 2 ^ 32)
  where
    reverse4 : List ℕ → List ℕ
    reverse4 (a ∷ b ∷ c ∷ d ∷ _) = d ∷ c ∷ b ∷ a ∷ []
    reverse4 s = s

unfoldable pub coinbase_of : (ℕ → ℕ) → JobFields → Stratum → List ℕ
coinbase_of fresh f s =
    let size1 = length f.coinb1 / 2 in
    let size2 = length f.coinb2 / 2 in
    let size = size1 + s.xnonce1_size + s.xnonce2_size + size2 in
    let first = write_at 0 (hex2bin f.coinb1 size1).0 (resize fresh s.job.coinbase size) in
    let nonced = write_at size1 s.xnonce1 first in
    let cleared = write_at (size1 + s.xnonce1_size) (replicate s.xnonce2_size 0) nonced in
    write_at (size1 + s.xnonce1_size + s.xnonce2_size) (hex2bin f.coinb2 size2).0
      (if same_id s.job.job_id f.job_id then nonced else cleared)

stored_job :
    (ℕ → ℕ) → JobFields → ℕ → Option (List ℕ) → List (List ℕ) → List ℕ → Bool → ℕ → Stratum → Job
unfolding coinbase_of
stored_job fresh f extra_len extradata merkle solution clean height s =
    let size1 = length f.coinb1 / 2 in
    let size2 = length f.coinb2 / 2 in
    record (s.job) {
      coinbase_size = size1 + s.xnonce1_size + s.xnonce2_size + size2;
      coinbase = coinbase_of fresh f s;
      xnonce2 = size1 + s.xnonce1_size;
      job_id = some f.job_id;
      prevhash = overlay (hex2bin f.prevhash 32).0 s.job.prevhash;
      extra = extra_bytes extradata;
      height = height;
      merkle = merkle;
      version = overlay (hex2bin f.version 4).0 s.job.version;
      nbits = overlay (hex2bin f.nbits 4).0 s.job.nbits;
      ntime = overlay (hex2bin f.stime 4).0 s.job.ntime;
      solution = overlay (hex2bin solution 1344).0 s.job.solution;
      clean = clean;
      diff = s.next_diff;
    }
  where
    extra_bytes : Option (List ℕ) → List ℕ
    extra_bytes none = s.job.extra
    extra_bytes (some hex) = overlay (hex2bin hex extra_len).0 s.job.extra

-- The solution is read without a test for NULL, after the height.
store_job :
    (ℕ → ℕ)
    → JobFields
    → ℕ
    → Option (List ℕ)
    → Bool
    → Option (List ℕ)
    → Stratum
    → Option (List (List ℕ))
    → Option (Stratum × Bool)
unfolding stored_job
store_job fresh f extra_len extradata clean solution s none = some (s, false)
store_job fresh f extra_len extradata clean solution s (some merkle) = do
  height ← getblocheight (coinbase_of fresh f s)
  hex ← solution
  some (record s { job = stored_job fresh f extra_len extradata merkle hex clean height s }, true)

-- From the clock on: it is kept also where a branch is refused.
notify_given :
    ℕ
    → List ℕ
    → (ℕ → ℕ)
    → ℕ
    → Option (List ℕ)
    → Bool
    → Option (List ℕ)
    → Stratum
    → Option JobFields
    → Option (Stratum × Bool)
unfolding store_job swapped_time_ahead merkle_of
notify_given now stack fresh extra_len extradata clean solution s none = some (s, false)
notify_given now stack fresh extra_len extradata clean solution s (some f) =
    let ntime = swapped_time_ahead now stack f.stime in
    let t : Stratum = record s {
      srvtime_diff = if lt_int s.srvtime_diff ntime then ntime else s.srvtime_diff;
    } in
    store_job fresh f extra_len extradata clean solution t (merkle_of (replicate 32 0) f.branches)

-- The claim or the roots stand at index 2, and have two digits for each byte.
extra_text : ℕ → Option (List ℕ) → Option (Option (List ℕ))
extra_text zero given = some none
extra_text (suc n) none = none
extra_text (suc n) (some hex) = if length hex == 2 * suc n then some (some hex) else none

notify_extra :
    ℕ
    → List ℕ
    → (ℕ → ℕ)
    → ℕ
    → List Json
    → Stratum
    → Option (Option (List ℕ))
    → Option (Stratum × Bool)
unfolding notify_given fields_from
notify_extra now stack fresh extra_len params s none = some (s, false)
notify_extra now stack fresh extra_len params s (some extradata) =
    let p = if extra_len == 0 then 2 else 3 in
    notify_given now stack fresh extra_len extradata (true_at params (p + 6))
      (string_at params (p + 7)) s (fields_from p params)

-- `now`, the bytes of `ntime` before it is filled, and the bytes that realloc adds come first.
unfoldable pub stratum_notify :
    ℕ → List ℕ → (ℕ → ℕ) → List ℕ → List Json → Stratum → Option (Stratum × Bool)
unfolding notify_extra extra_text extra_size
stratum_notify now stack fresh algo params s =
    let extra_len = extra_size algo params in
    if s.is_equihash
    then verus_stratum_notify now stack fresh params s
    else notify_extra now stack fresh extra_len params s (extra_text extra_len (string_at params 2))

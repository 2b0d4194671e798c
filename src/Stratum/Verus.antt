-- ===== src/Stratum/Verus.antt =====
-- verus/stratum.cpp: the Verus variant of the stratum protocol. Bytes that a function leaves
-- uninitialised are an argument (`junk`), and `none` is a read through NULL or outside a buffer.
pub mod Coinbase
mod Compact
pub mod Nonce
pub mod Notify
pub mod Params
pub mod SetTarget
pub mod Submit
mod Tests
use ccminer.Common.{
  ℕ, zero, suc, ◌+◌, ◌-◌, ◌*◌, ◌/◌, ◌%◌, ◌^◌, bit_or, Bool, true, false, not, ◌&&◌, ◌||◌, Option,
  none, some, List, [], ◌∷◌, ◌++◌, ltb, ◌==◌, if◌then◌else◌, length, get_or, replicate,
}
use ccminer.Common.Int.{ℤ, lt_int, signed32}
use ccminer.Common.Memory.{overlay, write_at, resize}
use ccminer.Cstring.{text_eq}
use ccminer.Float.{Double, Arith}
use ccminer.Hex.{hex2bin}
use ccminer.Stratum.{Stratum, Job, Json, string_at, true_at}
use ccminer.Work.{Work}

-- The shifts are by 24 and 0xFF; an exponent above 0x20 wraps on `unsigned`.
unfoldable pub target_to_diff_verus : Arith → ℕ → Double
target_to_diff_verus fp target =
    let exponent_diff = 8 * ((0x20 + 2 ^ 32 - target / 2 ^ 24 % 256) % 2 ^ 32) % 2 ^ 32 in
    fp.ldexp (fp.div (fp.of_int 0x0f0f0f) (fp.of_int (target % 2 ^ 24))) (signed32 exponent_diff)

unfoldable pub verus_network_diff : Arith → Work → Double
unfolding target_to_diff_verus
verus_network_diff fp work = target_to_diff_verus fp (work.words 26)

unfoldable pub verus_work_set_target : Double → Work → Work
verus_work_set_target diff work = record work { targetdiff = diff }

-- What the loop of set_target builds: `bits_start` is the index of the first byte that is not 0,
-- and `tail` holds the bytes of target_be that are written, which is its end.
pub record Filled : Type 0 where
  pub bits_start : Option ℕ
  pub tail : List ℕ

abbrev first_start : Option ℕ → ℕ → ℕ → Option ℕ
first_start (some s) b i = some s
first_start none b i = if b == 0 then none else some i

-- The loop from index `i` on; it stops after eight bytes that are not 0.
pub fill_target : ℕ → ℕ → Filled → List ℕ → Filled
fill_target filled i t [] = t
fill_target filled i t (b ∷ target_bin) =
    let more =
      fill_target (if b == 0 then filled else filled + 1) (i + 1)
        (record { bits_start = first_start t.bits_start b i; tail = b ∷ t.tail }) target_bin in
    if filled == 8 then t else more

pub target_be : Filled → List ℕ
target_be t = replicate (32 - length t.tail) 0 ++ t.tail

-- `exponent`, from `padding = &target_bin[31] - bits_start`
pub exponent_of : ℕ → ℕ
exponent_of start = ((31 - start) * 8 + 1 + 7) / 8 % 256

-- The three bytes of the coefficient, and the exponent over the byte that was not initialised.
pub target_bits : ℕ → ℕ → List ℕ → ℕ
target_bits junk exponent be =
    get_or be (exponent - 3) 0
    + 256 * get_or be (exponent - 2) 0
    + 65536 * get_or be (exponent - 1) 0
    + 2 ^ 24 * bit_or junk exponent

set_start : Arith → ℕ → Filled → Option ℕ → Stratum → Option Stratum
set_start fp junk t none sctx = none
set_start fp junk t (some start) sctx =
    let exponent = exponent_of start in
    let be = target_be t in
    if ltb exponent 3
    then none
    else some (record sctx {
      job = record (sctx.job) { extra = overlay be sctx.job.extra };
      next_diff = target_to_diff_verus fp (target_bits junk exponent be);
    })

abbrev with_result : Option Stratum → Option (Stratum × Bool)
with_result none = none
with_result (some s) = some (s, true)

-- A target with text. `stack` is what target_bin holds before it is filled.
set_target_text : Arith → ℕ → List ℕ → List ℕ → Stratum → Option (Stratum × Bool)
set_target_text fp junk stack target_hex sctx =
    let target_bin = overlay (hex2bin target_hex 32).0 stack in
    let t = fill_target 0 0 (record { bits_start = none; tail = [] }) target_bin in
    with_result (set_start fp junk t t.bits_start sctx)

target_of : Arith → ℕ → List ℕ → Option (List ℕ) → Stratum → Option (Stratum × Bool)
target_of fp junk stack none sctx = some (sctx, false)
target_of fp junk stack (some []) sctx = some (sctx, false)
target_of fp junk stack (some (c ∷ s)) sctx = set_target_text fp junk stack (c ∷ s) sctx

unfoldable pub verus_stratum_set_target :
    Arith → ℕ → List ℕ → List Json → Stratum → Option (Stratum × Bool)
unfolding target_of set_target_text set_start fill_target target_bits target_be exponent_of
verus_stratum_set_target fp junk stack params sctx =
    target_of fp junk stack (string_at params 0) sctx

-- The parameters of a notification that has them all, in their sizes.
pub record Fields : Type 0 where
  pub job_id : List ℕ
  pub version : List ℕ
  pub prevhash : List ℕ
  pub coinb1 : List ℕ
  pub coinb2 : List ℕ
  pub stime : List ℕ
  pub nbits : List ℕ

pub fit : Fields → Bool
fit f =
    (length f.prevhash == 64 && length f.version == 8)
    && (length f.coinb1 == 64 && length f.coinb2 == 64)
    && (length f.nbits == 8 && length f.stime == 8)

infixl 5 ◌>>=◌
abbrev pub ◌>>=◌ : {A B : Type 0} → Option A → (A → Option B) → Option B
none >>= f = none
some a >>= f = f a

-- `none` is "invalid parameters".
pub notify_fields : List Json → Option Fields
unfolding fit
notify_fields params = do
  job_id ← string_at params 0
  version ← string_at params 1
  prevhash ← string_at params 2
  coinb1 ← string_at params 3
  coinb2 ← string_at params 4
  stime ← string_at params 5
  nbits ← string_at params 6
  let f : Fields = record {
    job_id = job_id;
    version = version;
    prevhash = prevhash;
    coinb1 = coinb1;
    coinb2 = coinb2;
    stime = stime;
    nbits = nbits;
  }
  if fit f then some f else none

abbrev pub same_id : Option (List ℕ) → List ℕ → Bool
same_id none id = false
same_id (some old) id = text_eq old id

-- The coinbase of the job: the two parts, the extranonce, and the second nonce, which a new job
-- clears. `fresh` gives the bytes that `realloc` adds.
pub next_coinbase : (ℕ → ℕ) → Fields → Stratum → List ℕ
next_coinbase fresh f s =
    let size1 = length f.coinb1 / 2 in
    let size2 = length f.coinb2 / 2 in
    let size = size1 + size2 + s.xnonce1_size + s.xnonce2_size in
    let parts =
      write_at size1 (hex2bin f.coinb2 size2).0
        (write_at 0 (hex2bin f.coinb1 size1).0 (resize fresh s.job.coinbase size)) in
    let cleared = write_at (size1 + size2 + s.xnonce1_size) (replicate s.xnonce2_size 0) parts in
    write_at (size1 + size2) s.xnonce1 (if same_id s.job.job_id f.job_id then parts else cleared)

unfoldable pub le32 : List ℕ → ℕ
le32 b = get_or b 0 0 + 256 * get_or b 1 0 + 65536 * get_or b 2 0 + 2 ^ 24 * get_or b 3 0

-- How far the server's clock is ahead; `stack` is what the int holds before.
time_ahead : ℕ → List ℕ → List ℕ → ℤ
unfolding le32
time_ahead now stack stime =
    signed32 ((le32 (overlay (hex2bin stime 4).0 stack) + 2 ^ 32 - now % 2 ^ 32) % 2 ^ 32)

next_job : (ℕ → ℕ) → Fields → List ℕ → Bool → Stratum → Job
unfolding next_coinbase
next_job fresh f solution clean s =
    let size1 = length f.coinb1 / 2 in
    let size2 = length f.coinb2 / 2 in
    record (s.job) {
      solution = overlay (hex2bin solution 1344).0 s.job.solution;
      version = overlay (hex2bin f.version 4).0 s.job.version;
      prevhash = overlay (hex2bin f.prevhash 32).0 s.job.prevhash;
      coinbase_size = size1 + size2 + s.xnonce1_size + s.xnonce2_size;
      coinbase = next_coinbase fresh f s;
      xnonce2 = size1 + size2 + s.xnonce1_size;
      merkle = [];
      job_id = some f.job_id;
      nbits = overlay (hex2bin f.nbits 4).0 s.job.nbits;
      ntime = overlay (hex2bin f.stime 4).0 s.job.ntime;
      clean = clean;
      diff = s.next_diff;
    }

-- The solution is read without a test for NULL.
notify_job :
    ℕ → List ℕ → (ℕ → ℕ) → Bool → Stratum → Fields → Option (List ℕ) → Option (Stratum × Bool)
unfolding next_job time_ahead
notify_job now stack fresh clean s f none = none
notify_job now stack fresh clean s f (some solution) =
    let ntime = time_ahead now stack f.stime in
    some (
      record s {
        srvtime_diff = if lt_int s.srvtime_diff ntime then ntime else s.srvtime_diff;
        job = next_job fresh f solution clean s;
      },
      true,
    )

notify_checked :
    ℕ → List ℕ → (ℕ → ℕ) → List Json → Stratum → Option Fields → Option (Stratum × Bool)
unfolding notify_job
notify_checked now stack fresh params s none = some (s, false)
notify_checked now stack fresh params s (some f) =
    notify_job now stack fresh (true_at params 7) s f (string_at params 8)

unfoldable pub verus_stratum_notify :
    ℕ → List ℕ → (ℕ → ℕ) → List Json → Stratum → Option (Stratum × Bool)
unfolding notify_checked notify_fields
verus_stratum_notify now stack fresh params s =
    notify_checked now stack fresh params s (notify_fields params)

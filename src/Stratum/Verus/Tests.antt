-- ===== src/Stratum/Verus/Tests.antt =====
-- verus/stratum.cpp: the theorems on the messages of a pool at concrete ones.
use ccminer.Common.{
  ℕ, zero, suc, ◌+◌, ◌-◌, ◌*◌, ◌^◌, ◌≤◌, ◌<◌, ◌≡◌, refl, bit_or, true, some, List, [], ◌∷◌, arith,
  replicate,
}
use ccminer.Cstring.{codes}
use ccminer.Hex.{bin2hex}
use ccminer.Hex.RoundTrip.{AreBytes}
use ccminer.Fixtures.{naturals, a_stratum}
use ccminer.Stratum.{Json, Stratum}
use ccminer.Stratum.Verus.{
  target_to_diff_verus, verus_stratum_set_target, verus_stratum_notify, Fields, next_coinbase,
  same_id,
}
use ccminer.Common.{take, drop, length-replicate, ◌++◌, length, false}
use ccminer.Common.Memory.{write_at}
use ccminer.Fixtures.{a_work}
use ccminer.Hex.{hex2bin}
use ccminer.Wire.{took}
use ccminer.Stratum.Verus.Submit.{nonce_text, solution_text, memory_of, verus_stratum_submit}
use ccminer.Stratum.Verus.Submit.Texts.{share_texts_lem}
use ccminer.Stratum.Verus.Submit.Counted.{Submitted, submit-Submitted}
use ccminer.Stratum.Verus.Compact.{be_value}
use ccminer.Stratum.Verus.SetTarget.{bytes_of, set_target_compact}
use ccminer.Stratum.Verus.Notify.{Notified, notify-Notified}
use ccminer.Stratum.Verus.Coinbase.{next_coinbase_lem}

abbrev target : List ℕ
target = bytes_of 3 15 15 15 (replicate 26 0)

zeros-AreBytes : (n : ℕ) → AreBytes (replicate n 0)
zeros-AreBytes zero = tt
zeros-AreBytes (suc n) = (omega arith, zeros-AreBytes n)

target-AreBytes : AreBytes target
target-AreBytes = (
  omega arith,
  (omega arith, (omega arith, (omega arith, (omega arith, (omega arith, zeros-AreBytes 26))))),
)

set_target_compact_example :
    (t : Stratum) × (verus_stratum_set_target naturals 0
        (replicate 32 9)
        (Json.text (bin2hex target) ∷ [])
        a_stratum
      ≡ some (t, true))
    × (t.next_diff
        ≡ target_to_diff_verus naturals (15 + 256 * 15 + 65536 * 15 + 2 ^ 24 * bit_or 0 (32 - 3)))
    × ((15 + 256 * 15 + 65536 * 15) * 256 ^ (29 - 3) ≤ be_value target)
    × (be_value target < (15 + 256 * 15 + 65536 * 15 + 1) * 256 ^ (29 - 3))
set_target_compact_example =
    set_target_compact naturals 0 3 15 15 15 (replicate 26 0) (replicate 32 9) [] a_stratum
      (omega arith) target-AreBytes refl refl

abbrev word : List ℕ
word = codes "04000000"

abbrev half : List ℕ
half = bin2hex (replicate 32 17)

abbrev notification : List Json
notification =
    Json.text (codes "7a")
    ∷ Json.text word
    ∷ Json.text half
    ∷ Json.text half
    ∷ Json.text half
    ∷ Json.text word
    ∷ Json.text word
    ∷ Json.truth true
    ∷ Json.text half
    ∷ []

notify-Notified_example :
    Notified notification a_stratum (verus_stratum_notify 100 [] (λ i. 0) notification a_stratum)
notify-Notified_example = notify-Notified 100 [] (λ i. 0) notification a_stratum refl

abbrev fields : Fields
fields = record {
  job_id = codes "7a";
  version = word;
  prevhash = half;
  coinb1 = bin2hex (1 ∷ 2 ∷ []);
  coinb2 = bin2hex (3 ∷ []);
  stime = word;
  nbits = word;
}

next_coinbase_lem_example :
    (tail : List ℕ) × (next_coinbase (λ i. 0) fields a_stratum
      ≡ (1 ∷ 2 ∷ []) ++ ((3 ∷ []) ++ (a_stratum.xnonce1 ++ tail)))
    × (length tail ≡ a_stratum.xnonce2_size)
    × (same_id a_stratum.job.job_id (codes "7a") ≡ false
        → tail ≡ replicate a_stratum.xnonce2_size 0)
next_coinbase_lem_example =
    next_coinbase_lem (λ i. 0) fields a_stratum (1 ∷ 2 ∷ []) (3 ∷ []) refl refl
      (omega arith, (omega arith, tt)) (omega arith, tt) refl

naturals_bytes : (n b : ℕ) → b < 256 → AreBytes (replicate n b)
naturals_bytes zero b h = tt
naturals_bytes (suc n) b h = (h, naturals_bytes n b h)

share_texts_lem_example :
    (hex2bin (nonce_text 2 a_work) 30 ≡ (drop 2 (memory_of a_work.words 27 8), true))
    × (hex2bin (solution_text a_work) 1347
        ≡ (write_at 11 (take 64 (drop 8 a_work.solution)) (take 1347 a_work.extra), true))
share_texts_lem_example =
    share_texts_lem 2 a_work (omega arith) (length-replicate {A = ℕ} 1388 0)
      (naturals_bytes 1388 0 (omega arith)) (naturals_bytes 1344 7 (omega arith))

submit-Submitted_example :
    Submitted
      (took 4000 ∷ [])
      (codes "user")
      a_work
      a_stratum
      (verus_stratum_submit (took 4000 ∷ []) (codes "user") a_work a_stratum)
submit-Submitted_example = submit-Submitted (took 4000 ∷ []) (codes "user") a_work a_stratum

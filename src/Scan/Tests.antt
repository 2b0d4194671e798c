-- ===== src/Scan/Tests.antt =====
-- verus/verusscan.cpp: the theorems on the search at concrete hash functions.
use ccminer.Common.{
  ℕ, zero, suc, ◌+◌, ◌-◌, ◌^◌, ◌≤◌, ◌≡◌, ◌≢◌, refl, true, false, arith, ltb, ◌==◌, if◌then◌else◌,
  bit_and, length, length-replicate, inl, inr, Bool-cases, ==_iff,
}
use ccminer.Bench.{update}
use ccminer.Fixtures.{naturals, a_work}
use ccminer.Target.{fulltest}
use ccminer.Scan.{Key, Bytes, ClHash, Hashes, fix_key, finalized, finalize_hash}
use ccminer.Scan.Keys.{Logged, fix_key-Logged}
use ccminer.Scan.Prepared.{finalize_hash_lem}
use ccminer.Scan.Restore.{Noted}
use ccminer.Scan.Prepared.{Alike}
use ccminer.Scan.Lanes.{LaneHash, Lane, Lanes, batches_from}
use ccminer.Scan.Lanes.Batches.{IsDual, IsReady, Searched, batches_from-Searched}
use ccminer.Scan.Loop.{IsHashes}
use ccminer.Scan.Setup.{key_of, scanhash_verus}
use ccminer.Scan.Setup.Outcome.{Outcome, scanhash_verus-Outcome}

-- Every round writes 99 to place 0 of the key.
abbrev scrambled : Key → ClHash
scrambled key = record {
  intermediate = 515;
  key = update key 0 99;
  fixrand = λ i. 0;
  fixrandex = λ i. 1;
  g_prand = λ i. if i == 0 then key 0 else 99;
  g_prandex = λ i. key 1;
}

-- A nonce below 2 has a high hash, any other a low one.
abbrev toy : Hashes
toy = record {
  haraka512 = λ b i. b (i + 32);
  haraka256 = λ b i. b i + 1;
  haraka512_keyed = λ b k i. if ltb (b 43) 2 then 2 ^ 32 - 1 else 5;
  haraka512_keyed_highword = λ b k. if ltb (b 43) 2 then 2 ^ 32 - 1 else 5;
  verusclhashv2_2 = λ key b. scrambled key;
}

away : (key : Key) (j : ℕ) → j ≢ 0 → update key 0 99 j ≡ key j
away key j other = let off : (j == 0) ≡ false = ground arith in rw off refl

later_round : (key : Key) (n : ℕ) → (scrambled key).g_prand (suc n) ≡ 99
later_round key n = let later : (suc n == 0) ≡ false = ground arith in rw later refl

scrambled-Logged : (key : Key) (n : ℕ) → Logged (scrambled key) (suc n) key (update key 0 99)
scrambled-Logged key zero = Logged.round (Logged.start key) refl refl (λ j u v. away key j u)
scrambled-Logged key (suc n) =
    Logged.round (scrambled-Logged key n) (later_round key n) refl (λ j u v. refl)

fix_key-Logged_example : fix_key (scrambled (λ i. i + 7)) (update (λ i. i + 7) 0 99) ≡ (λ i. i + 7)
fix_key-Logged_example =
    fix_key-Logged (scrambled (λ i. i + 7)) (λ i. i + 7) (update (λ i. i + 7) 0 99)
      (scrambled-Logged (λ i. i + 7) 31)

toy-IsHashes : (key : Key) → IsHashes toy key
toy-IsHashes key = record { logged = λ b. scrambled-Logged key 31; last = λ b k. refl }

finalize_hash_lem_example :
    (finalize_hash toy (λ i. 0) (λ i. i) (λ i. 9) 9 (λ i. i) 515).0
    ≡ fulltest
        (toy.haraka512_keyed (finalized toy (λ i. i) 515) (λ i. i + bit_and 515 511))
        (λ i. 9)
finalize_hash_lem_example =
    finalize_hash_lem toy (λ i. 0) (λ i. i) (λ i. 9) (λ i. i) 515 (λ b k. refl)

extra_fits : 1347 ≤ length a_work.extra
extra_fits = omega (arith, length-replicate {A = ℕ} 1388 0)

scanhash_verus-Outcome_example :
    Outcome toy naturals true
      (λ hash target. 4)
      (λ i. 0)
      (λ n. false)
      a_work
      1000
      (scanhash_verus naturals true (λ hash target. 4) toy (λ i. 0) (λ n. false) a_work 1000)
scanhash_verus-Outcome_example =
    scanhash_verus-Outcome toy naturals true (λ hash target. 4) (λ i. 0) (λ n. false) a_work 1000
      (toy-IsHashes (key_of toy (λ i. 0) a_work)) (omega arith) extra_fits

-- A run of one lane, which writes to place 0 of the key, and two of them.
abbrev one_lane : Key → Bytes → LaneHash
one_lane key b = record { intermediate = 515; key = update key 0 99; touched = λ r. 0 }

abbrev two_lanes : Key → Bytes → Key → Bytes → LaneHash × LaneHash
two_lanes a b c d = (one_lane a b, one_lane c d)

one_lane-Noted : (key : Key) (j : ℕ) → Noted (λ r. 0) key 0 32 (update key 0 99) j
one_lane-Noted key j = elim (Bool-cases (j == 0)) [
  | inl here ↦ inr (0, omega arith, omega arith, inl ((==_iff j 0).0 here))
  | inr off ↦ inl (rw off refl)
]

two_lanes-IsDual : (key : Key) → IsDual toy two_lanes one_lane key
two_lanes-IsDual key = record {
  apart = λ a b. refl;
  noted = λ a j. one_lane-Noted key j;
  last = λ b k. refl;
}

abbrev lane : Lane
lane = record { buffer = λ i. i; key = λ i. i }

abbrev lanes : Lanes
lanes = record { vhash = λ i. 0; first = lane; second = lane; nonce_buf = 0; completed = 0 }

lane-Alike : Alike (λ i. i) (λ i. i)
unfolding Alike
lane-Alike i = refl

lane-IsReady : IsReady toy one_lane (λ i. i) 9 (λ i. 2 ^ 31) (λ i. i) (λ i. i) lane
lane-IsReady = record { same_key = refl; same_block = lane-Alike }

batches_from-Searched_example :
    Searched toy one_lane
      (λ i. i)
      9
      (λ i. 2 ^ 31)
      (λ i. i)
      (λ i. i)
      (λ n. false)
      lanes
      50
      (batches_from toy two_lanes (λ i. 0) (λ i. i) 9 (λ i. 2 ^ 31) (λ i. i) (λ n. false) 50 lanes)
batches_from-Searched_example =
    batches_from-Searched toy one_lane (λ i. i) 9 (λ i. 2 ^ 31) (λ i. i) (λ i. i) two_lanes (λ i. 0)
      (two_lanes-IsDual (λ i. i)) (λ n. false) 50 lanes
      (record { lane0 = lane-IsReady; lane1 = lane-IsReady }) (omega arith)

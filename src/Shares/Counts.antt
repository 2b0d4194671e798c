-- ===== src/Shares/Counts.antt =====
-- The counters over any number of answers.
use native.Mathlib.Nat.{add-zero}
use ccminer.Common.{
  ℕ, suc, ◌+◌, ◌%◌, ◌^◌, ◌≡◌, ◌⊎◌, refl, ◌∙◌, Bool, true, false, not, ◌&&◌, ◌||◌, Option, none,
  some, List, [], ◌∷◌, arith, ◌==◌, if◌then◌else◌, Bool-cases, inl, inr,
}
use ccminer.Common.Int.{pos, lt_int}
use ccminer.Float.{Double}
use ccminer.Session.{Message, no_value, int_value}
use ccminer.Stratum.{Json}
use ccminer.Shares.{
  Tally, Shares, ShareContext, counted, share_result, is_true, reason_of, sharediff_of,
  answer_counted, stratum_handle_response,
}

-- One answer on a share: what it was, whose, its difficulty and the reason of a rejection.
pub record Verdict : Type 0 where
  pub result : Bool
  pub pooln : ℕ
  pub sharediff : Double
  pub reason : Option (List ℕ)

unfoldable pub run : ShareContext → List Verdict → Shares → Shares
run r [] s = s
run r (v ∷ verdicts) s = run r verdicts (share_result r v.result v.pooln v.sharediff v.reason s)

-- How many answers of a pool have the result.
unfoldable pub count_of : Bool → ℕ → List Verdict → ℕ
count_of result pooln [] = 0
count_of result pooln (v ∷ verdicts) =
    let rest = count_of result pooln verdicts in
    if pooln == v.pooln && (if result then v.result else not v.result) then suc rest else rest

wrapped : (a b : ℕ) → ((a + 1) % 2 ^ 32 + b) % 2 ^ 32 ≡ (a + suc b) % 2 ^ 32
wrapped a b = omega arith

module _ (r : ShareContext) (d : Double) (t : Tally) (n : ℕ) where
  accepted_step :
      (own result : Bool)
      → ((if own then counted r result d t else t).accepted_count + n) % 2 ^ 32
        ≡ (t.accepted_count + (if own && result then suc n else n)) % 2 ^ 32
  unfolding counted
  accepted_step true true = wrapped t.accepted_count n
  accepted_step true false = refl
  accepted_step false true = refl
  accepted_step false false = refl

  rejected_step :
      (own result : Bool)
      → ((if own then counted r result d t else t).rejected_count + n) % 2 ^ 32
        ≡ (t.rejected_count + (if own && not result then suc n else n)) % 2 ^ 32
  unfolding counted
  rejected_step true true = refl
  rejected_step true false = wrapped t.rejected_count n
  rejected_step false true = refl
  rejected_step false false = refl

-- Over any answers, each pool's counters of accepted and rejected shares, as numbers of 32 bits, go up
-- by the numbers of its accepted and of its rejected shares.
pub run_counts :
    (r : ShareContext) (verdicts : List Verdict) (s : Shares) (i : ℕ)
    → (((run r verdicts s).tallies i).accepted_count % 2 ^ 32
        ≡ ((s.tallies i).accepted_count + count_of true i verdicts) % 2 ^ 32)
      × (((run r verdicts s).tallies i).rejected_count % 2 ^ 32
          ≡ ((s.tallies i).rejected_count + count_of false i verdicts) % 2 ^ 32)
unfolding run count_of share_result
run_counts r [] s i = (
  rw (add-zero ((s.tallies i).accepted_count)) refl,
  rw (add-zero ((s.tallies i).rejected_count)) refl,
)
run_counts r (v ∷ verdicts) s i =
    let t : Shares = share_result r v.result v.pooln v.sharediff v.reason s in
    let later = run_counts r verdicts t i in
    (
      later.0
          ∙ accepted_step r v.sharediff (s.tallies i) (count_of true i verdicts) (i == v.pooln)
              v.result,
      later.1
          ∙ rejected_step r v.sharediff (s.tallies i) (count_of false i verdicts) (i == v.pooln)
              v.result,
    )

-- Why an answer is no answer to a share.
pub Refused : Option Message → Type 0
Refused none = Unit {0}
Refused (some a) =
    (no_value a.id ≡ true) ⊎ (lt_int (int_value a.id) (pos 4) ≡ true) ⊎ (a.result ≡ none)

-- What an answer of the pool does: a share counted, or nothing.
pub Counted : ShareContext → Option Message → Shares → Shares × Bool → Type 0
Counted r m s (t, false) = (t ≡ s) × Refused m
Counted r m s (t, true) =
    (a : Message) × (result : Json) × (v : Verdict) × (m ≡ some a)
    × (a.result ≡ some result)
    × (v.result ≡ is_true result)
    × (no_value a.id ≡ false)
    × (lt_int (int_value a.id) (pos 4) ≡ false)
    × (v.pooln ≡ r.pooln)
    × (t ≡ run r (v ∷ []) s)

Counted-answer :
    (r : ShareContext) (a : Message) (s : Shares) (result : Option Json)
    → a.result ≡ result
    → no_value a.id ≡ false
    → lt_int (int_value a.id) (pos 4) ≡ false
    → Counted r (some a) s (answer_counted r a (int_value a.id) s result)
unfolding answer_counted Counted Refused run
Counted-answer r a s none e h k = (refl, inr (inr e))
Counted-answer r a s (some v) e h k = (
  a,
  v,
  record {
    result = is_true v;
    pooln = r.pooln;
    sharediff = sharediff_of r s (int_value a.id);
    reason = reason_of a.error;
  },
  refl,
  e,
  refl,
  h,
  k,
  refl,
  refl,
)

refused :
    (a : Message) → (no_value a.id || lt_int (int_value a.id) (pos 4)) ≡ true → Refused (some a)
unfolding Refused
refused a late = elim (Bool-cases (no_value a.id)) [
  | inl unset ↦ inl unset
  | inr given ↦ inr (inl (ground arith))
]

-- An answer counts one share of the pool that it came from, by its result, and is reported as
-- handled, where it is JSON with an id of at least 4 and a result. It changes nothing and is not
-- handled where it is no JSON, has no id or an id below 4, or has no result.
pub response-Counted :
    (r : ShareContext) (m : Option Message) (s : Shares)
    → Counted r m s (stratum_handle_response r m s)
unfolding stratum_handle_response Counted Refused
response-Counted r none s = (refl, tt)
response-Counted r (some a) s =
    elim (Bool-cases (no_value a.id || lt_int (int_value a.id) (pos 4))) [
      | inl late ↦ rw late (refl, refused a late)
      | inr handled ↦ rw handled (Counted-answer r a s a.result refl (ground arith) (ground arith))
    ]

-- ===== src/Target/Difficulty.antt =====
-- util.cpp: diff_to_target and work_set_target, which turn a difficulty into a target.
use ccminer.Common.{
  ℕ, zero, suc, ◌+◌, ◌-◌, ◌*◌, ◌/◌, ◌%◌, ◌^◌, ◌≤◌, ◌<◌, ◌≡◌, refl, ◌&&◌, arith, ◌==◌, if◌then◌else◌,
  Bool-cases, inl, inr,
}
use ccminer.Float.{Double, Arith}
use ccminer.Work.{Work}
use ccminer.Target.Compare.{value}

-- The loop: `k` is divided off while the difficulty is above 1.
unfoldable pub scale : Arith → ℕ → Double → ℕ × Double
scale fp zero diff = (0, diff)
scale fp (suc k) diff =
    let lower = scale fp k (fp.div diff (fp.of_int (2 ^ 32))) in
    if fp.lt (fp.of_int 1) diff then lower else (suc k, diff)

-- The two words of a mantissa, at the words `k` and above.
abbrev pub two_words : ℕ → ℕ → ℕ → ℕ
two_words m k i = if i == k + 1 then m / 2 ^ 32 % 2 ^ 32 else if i == k then m % 2 ^ 32 else 0

unfoldable pub place_mantissa : ℕ → ℕ → ℕ → ℕ
place_mantissa m k = if m == 0 && k == 6 then (λ i. 2 ^ 32 - 1) else two_words m k

unfoldable pub diff_to_target : Arith → Double → ℕ → ℕ
unfolding scale place_mantissa
diff_to_target fp diff =
    let (k, scaled) = scale fp 6 diff in
    place_mantissa (fp.truncate (fp.div (fp.of_int 4294901760) scaled) % 2 ^ 64) k

unfoldable pub work_set_target : Arith → Double → Work → Work
unfolding diff_to_target
work_set_target fp diff work = record work { target = diff_to_target fp diff; targetdiff = diff }

value-two_words : (m k : ℕ) → m < 2 ^ 64 → k ≤ 6 → value 8 (two_words m k) ≡ m * (2 ^ 32) ^ k
unfolding value
value-two_words m zero b h = omega arith
value-two_words m (suc zero) b h = omega arith
value-two_words m (suc (suc zero)) b h = omega arith
value-two_words m (suc (suc (suc zero))) b h = omega arith
value-two_words m (suc (suc (suc (suc zero)))) b h = omega arith
value-two_words m (suc (suc (suc (suc (suc zero))))) b h = omega arith
value-two_words m (suc (suc (suc (suc (suc (suc zero)))))) b h = omega arith
value-two_words m (suc (suc (suc (suc (suc (suc (suc k))))))) b h = absurd (omega arith)

scale_le : (fp : Arith) (k : ℕ) (diff : Double) → (scale fp k diff).0 ≤ k
unfolding scale
scale_le fp zero diff = omega arith
scale_le fp (suc k) diff = elim (Bool-cases (fp.lt (fp.of_int 1) diff)) [
  | inl above ↦ rw above (le_suc k (scale_le fp k (fp.div diff (fp.of_int (2 ^ 32)))))
  | inr below ↦ rw below (omega arith)
]
  where
    le_suc : {n : ℕ} (k : ℕ) → n ≤ k → n ≤ suc k
    le_suc k h = omega arith

-- The number of a target is the mantissa, 4294901760 over the scaled difficulty, times 2 ^ 32 to the
-- power of the word that the scaling stops at, or, for a mantissa of 0 at the sixth word, the
-- greatest number of 256 bits.
pub diff_to_target_lem :
    (fp : Arith) (diff : Double)
    → value 8 (diff_to_target fp diff) ≡ (
        let (k, scaled) = scale fp 6 diff in
        let m = fp.truncate (fp.div (fp.of_int 4294901760) scaled) % 2 ^ 64 in
        if m == 0 && k == 6 then 2 ^ 256 - 1 else m * (2 ^ 32) ^ k)
unfolding diff_to_target place_mantissa value
diff_to_target_lem fp diff =
    let k : ℕ = (scale fp 6 diff).0 in
    let m : ℕ = fp.truncate (fp.div (fp.of_int 4294901760) (scale fp 6 diff).1) % 2 ^ 64 in
    elim (Bool-cases (m == 0 && k == 6)) [
      | inl full ↦ rw full all_ones
      | inr part ↦ rw part (value-two_words m k (omega arith) (scale_le fp 6 diff))
    ]
  where
    all_ones : value 8 (λ i. 2 ^ 32 - 1) ≡ 2 ^ 256 - 1
    all_ones = refl

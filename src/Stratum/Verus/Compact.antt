-- ===== src/Stratum/Verus/Compact.antt =====
-- Big-endian numbers, and the three leading bytes of one.
use native.Mathlib.Nat.{pow-suc}
use ccminer.Common.{
  ℕ, zero, suc, ◌+◌, ◌*◌, ◌^◌, ◌≤◌, ◌<◌, ◌≡◌, refl, List, [], ◌∷◌, ◌++◌, arith, length, replicate,
}
use ccminer.Hex.RoundTrip.{AreBytes}

-- The number that the bytes stand for, the most significant first.
pub be_value : List ℕ → ℕ
be_value [] = 0
be_value (b ∷ bs) = b * 256 ^ length bs + be_value bs

carry : (b x p : ℕ) → b < 256 → x < p → b * p + x < p * 256
carry b x p h k = grind arith

pub be_value-lt : (bs : List ℕ) → AreBytes bs → be_value bs < 256 ^ length bs
unfolding be_value
be_value-lt [] h = omega arith
be_value-lt (b ∷ bs) h = omega (
  arith,
  pow-suc 256 (length bs),
  carry b (be_value bs) (256 ^ length bs) h.0 (be_value-lt bs h.1),
)

pub be_value-zeros : (n : ℕ) (bs : List ℕ) → be_value (replicate n 0 ++ bs) ≡ be_value bs
unfolding be_value
be_value-zeros zero bs = refl
be_value-zeros (suc n) bs = omega (arith, be_value-zeros n bs)

leading :
    (a b c x p : ℕ)
    → x < p
    → ((c + 256 * b + 65536 * a) * p ≤ a * (p * 256 * 256) + (b * (p * 256) + (c * p + x)))
      × (a * (p * 256 * 256) + (b * (p * 256) + (c * p + x)) < (c + 256 * b + 65536 * a + 1) * p)
leading a b c x p h = (omega arith, omega arith)

-- The three leading bytes bound the number on both sides.
pub be_value-leading :
    (a b c : ℕ) (bs : List ℕ)
    → AreBytes bs
    → ((c + 256 * b + 65536 * a) * 256 ^ length bs ≤ be_value (a ∷ b ∷ c ∷ bs))
      × (be_value (a ∷ b ∷ c ∷ bs) < (c + 256 * b + 65536 * a + 1) * 256 ^ length bs)
unfolding be_value
be_value-leading a b c bs h =
    let l = leading a b c (be_value bs) (256 ^ length bs) (be_value-lt bs h) in
    rw (pow-suc 256 (suc (length bs)), pow-suc 256 (length bs)) l

-- ===== src/Common/Bits.antt =====
-- Laws of `bit_and` at variables: its lowest digit, fields and masks.
use Prim.Native.Nat.{digits, bit_and-bitwise}
use Prim.Native.Nat.add
use native.Mathlib.Nat.{pow-suc, one-le-pow}
use ccminer.Common.{
  ℕ, zero, suc, ◌+◌, ◌-◌, ◌*◌, ◌/◌, ◌%◌, ◌^◌, ◌≤◌, ◌<◌, ◌≡◌, refl, sym, ap, subst, ◌∙◌, min,
  bit_and, arith,
}

-- The digits that both numbers have, over a count of digits to go.
abbrev common : ℕ → ℕ → ℕ → ℕ
common n a b = digits (λ _. zero) min n a b

common_more : (n a b : ℕ) → a ≤ n → common (suc n) a b ≡ common n a b
common_more zero zero b h = refl
common_more zero (suc a) b h = absurd (omega arith)
common_more (suc n) zero b h = refl
common_more (suc n) (suc a) b h =
    ap (λ t. t * 2 + min (suc a % 2) (b % 2)) (common_more n (suc a / 2) (b / 2) (omega arith))

common_enough : (k a b : ℕ) → common (k + a) a b ≡ common a a b
common_enough zero a b = rw (add.zero a) refl
common_enough (suc k) a b =
    rw (add.suc k a) (common_more (k + a) a b (omega arith) ∙ common_enough k a b)

bit_and-common : (a b : ℕ) → bit_and a b ≡ common a a b
bit_and-common a b = bit_and-bitwise a b

common_bound : (n a b : ℕ) → a ≤ n → common n a b ≡ bit_and a b
common_bound n a b h =
    let e : n ≡ (n - a) + a = omega arith in
    rw (bit_and-common a b)
      (subst (λ m. common m a b ≡ common a a b) (sym e) (common_enough (n - a) a b))

-- The lowest digit of `a & b`, and the rest.
pub bit_and-digit : (x y : ℕ) → bit_and x y ≡ min (x % 2) (y % 2) + 2 * bit_and (x / 2) (y / 2)
bit_and-digit zero b = omega (arith, bit_and-common 0 b, bit_and-common 0 (b / 2))
bit_and-digit (suc a) b =
    omega (arith, bit_and-common (suc a) b, common_bound a (suc a / 2) (b / 2) (omega arith))

-- Twice a shifted number, for the digit laws.
double_shift : (q k : ℕ) → q * 2 ^ suc k ≡ q * 2 ^ k * 2
double_shift q k = omega (arith, ap (λ (t : ℕ). q * t) (pow-suc 2 k))

self_upto : (n a : ℕ) → a ≤ n → bit_and a a ≡ a
self_upto zero zero h = refl
self_upto zero (suc a) h = absurd (omega arith)
self_upto (suc n) zero h = refl
self_upto (suc n) (suc a) h =
    omega (arith, bit_and-digit (suc a) (suc a), self_upto n (suc a / 2) (omega arith))

pub bit_and_self : (a : ℕ) → bit_and a a ≡ a
bit_and_self a = self_upto a a (omega arith)

-- A mask that is shifted by `k` sees only the digits above.
pub bit_and-shift :
    (k a q r : ℕ) → r < 2 ^ k → bit_and (a * 2 ^ k) (q * 2 ^ k + r) ≡ bit_and a q * 2 ^ k
bit_and-shift zero a q r h =
    let e : q * 2 ^ 0 + r ≡ q = omega arith in
    let d : a * 2 ^ 0 ≡ a = omega arith in rw (d, e) (omega arith)
bit_and-shift (suc k) a q r h = ground (
  arith,
  bit_and-digit (a * 2 ^ suc k) (q * 2 ^ suc k + r),
  double_shift a k,
  double_shift q k,
  double_shift (bit_and a q) k,
  pow-suc 2 k,
  bit_and-shift k a q (r / 2) (omega (arith, pow-suc 2 k)),
)

-- A mask of `k` ones keeps a number of `k` digits.
pub bit_and-ones : (k q : ℕ) → q < 2 ^ k → bit_and (2 ^ k - 1) q ≡ q
bit_and-ones zero q h = ground (arith, bit_and-common 0 q)
bit_and-ones (suc k) q h = ground (
  arith,
  bit_and-digit (2 ^ suc k - 1) q,
  pow-suc 2 k,
  one-le-pow k 2,
  bit_and-ones k (q / 2) (omega (arith, pow-suc 2 k)),
)

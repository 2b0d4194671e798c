-- ===== src/Print.antt =====
-- What the sources print by sprintf: "%d" and "%u" of 32-bit numbers, and "%08x".
use ccminer.Common.{
  ℕ, zero, suc, ◌+◌, ◌-◌, ◌*◌, ◌/◌, ◌%◌, ◌^◌, ◌≡◌, ◌<◌, ◌≤◌, length, ap, ◌∙◌, Bool-cases, inl, inr,
  ltb→lt, List, [], ◌∷◌, arith, ltb, if◌then◌else◌,
}
use ccminer.Common.Int.{ℤ, pos, negsuc}
use ccminer.Hex.{cbin2hex}
use native.Mathlib.Nat.{pow-suc}

-- The digits of a number, before those of `acc`; the first argument is the number of further digits
-- that may come.
unfoldable pub digits : ℕ → ℕ → List ℕ → List ℕ
digits zero n acc = (48 + n % 10) ∷ acc
digits (suc more) n acc =
    let rest = digits more (n / 10) ((48 + n % 10) ∷ acc) in
    if ltb n 10 then (48 + n % 10) ∷ acc else rest

-- "%u": ten digits are enough for 32 bits.
unfoldable pub print_unsigned : ℕ → List ℕ
unfolding digits
print_unsigned n = digits 9 n []

-- "%d"
unfoldable pub print_int : ℤ → List ℕ
unfolding print_unsigned
print_int (pos n) = print_unsigned n
print_int (negsuc n) = b'-' ∷ print_unsigned (suc n)

-- "%08x" of a 32-bit number.
unfoldable pub print_hex8 : ℕ → List ℕ
print_hex8 w = cbin2hex (w / 2 ^ 24 % 256 ∷ w / 2 ^ 16 % 256 ∷ w / 2 ^ 8 % 256 ∷ w % 256 ∷ [])

-- The number that decimal digits stand for.
pub value : ℕ → List ℕ → ℕ
value acc [] = acc
value acc (c ∷ s) = value (acc * 10 + (c - 48)) s

last_digit : (n : ℕ) → n < 10 → 0 + (48 + n % 10 - 48) ≡ n
last_digit n h = omega arith

next_digit : (n : ℕ) → n / 10 * 10 + (48 + n % 10 - 48) ≡ n
next_digit n = omega arith

fewer_digits : (n p : ℕ) → n < p * 10 → n / 10 < p
fewer_digits n p h = omega arith

value-digits :
    (more n : ℕ) (acc : List ℕ) → n < 10 ^ suc more → value 0 (digits more n acc) ≡ value n acc
unfolding value digits
value-digits zero n acc h = ap (λ x. value x acc) (last_digit n h)
value-digits (suc more) n acc h = elim (Bool-cases (ltb n 10)) [
  | inl small ↦ rw small (ap (λ x. value x acc) (last_digit n (ltb→lt n 10 small)))
  | inr large ↦ rw large (
      value-digits more (n / 10) ((48 + n % 10) ∷ acc)
        (fewer_digits n (10 ^ suc more) (rw (← pow-suc 10 (suc more)) h))
      ∙ ap (λ x. value x acc) (next_digit n))
]

-- Ten digits hold every number of 32 bits.
pub value-print_unsigned : (n : ℕ) → n < 2 ^ 32 → value 0 (print_unsigned n) ≡ n
unfolding value print_unsigned
value-print_unsigned n h = value-digits 9 n [] (omega arith)

length-digits : (more n : ℕ) (acc : List ℕ) → length (digits more n acc) ≤ suc more + length acc
unfolding digits
length-digits zero n acc = omega arith
length-digits (suc more) n acc = ground (arith, length-digits more (n / 10) ((48 + n % 10) ∷ acc))

pub length-print_int : (n : ℤ) → length (print_int n) ≤ 11
unfolding print_int print_unsigned
length-print_int (pos n) = omega (arith, length-digits 9 n [])
length-print_int (negsuc n) = omega (arith, length-digits 9 (suc n) [])

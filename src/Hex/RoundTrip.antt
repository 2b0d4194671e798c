-- ===== src/Hex/RoundTrip.antt =====
-- What hex2bin gives on the text of bin2hex and on any other text.
use ccminer.Common.{
  ℕ, zero, suc, ◌*◌, ◌/◌, ◌%◌, ◌-◌, ◌||◌, ltb, ◌≤◌, ◌<◌, ◌≡◌, refl, Bool, true, not, ◌&&◌, List, [],
  ◌∷◌, arith, ◌==◌, length,
}
use ccminer.Common.Table.{tested, tested_lem}
use ccminer.Cstring.{scan_number, end_of, digit_value}
use ccminer.Hex.{hex_digit, bin2hex, hex_byte, is_empty, hex2bin}

abbrev pub AreBytes : List ℕ → Type 0
AreBytes [] = Unit {0}
AreBytes (b ∷ bs) = (b < 256) × AreBytes bs

-- The text of one byte.
abbrev pair : ℕ → List ℕ
pair b = hex_digit (b / 16) ∷ hex_digit (b % 16) ∷ []

reads_back : ℕ → Bool
reads_back b =
    (hex_byte (scan_number 16 (pair b)) == b)
    && is_empty (end_of (pair b) (scan_number 16 (pair b)))

byte_table : tested 256 reads_back ≡ true
unfolding tested reads_back hex_digit hex_byte scan_number
byte_table = refl

reads_back_lem : (b : ℕ) → b < 256 → reads_back b ≡ true
reads_back_lem b h = tested_lem 256 reads_back b byte_table h

byte_reads :
    (b : ℕ)
    → b < 256
    → (hex_byte (scan_number 16 (pair b)) ≡ b)
      × (is_empty (end_of (pair b) (scan_number 16 (pair b))) ≡ true)
unfolding reads_back
byte_reads b h = ground (arith, reads_back_lem b h)

-- Printing bytes and reading the text back gives the bytes.
pub hex2bin-bin2hex : (bs : List ℕ) → AreBytes bs → hex2bin (bin2hex bs) (length bs) ≡ (bs, true)
unfolding hex2bin bin2hex
hex2bin-bin2hex [] h = refl
hex2bin-bin2hex (b ∷ bs) h =
    let (same, all) = byte_reads b h.0 in rw (all, same) (rw (hex2bin-bin2hex bs h.1))

-- No result writes past the output; success means that the output is filled and that the text
-- was read to its end.
pub hex2bin_bounds :
    (s : List ℕ) (len : ℕ)
    → (length (hex2bin s len).0 ≤ len)
      × ((hex2bin s len).1 ≡ true → (length (hex2bin s len).0 ≡ len) × (length s ≡ 2 * len))
unfolding hex2bin
hex2bin_bounds [] zero = ground arith
hex2bin_bounds (c ∷ s) zero = ground arith
hex2bin_bounds [] (suc len) = ground arith
hex2bin_bounds (c ∷ []) (suc len) = ground arith
hex2bin_bounds (c ∷ d ∷ s) (suc len) = ground (arith, hex2bin_bounds s len)

pub length-bin2hex : (bs : List ℕ) → length (bin2hex bs) ≡ 2 * length bs
unfolding bin2hex
length-bin2hex [] = refl
length-bin2hex (b ∷ bs) = omega (arith, length-bin2hex bs)

-- A conversion of a minus sign and a digit succeeds, with the byte that the negated digit wraps to.
signed_byte : ℕ → Bool
signed_byte d =
    let n = scan_number 16 (b'-' ∷ d ∷ []) in
    not (ltb (digit_value d) 16)
    || hex_byte n == (256 - digit_value d) % 256 && is_empty (end_of (b'-' ∷ d ∷ []) n)

signed_table : tested 256 signed_byte ≡ true
unfolding tested signed_byte hex_byte scan_number
signed_table = refl

-- A minus sign in front of a hexadecimal digit passes for two digits.
pub hex2bin_takes_sign :
    (d : ℕ)
    → d < 256
    → digit_value d < 16
    → hex2bin (b'-' ∷ d ∷ []) 1 ≡ ((256 - digit_value d) % 256 ∷ [], true)
unfolding hex2bin signed_byte
hex2bin_takes_sign d h digit = ground (arith, tested_lem 256 signed_byte d signed_table h)

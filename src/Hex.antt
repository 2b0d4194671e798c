-- ===== src/Hex.antt =====
-- util.cpp: cbin2hex, bin2hex and hex2bin. Bytes are numbers below 256; text is a list of bytes.
pub mod RoundTrip
mod Tests
use ccminer.Common.{
  ℕ, zero, suc, ◌+◌, ◌-◌, ◌/◌, ◌%◌, Bool, true, false, List, [], ◌∷◌, ltb, if◌then◌else◌,
}
use ccminer.Cstring.{Number, scan_number, end_of}

-- One digit of the format "%02x".
unfoldable pub hex_digit : ℕ → ℕ
hex_digit n = if ltb n 10 then 48 + n else 87 + n

-- The text that `sprintf` writes, two digits for a byte.
unfoldable pub cbin2hex : List ℕ → List ℕ
unfolding hex_digit
cbin2hex [] = []
cbin2hex (b ∷ bs) = hex_digit (b / 16) ∷ hex_digit (b % 16) ∷ cbin2hex bs

-- The text is closed by a NUL, which a list does not hold; `malloc` is taken to succeed.
unfoldable pub bin2hex : List ℕ → List ℕ
unfolding cbin2hex
bin2hex bs = cbin2hex bs

-- `(uchar) strtol(hex_byte, &ep, 16)` of two bytes of text.
unfoldable pub hex_byte : Number → ℕ
hex_byte n = if n.negative then (256 - n.value) % 256 else n.value % 256

abbrev pub is_empty : List ℕ → Bool
is_empty [] = true
is_empty (c ∷ s) = false

-- The bytes that are written to the output, in order, and the result. The byte is stored before
-- the test of `*ep`, so a failure has written it.
unfoldable pub hex2bin : List ℕ → ℕ → List ℕ × Bool
unfolding hex_byte scan_number
hex2bin s zero = ([], is_empty s)
hex2bin [] (suc len) = ([], false)
hex2bin (c ∷ []) (suc len) = ([], false)
hex2bin (c ∷ d ∷ s) (suc len) =
    let n = scan_number 16 (c ∷ d ∷ []) in
    let rest = hex2bin s len in
    if is_empty (end_of (c ∷ d ∷ []) n)
    then (hex_byte n ∷ rest.0, rest.1)
    else (hex_byte n ∷ [], false)

-- ===== src/Cstring.antt =====
-- The functions of the C library that the sources call on text: strcasecmp, strtol, strtoul and
-- atoi. A text is the list of its bytes, without the closing NUL.
use Prim.Native.Char.{code}
use Prim.Native.String.{String}
use ccminer.Common.{
  ℕ, ◌+◌, ◌-◌, ◌*◌, ◌%◌, ◌^◌, Bool, true, false, ◌&&◌, ◌||◌, List, [], ◌∷◌, ltb, leb, ◌==◌,
  if◌then◌else◌,
}
use ccminer.Common.Int.{ℤ, pos, neg}

-- The bytes of an ASCII literal.
abbrev pub codes : String → List ℕ
codes String.[] = []
codes (String.◌∷◌ c s) = code c ∷ codes s

unfoldable pub is_space : ℕ → Bool
is_space c = c == 32 || (leb 9 c && leb c 13)

unfoldable pub to_lower : ℕ → ℕ
to_lower c = if leb b'A' c && leb c b'Z' then c + 32 else c

-- `!strcasecmp(s, t)`
unfoldable pub case_eq : List ℕ → List ℕ → Bool
unfolding to_lower
case_eq [] [] = true
case_eq [] (d ∷ t) = false
case_eq (c ∷ s) [] = false
case_eq (c ∷ s) (d ∷ t) = to_lower c == to_lower d && case_eq s t

-- `!strcmp(s, t)`
unfoldable pub text_eq : List ℕ → List ℕ → Bool
text_eq [] [] = true
text_eq [] (d ∷ t) = false
text_eq (c ∷ s) [] = false
text_eq (c ∷ s) (d ∷ t) = c == d && text_eq s t

-- The value of a digit, and 99 for any other byte.
unfoldable pub digit_value : ℕ → ℕ
digit_value c =
    if leb b'0' c && leb c b'9'
    then c - 48
    else if leb b'a' c && leb c b'z'
    then c - 87
    else if leb b'A' c && leb c b'Z'
    then c - 55
    else 99

unfoldable pub skip_space : List ℕ → List ℕ
unfolding is_space
skip_space [] = []
skip_space (c ∷ s) = if is_space c then skip_space s else c ∷ s

-- What a conversion gives: the sign, the digits' value, what follows them, and whether there was
-- a digit.
pub record Number : Type 0 where
  pub negative : Bool
  pub value : ℕ
  pub rest : List ℕ
  pub found : Bool

unfoldable pub scan_digits : ℕ → Bool → ℕ → Bool → List ℕ → Number
unfolding digit_value
scan_digits base sign acc any [] = record { negative = sign; value = acc; rest = []; found = any }
scan_digits base sign acc any (c ∷ s) =
    let more = scan_digits base sign (acc * base + digit_value c) true s in
    if ltb (digit_value c) base
    then more
    else record { negative = sign; value = acc; rest = c ∷ s; found = any }

-- The prefix "0x" counts only where a hexadecimal digit follows it.
unfoldable pub scan_prefixed : ℕ → Bool → List ℕ → Number
unfolding scan_digits to_lower digit_value
scan_prefixed base sign (z ∷ x ∷ d ∷ s) =
    if base == 16 && z == b'0' && to_lower x == b'x' && ltb (digit_value d) 16
    then scan_digits base sign 0 false (d ∷ s)
    else scan_digits base sign 0 false (z ∷ x ∷ d ∷ s)
scan_prefixed base sign s = scan_digits base sign 0 false s

unfoldable pub scan_signed : ℕ → List ℕ → Number
unfolding scan_prefixed
scan_signed base (c ∷ s) =
    if c == b'-'
    then scan_prefixed base true s
    else if c == b'+'
    then scan_prefixed base false s
    else scan_prefixed base false (c ∷ s)
scan_signed base [] = scan_prefixed base false []

unfoldable pub scan_number : ℕ → List ℕ → Number
unfolding scan_signed skip_space
scan_number base s = scan_signed base (skip_space s)

-- Where a conversion of `s` stops: at `s` itself if there was no digit.
abbrev pub end_of : List ℕ → Number → List ℕ
end_of s n = if n.found then n.rest else s

-- `strtoul(s, &end, 16)` on a 64-bit long: it stops at ULONG_MAX, and a minus sign wraps.
unfoldable pub strtoul16 : List ℕ → ℕ
unfolding scan_number
strtoul16 s =
    let n = scan_number 16 s in
    if leb (2 ^ 64) n.value
    then 2 ^ 64 - 1
    else if n.negative
    then (2 ^ 64 - n.value) % 2 ^ 64
    else n.value

-- `atoi(s)` of a text whose number fits an int.
unfoldable pub atoi : List ℕ → ℤ
unfolding scan_number
atoi s = let n = scan_number 10 s in if n.negative then neg n.value else pos n.value

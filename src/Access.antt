-- ===== src/Access.antt =====
-- api.cpp: setup_ipaccess and check_connect, which decide who may use the API. A text is the list
-- of its bytes; an address is a number of 32 bits, its first octet the most significant. `calloc` is
-- taken to succeed.
pub mod Masks
pub mod Entries
mod Tests
use ccminer.Common.{
  ℕ, zero, suc, ◌+◌, ◌-◌, ◌*◌, ◌/◌, ◌%◌, ◌^◌, Bool, true, false, not, ◌&&◌, ◌||◌, Option, none,
  some, List, [], ◌∷◌, ltb, leb, ◌==◌, if◌then◌else◌, bit_and, bit_or, length,
}
use ccminer.Common.Int.{ℤ, pos, negsuc}
use ccminer.Cstring.{codes, text_eq, atoi}

-- `struct IP4ACCESS`
pub record Ip4Access : Type 0 where
  pub ip : ℕ
  pub mask : ℕ
  pub group : ℕ

-- 'R', 'W'
abbrev pub no_priv_group : ℕ
no_priv_group = 82

abbrev pub priv_group : ℕ
priv_group = 87

-- `toupper`
to_upper : ℕ → ℕ
to_upper c = if leb 97 c && leb c 122 then c - 32 else c

is_alpha : ℕ → Bool
unfolding to_upper
is_alpha c = leb 65 (to_upper c) && leb (to_upper c) 90

-- The text up to the first `c`, and what follows it: `strchr` and the NUL that is put there.
unfoldable pub split_char : ℕ → List ℕ → List ℕ × Option (List ℕ)
split_char c [] = ([], none)
split_char c (d ∷ s) =
    let (front, rest) = split_char c s in if d == c then ([], some s) else (d ∷ front, rest)

-- The rounds of the loop on `mask` that a prefix of `n` bits has, without its last round.
mask_rounds : ℕ → ℕ
mask_rounds zero = 0
mask_rounds (suc m) = bit_or (2 ^ (m % 8) * 2 ^ (24 - 8 * (m / 8)) % 2 ^ 32) (mask_rounds m)

-- The mask of a prefix of `n` bits. The last round shifts by -1, which the language leaves
-- undefined: `wild` is what it adds to the mask.
unfoldable pub mask_of : ℕ → ℕ → ℕ
unfolding mask_rounds
mask_of wild n = bit_or wild (mask_rounds n)

-- By the part after the slash: none where the entry is skipped.
mask_text : ℕ → Option (List ℕ) → Option ℕ
mask_text wild none = some (2 ^ 32 - 1)
mask_text wild (some text) = elim (atoi text) [
  | pos n ↦ if ltb n 1 || ltb 32 n then none else some (mask_of wild n)
  | negsuc n ↦ none
]

-- The loop on the octets: the rounds left, the round, and the text, which is none at the end.
octets : ℕ → ℕ → Option (List ℕ) → ℕ → Option ℕ
unfolding split_char
octets zero i ptr ip = some ip
octets (suc left) i none ip = some ip
octets (suc left) i (some text) ip =
    let (front, dot) = split_char 46 text in
    elim (atoi front) [
      | pos n ↦
          if ltb 255 n then none else octets left (i + 1) dot (bit_or ip (n * 2 ^ (24 - i * 8)))
      | negsuc n ↦ none
    ]

-- The group letter and the text behind it.
group_of : (ℕ → Bool) → List ℕ → ℕ × List ℕ
unfolding is_alpha to_upper
group_of defined (c ∷ (d ∷ s)) =
    if is_alpha c && (d == 58)
    then (
      (if to_upper c == priv_group || defined (to_upper c) then to_upper c else no_priv_group),
      s,
    )
    else (no_priv_group, c ∷ (d ∷ s))
group_of defined s = (no_priv_group, s)

-- The entry of a text between two commas; `defined` tells the groups that have commands.
unfoldable pub entry_of : ℕ → (ℕ → Bool) → List ℕ → Option Ip4Access
unfolding group_of split_char mask_text octets mask_of
entry_of wild defined text =
    let (group, ptr) = group_of defined text in
    if text_eq ptr (codes "0/0") || text_eq ptr (codes "0.0.0.0")
    then some (record { ip = 0; mask = 0; group = group })
    else (let (address, slash) = split_char 47 ptr in
        elim (mask_text wild slash) [
          | none ↦ none
          | some mask ↦ elim (octets 4 0 (some address) 0) [
            | none ↦ none
            | some ip ↦ some (record { ip = bit_and mask ip; mask = mask; group = group })
          ]
        ])

-- `while (*ptr == ' ' || *ptr == '\t') ptr++;`
unfoldable pub skip_blank : List ℕ → List ℕ
skip_blank [] = []
skip_blank (c ∷ s) = if c == 32 || c == 9 then skip_blank s else c ∷ s

unfoldable pub starts_with_comma : List ℕ → Bool
starts_with_comma [] = false
starts_with_comma (c ∷ s) = c == 44

-- The loop on the text: each round takes a byte at least, but for blanks at the end.
unfoldable pub entries : ℕ → (ℕ → Bool) → ℕ → Option (List ℕ) → List Ip4Access
entries wild defined zero ptr = []
entries wild defined (suc left) none = []
entries wild defined (suc left) (some []) = []
entries wild defined (suc left) (some (c ∷ s)) =
    let text = skip_blank (c ∷ s) in
    let (front, comma) = split_char 44 text in
    let rest = entries wild defined left comma in
    if starts_with_comma text
    then rest
    else elim (entry_of wild defined front) [ none ↦ rest | some e ↦ e ∷ rest ]

unfoldable pub setup_ipaccess : ℕ → (ℕ → Bool) → List ℕ → List Ip4Access
unfolding entries entry_of split_char skip_blank starts_with_comma
setup_ipaccess wild defined opt_api_allow =
    entries wild defined (length opt_api_allow + 1) (some opt_api_allow)

-- The loop of check_connect: the group of the first entry that the client meets.
unfoldable pub find_access : ℕ → List Ip4Access → Option ℕ
find_access client_ip [] = none
find_access client_ip (e ∷ rest) =
    let later = find_access client_ip rest in
    if bit_and e.mask client_ip == e.ip then some e.group else later

-- May the client connect, and its group. `address` is the client's address as inet_ntoa writes it.
unfoldable pub check_connect : Option (List Ip4Access) → List ℕ → ℕ → List ℕ → Bool × ℕ
unfolding find_access
check_connect (some ipaccess) opt_api_bind client_ip address =
    elim (find_access client_ip ipaccess) [ none ↦ (false, no_priv_group) | some g ↦ (true, g) ]
check_connect none opt_api_bind client_ip address =
    (text_eq opt_api_bind (codes "0.0.0.0") || text_eq address (codes "127.0.0.1"), no_priv_group)

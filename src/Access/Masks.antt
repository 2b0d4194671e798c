-- ===== src/Access/Masks.antt =====
-- api.cpp: the masks of setup_ipaccess, and whom an entry lets in.
use native.Mathlib.Nat.{div-lt_iff_lt-mul, div-add-mod', mod-lt, one-le-pow, mul-div_cancel}
use ccminer.Common.{
  ℕ, zero, suc, ◌+◌, ◌-◌, ◌*◌, ◌/◌, ◌%◌, ◌^◌, ◌≤◌, ◌<◌, ◌≡◌, ◌↔◌, ◌⊎◌, inl, inr, refl, sym, subst,
  ap, ◌∙◌, Bool, true, false, ◌&&◌, not, Option, none, some, List, [], ◌∷◌, map, arith, ◌==◌,
  ==_iff, Bool-cases, if◌then◌else◌, bit_and,
}
use ccminer.Common.Table.{tested, tested_lem}
use ccminer.Common.Bits.{bit_and-shift, bit_and-ones}
use ccminer.Access.{Ip4Access, mask_of, mask_rounds, find_access, check_connect, no_priv_group}

-- The mask that a prefix of `n` bits stands for: its `n` leading bits.
abbrev pub netmask : ℕ → ℕ
netmask n = 2 ^ 32 - 2 ^ (32 - n)

right : ℕ → ℕ → Bool
right wild n =
    if (n + 1) % 8 == 0
    then mask_of wild (n + 1) == netmask (n + 1)
    else not (mask_of wild (n + 1) == netmask (n + 1))

all_right : (tested 32 (right 0) ≡ true) × (tested 32 (right (2 ^ 31)) ≡ true)
unfolding tested right mask_of mask_rounds
all_right = (refl, refl)

wild_right : (wild : ℕ) → (wild ≡ 0) ⊎ (wild ≡ 2 ^ 31) → tested 32 (right wild) ≡ true
wild_right wild (inl nothing) = rw nothing (all_right.0)
wild_right wild (inr top) = rw top (all_right.1)

right_iff :
    (wild n : ℕ)
    → right wild n ≡ true
    → (mask_of wild (n + 1) ≡ netmask (n + 1)) ↔ ((n + 1) % 8 ≡ 0)
unfolding right
right_iff wild n h = (λ e. ground (arith, h, e), λ e. ground (arith, h, e))

-- Whether the last round's shift adds nothing or the highest bit, the mask of a prefix of 1 to 32
-- bits is the one that the prefix stands for exactly if the prefix is a number of whole octets.
pub mask_of_iff :
    (wild n : ℕ)
    → (wild ≡ 0) ⊎ (wild ≡ 2 ^ 31)
    → 1 ≤ n
    → n ≤ 32
    → (mask_of wild n ≡ netmask n) ↔ (n % 8 ≡ 0)
mask_of_iff wild zero h from to = absurd (omega arith)
mask_of_iff wild (suc n) h from to =
    subst (λ m. (mask_of wild m ≡ netmask m) ↔ (m % 8 ≡ 0)) (omega arith)
      (right_iff wild n (tested_lem 32 (right wild) n (wild_right wild h) (omega arith)))

-- The addresses whose first `bits` bits are those of `address`.
pub record Net : Type 0 where
  pub address : ℕ
  pub bits : ℕ
  pub group : ℕ

abbrev pub IsNet : Net → Type 0
IsNet net = (net.bits ≤ 32) × (net.address < 2 ^ 32)

abbrev pub AreNets : List Net → Type 0
AreNets [] = Unit
AreNets (net ∷ nets) = IsNet net × AreNets nets

-- The entry that setup_ipaccess makes of it, where the mask is right.
abbrev pub entry_for : Net → Ip4Access
entry_for net = record {
  ip = bit_and (netmask net.bits) net.address;
  mask = netmask net.bits;
  group = net.group;
}

abbrev pub leading : ℕ → ℕ → ℕ
leading bits address = address / 2 ^ (32 - bits)

split : ℕ → Bool
split n = (2 ^ n * 2 ^ (32 - n) == 2 ^ 32) && (netmask n == (2 ^ n - 1) * 2 ^ (32 - n))

split_lem :
    (n : ℕ) → n ≤ 32 → (2 ^ n * 2 ^ (32 - n) ≡ 2 ^ 32) × (netmask n ≡ (2 ^ n - 1) * 2 ^ (32 - n))
unfolding split tested
split_lem n small =
    let h : split n ≡ true = tested_lem 33 split n refl (omega arith) in
    (ground (arith, h), ground (arith, h))

-- The mask of a prefix keeps the leading bits and clears the others.
masked : (n a : ℕ) → n ≤ 32 → a < 2 ^ 32 → bit_and (netmask n) a ≡ leading n a * 2 ^ (32 - n)
masked n a small word =
    let (whole, ones) = split_lem n small in
    let some_bit : 0 < 2 ^ (32 - n) = one-le-pow (32 - n) 2 (omega arith) in
    let few : leading n a < 2 ^ n = (div-lt_iff_lt-mul some_bit).1 (rw whole word) in
    let parts : leading n a * 2 ^ (32 - n) + a % 2 ^ (32 - n) ≡ a = div-add-mod' a (2 ^ (32 - n)) in
    rw ones (
      ap (bit_and ((2 ^ n - 1) * 2 ^ (32 - n))) (sym parts)
      ∙ bit_and-shift (32 - n) (2 ^ n - 1) (leading n a) (a % 2 ^ (32 - n)) (mod-lt a some_bit)
      ∙ ap (λ q. q * 2 ^ (32 - n)) (bit_and-ones n (leading n a) few))

-- The group of the first net that the client is in.
pub first_net : ℕ → List Net → Option ℕ
first_net client [] = none
first_net client (net ∷ nets) =
    let later = first_net client nets in
    if leading net.bits client == leading net.bits net.address then some net.group else later

same_multiple : (x y p : ℕ) → 0 < p → (x * p == y * p) ≡ (x == y)
same_multiple x y p some_unit = elim (Bool-cases (x == y)) [
  | inl same ↦
      rw same (let e = (==_iff x y).0 same in (==_iff (x * p) (y * p)).1 (ap (λ n. n * p) e))
  | inr apart ↦ rw apart (elim (Bool-cases (x * p == y * p)) [
    | inl multiple ↦
        let e = (==_iff (x * p) (y * p)).0 multiple in
        let f : x ≡ y =
          sym (mul-div_cancel x some_unit) ∙ ap (λ n. n / p) e ∙ mul-div_cancel y some_unit in
        multiple ∙ sym ((==_iff x y).1 f) ∙ apart
    | inr other ↦ other
  ])
]

-- An entry takes the client exactly if the leading bits agree.
meets_lem :
    (net : Net) (client : ℕ)
    → IsNet net
    → client < 2 ^ 32
    → (bit_and (entry_for net).mask client == (entry_for net).ip)
      ≡ (leading net.bits client == leading net.bits net.address)
meets_lem net client (small, word) fits =
    let mine = masked net.bits client small fits in
    let theirs = masked net.bits net.address small word in
    let some_bit : 0 < 2 ^ (32 - net.bits) = one-le-pow (32 - net.bits) 2 (omega arith) in
    rw (mine, theirs) (same_multiple _ _ _ some_bit)

find_access_lem :
    (client : ℕ) (nets : List Net)
    → AreNets nets
    → client < 2 ^ 32
    → find_access client (map entry_for nets) ≡ first_net client nets
unfolding find_access first_net
find_access_lem client [] h fits = refl
find_access_lem client (net ∷ nets) h fits =
    rw (meets_lem net client h.0 fits, find_access_lem client nets h.1 fits) refl

abbrev pub admitted : Option ℕ → Bool × ℕ
admitted none = (false, no_priv_group)
admitted (some group) = (true, group)

-- Where the access list stands for nets, the client may connect exactly if it is in one of them, and
-- it has the group of the first.
pub check_connect_lem :
    (nets : List Net) (opt_api_bind : List ℕ) (client_ip : ℕ) (address : List ℕ)
    → AreNets nets
    → client_ip < 2 ^ 32
    → check_connect (some (map entry_for nets)) opt_api_bind client_ip address
      ≡ admitted (first_net client_ip nets)
unfolding check_connect
check_connect_lem nets opt_api_bind client_ip address h fits =
    ap admitted (find_access_lem client_ip nets h fits)

-- ===== src/Stratum/Extranonce.antt =====
-- The sizes of the two parts of the nonce.
use ccminer.Common.{
  ℕ, ◌+◌, ◌-◌, ◌/◌, ◌≤◌, ◌≡◌, refl, Bool, true, false, List, arith, ◌⊎◌, inl, inr, length,
  length-replicate, ◌∙◌, replicate, Option-cases, Bool-cases,
}
use ccminer.Common.Int.{ℤ, pos, negsuc, eq_int, cast_int}
use ccminer.Common.Memory.{length-overlay}
use ccminer.Hex.{hex2bin}
use ccminer.Stratum.{
  Stratum, Json, string_at, integer_at, stratum_parse_extranonce, extranonce_of, open_size,
  given_size, set_extranonce,
}

-- What an accepted extranonce leaves: the first part fills its buffer, and the second part has the
-- size that the pool gave, from 2 to 16, or what is left of 32 bytes by a first part of 3 to 12.
pub record IsSized (s : Stratum) : Type 0 where
  pub first : length s.xnonce1 ≡ s.xnonce1_size
  pub second :
      ((2 ≤ s.xnonce2_size) × (s.xnonce2_size ≤ 16))
      ⊎ ((s.xnonce1_size + s.xnonce2_size ≡ 32) × (3 ≤ s.xnonce1_size) × (s.xnonce1_size ≤ 12))

unfoldable pub Checked : Stratum → Stratum × Bool → Type 0
Checked s (t, true) = IsSized t
Checked s (t, false) = t ≡ s

length-set_extranonce :
    (x : List ℕ) (n : ℕ) (s : Stratum) → length (set_extranonce x n s).xnonce1 ≡ length x / 2
unfolding set_extranonce
length-set_extranonce x n s =
    length-overlay (hex2bin x (length x / 2)).0 (replicate (length x / 2) 0)
    ∙ length-replicate (length x / 2) 0

open_size-Checked : (algo x : List ℕ) (s : Stratum) → Checked s (open_size algo x s)
unfolding open_size Checked
open_size-Checked algo x s = ground (arith, length-set_extranonce x (32 - length x / 2) s)

given_size-Checked : (n : ℤ) (x : List ℕ) (s : Stratum) → Checked s (given_size n x s)
unfolding given_size Checked
given_size-Checked (pos n) x s = ground (arith, length-set_extranonce x n s)
given_size-Checked (negsuc n) x s = refl

-- Every extranonce that is accepted has such sizes; one that is refused changes nothing.
pub parse_extranonce-Checked :
    (algo : List ℕ) (params : List Json) (pndx : ℕ) (s : Stratum)
    → Checked s (stratum_parse_extranonce algo params pndx s)
unfolding stratum_parse_extranonce Checked
parse_extranonce-Checked algo params pndx s = elim (Option-cases (string_at params pndx)) [
  | inl missing ↦ rw (missing, extranonce_of) refl
  | inr (x, e) ↦
      rw (e, extranonce_of)
        (elim (Bool-cases (eq_int (cast_int (integer_at params (pndx + 1))) (pos 0))) [
          | inl unset ↦ rw unset (open_size-Checked algo x s)
          | inr given ↦ rw given (given_size-Checked (cast_int (integer_at params (pndx + 1))) x s)
        ])
]

Checked-IsSized : (s : Stratum) (r : Stratum × Bool) → Checked s r → IsSized s → IsSized r.0
unfolding Checked
Checked-IsSized s (t, true) k h = k
Checked-IsSized s (t, false) k h = rw k h

pub parse_extranonce-IsSized :
    (algo : List ℕ) (params : List Json) (pndx : ℕ) (s : Stratum)
    → IsSized s
    → IsSized (stratum_parse_extranonce algo params pndx s).0
parse_extranonce-IsSized algo params pndx s h =
    Checked-IsSized s _ (parse_extranonce-Checked algo params pndx s) h

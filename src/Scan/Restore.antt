-- ===== src/Scan/Restore.antt =====
-- verus/verusscan.cpp: RestoreKey of the ARM build puts the pristine key back.
use ccminer.Common.{
  ℕ, zero, suc, ◌+◌, ◌-◌, ◌/◌, ◌^◌, ◌≤◌, ◌<◌, ◌≡◌, sym, ap, ◌∙◌, fun_ext, ◌⊎◌, inl, inr, true,
  Bool-cases, ◌==◌, ==_iff, arith, bit_and,
}
use ccminer.Bench.{update}
use ccminer.Scan.{Key, restore_from, restore_key}

-- The two places of round `r`.
abbrev pub first_place : (ℕ → ℕ) → ℕ → ℕ
first_place touched r = bit_and (touched r) (2 ^ 16 - 1)

abbrev pub second_place : (ℕ → ℕ) → ℕ → ℕ
second_place touched r = touched r / 2 ^ 16

-- A place holds what it held in the pristine key, or one of `left` rounds from `i` on has noted it.
abbrev pub Noted : (ℕ → ℕ) → Key → ℕ → ℕ → Key → ℕ → Type 0
Noted touched pristine i left key j =
    (key j ≡ pristine j)
    ⊎ ((r : ℕ) × (i ≤ r)
        × (r < i + left)
        × ((j ≡ first_place touched r) ⊎ (j ≡ second_place touched r)))

-- Writing pristine values keeps a pristine place, and makes one of each place written.
kept_place :
    (pristine key : Key) (a j : ℕ) → key j ≡ pristine j → update key a (pristine a) j ≡ pristine j
kept_place pristine key a j h = elim (Bool-cases (j == a)) [
  | inl here ↦ rw here (ap pristine (sym ((==_iff j a).0 here)))
  | inr off ↦ rw off h
]

written_place : (pristine key : Key) (a j : ℕ) → j ≡ a → update key a (pristine a) j ≡ pristine j
written_place pristine key a j e =
    let here : (j == a) ≡ true = (==_iff j a).1 e in rw here (ap pristine (sym e))

restore_from-Noted :
    (touched : ℕ → ℕ) (pristine : Key) (left i : ℕ) (key : Key)
    → ((j : ℕ) → Noted touched pristine i left key j)
    → (j : ℕ) → restore_from touched pristine left i key j ≡ pristine j
unfolding restore_from
restore_from-Noted touched pristine zero i key noted =
    λ j. elim (noted j) [ inl same ↦ same | inr (r, from, to, at) ↦ absurd (omega arith) ]
restore_from-Noted touched pristine (suc left) i key noted =
    let a = first_place touched i in
    let b = second_place touched i in
    let once : Key = update key a (pristine a) in
    restore_from-Noted touched pristine left (i + 1) (update once b (pristine b)) (λ j.
      elim (noted j) [
        | inl same ↦ inl (kept_place pristine once b j (kept_place pristine key a j same))
        | inr (r, from, to, at) ↦ elim (Bool-cases (r == i)) [
          | inl now ↦ inl (elim at [
            | inl e ↦
                kept_place pristine once b j (
                  written_place pristine key a j
                    (e ∙ ap (first_place touched) ((==_iff r i).0 now)))
            | inr e ↦
                written_place pristine once b j (e ∙ ap (second_place touched) ((==_iff r i).0 now))
          ])
          | inr later ↦ inr (r, ground arith, omega arith, at)
        ]
      ])

-- If every place of a key holds what it holds in the pristine key, or is noted in one of the 32
-- rounds, RestoreKey gives the pristine key.
pub restore_key-Noted :
    (touched : ℕ → ℕ) (pristine key : Key)
    → ((j : ℕ) → Noted touched pristine 0 32 key j)
    → restore_key touched key pristine ≡ pristine
unfolding restore_key
restore_key-Noted touched pristine key noted =
    fun_ext (restore_from-Noted touched pristine 32 0 key noted)

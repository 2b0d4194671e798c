-- ===== src/Access/Entries.antt =====
-- api.cpp: the loop of setup_ipaccess on the text ends.
use native.Mathlib.Nat.{zero-add, suc-add}
use ccminer.Common.{
  ℕ, zero, suc, ◌+◌, ◌≤◌, ◌≡◌, refl, ap, ◌∙◌, Bool, ◌||◌, Bool-cases, inl, inr, Option, none, some,
  List, [], ◌∷◌, arith, ◌==◌, if◌then◌else◌, length,
}
use ccminer.Access.{Ip4Access, split_char, skip_blank, starts_with_comma, entry_of, entries}

-- The bytes that are left, with one more for a text that may be empty.
abbrev pub size : Option (List ℕ) → ℕ
size none = 0
size (some s) = length s + 1

split_char-size : (c : ℕ) (s : List ℕ) → size (split_char c s).1 ≤ length s
unfolding split_char
split_char-size c [] = omega arith
split_char-size c (d ∷ s) = elim (Bool-cases (d == c)) [
  | inl found ↦ rw found (omega arith)
  | inr other ↦ rw other (omega (arith, split_char-size c s))
]

length-skip_blank : (s : List ℕ) → length (skip_blank s) ≤ length s
unfolding skip_blank
length-skip_blank [] = omega arith
length-skip_blank (c ∷ s) = elim (Bool-cases ((c == 32) || (c == 9))) [
  | inl blank ↦ rw blank (omega (arith, length-skip_blank s))
  | inr other ↦ rw other (omega arith)
]

-- More rounds than the text has bytes change nothing.
entries_enough :
    (wild : ℕ) (defined : ℕ → Bool) (left : ℕ) (ptr : Option (List ℕ))
    → size ptr ≤ left
    → entries wild defined (suc left) ptr ≡ entries wild defined left ptr
unfolding entries
entries_enough wild defined zero none h = refl
entries_enough wild defined zero (some s) h = absurd (omega arith)
entries_enough wild defined (suc left) none h = refl
entries_enough wild defined (suc left) (some []) h = refl
entries_enough wild defined (suc left) (some (c ∷ s)) h =
    let text = skip_blank (c ∷ s) in
    let shorter = length-skip_blank (c ∷ s) in
    let behind = split_char-size 44 text in
    ap
      (λ rest.
        if starts_with_comma text
        then rest
        else elim (entry_of wild defined (split_char 44 text).0) as (λ _. List Ip4Access) [
          | none ↦ rest
          | some e ↦ e ∷ rest
        ])
      (entries_enough wild defined left (split_char 44 text).1 (omega (arith, shorter, behind)))

-- Rounds enough for the bytes of the text read all of it: more rounds give no other entries.
pub entries_all :
    (wild : ℕ) (defined : ℕ → Bool) (more left : ℕ) (ptr : Option (List ℕ))
    → size ptr ≤ left
    → entries wild defined (more + left) ptr ≡ entries wild defined left ptr
entries_all wild defined zero left ptr h = rw zero-add refl
entries_all wild defined (suc more) left ptr h = rw suc-add (
    entries_enough wild defined (more + left) ptr (omega arith)
    ∙ entries_all wild defined more left ptr h)

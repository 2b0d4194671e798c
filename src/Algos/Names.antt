-- ===== src/Algos/Names.antt =====
-- The names of the algorithms are read back, in any case of their letters.
use ccminer.Common.{
  ℕ, zero, suc, ◌+◌, ◌≤◌, ◌<◌, ◌≡◌, refl, map, false, inl, inr, Bool-cases, List, [], ◌∷◌, arith,
  ◌==◌, get_or,
}
use ccminer.Common.Int.{ℤ, pos, negsuc}
use ccminer.Cstring.{case_eq, to_lower}
use ccminer.Algos.{
  ShaAlgos, algo_count, to_int, algo_names, find_name, find_alias, aliases, algo_to_int,
}

-- The comparison sees the lower case of both texts.
case_eq-lower_left : (s t u : List ℕ) → map to_lower s ≡ map to_lower t → case_eq s u ≡ case_eq t u
unfolding case_eq
case_eq-lower_left [] [] u h = refl
case_eq-lower_left [] (d ∷ t) u h = cc
case_eq-lower_left (c ∷ s) [] u h = cc
case_eq-lower_left (c ∷ s) (d ∷ t) [] h = refl
case_eq-lower_left (c ∷ s) (d ∷ t) (e ∷ u) h = ground (arith, case_eq-lower_left s t u)

case_eq-lower_right : (s t u : List ℕ) → map to_lower s ≡ map to_lower t → case_eq u s ≡ case_eq u t
unfolding case_eq
case_eq-lower_right [] [] u h = refl
case_eq-lower_right [] (d ∷ t) u h = cc
case_eq-lower_right (c ∷ s) [] u h = cc
case_eq-lower_right (c ∷ s) (d ∷ t) [] h = refl
case_eq-lower_right (c ∷ s) (d ∷ t) (e ∷ u) h = ground (arith, case_eq-lower_right s t u)

find_name-lower :
    (s t : List ℕ) (left i : ℕ) (names : List (List ℕ))
    → map to_lower s ≡ map to_lower t
    → find_name s left i names ≡ find_name t left i names
unfolding find_name
find_name-lower s t zero i names h = refl
find_name-lower s t (suc left) i [] h = refl
find_name-lower s t (suc left) i (name ∷ names) h =
    ground (arith, case_eq-lower_left s t name h, find_name-lower s t left (i + 1) names h)

find_alias-lower :
    (s t : List ℕ) (rest : List (List ℕ × ℤ))
    → map to_lower s ≡ map to_lower t
    → find_alias s rest ≡ find_alias t rest
unfolding find_alias
find_alias-lower s t [] h = refl
find_alias-lower s t ((name, i) ∷ rest) h =
    ground (arith, case_eq-lower_right s t name h, find_alias-lower s t rest h)

algo_to_int-lower : (s t : List ℕ) → map to_lower s ≡ map to_lower t → algo_to_int s ≡ algo_to_int t
unfolding algo_to_int
algo_to_int-lower s t h =
    rw (find_name-lower s t algo_count 0 algo_names h, find_alias-lower s t aliases h)

algo_to_int-own : (a : ShaAlgos) → algo_to_int (get_or algo_names (to_int a) []) ≡ pos (to_int a)
unfolding algo_to_int case_eq
algo_to_int-own ShaAlgos.blakecoin = refl
algo_to_int-own _ = refl

-- The name of an algorithm, in any mix of capitals, is read as that algorithm.
pub algo_to_int-names :
    (a : ShaAlgos) (arg : List ℕ)
    → map to_lower arg ≡ map to_lower (get_or algo_names (to_int a) [])
    → algo_to_int arg ≡ pos (to_int a)
algo_to_int-names a arg h = rw (algo_to_int-lower arg _ h) (algo_to_int-own a)

-- A number of an algorithm, or -1.
abbrev pub IsAlgo : ℤ → Type 0
IsAlgo (pos n) = n < algo_count
IsAlgo (negsuc n) = n ≡ 0

abbrev AreAlgos : List (List ℕ × ℤ) → Type 0
AreAlgos [] = Unit {0}
AreAlgos ((name, i) ∷ rest) = IsAlgo i × AreAlgos rest

find_alias-IsAlgo :
    (arg : List ℕ) (rest : List (List ℕ × ℤ)) → AreAlgos rest → IsAlgo (find_alias arg rest)
unfolding find_alias
find_alias-IsAlgo arg [] h = refl
find_alias-IsAlgo arg ((name, i) ∷ rest) h = elim (Bool-cases (case_eq name arg)) [
  | inl hit ↦ rw hit h.0
  | inr miss ↦ rw miss (find_alias-IsAlgo arg rest h.1)
]

aliases-AreAlgos : AreAlgos aliases
aliases-AreAlgos = omega arith

find_name-le :
    (arg : List ℕ) (left i : ℕ) (names : List (List ℕ)) → find_name arg left i names ≤ i + left
unfolding find_name
find_name-le arg zero i names = omega arith
find_name-le arg (suc left) i [] = omega arith
find_name-le arg (suc left) i (name ∷ names) = ground (arith, find_name-le arg left (i + 1) names)

lt_of_ne : (n m : ℕ) → n ≤ 0 + m → (n == m) ≡ false → n < m
lt_of_ne n m h e = ground arith

-- Whatever the text, the result is -1 or the number of an algorithm.
pub algo_to_int-IsAlgo : (arg : List ℕ) → IsAlgo (algo_to_int arg)
unfolding algo_to_int
algo_to_int-IsAlgo arg = elim (Bool-cases (find_name arg algo_count 0 algo_names == algo_count)) [
  | inl missing ↦ rw missing (find_alias-IsAlgo arg aliases aliases-AreAlgos)
  | inr found ↦ rw found (lt_of_ne _ _ (find_name-le arg algo_count 0 algo_names) found)
]

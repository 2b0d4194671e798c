-- ===== src/Common/Slices.antt =====
-- The front of a list and the rest.
use native.Mathlib.Nat.{zero-add, suc-add}
use ccminer.Common.{
  ℕ, zero, suc, ◌+◌, ◌≤◌, ◌≡◌, refl, ap, List, [], ◌∷◌, ◌++◌, arith, length, take, drop,
}

module _ {ℓ} {A : Type ℓ} where
  pub take-all : (n : ℕ) (xs : List A) → length xs ≤ n → take n xs ≡ xs
  take-all zero [] h = refl
  take-all zero (x ∷ xs) h = absurd (omega arith)
  take-all (suc n) [] h = refl
  take-all (suc n) (x ∷ xs) h = ap (◌∷◌ x) (take-all n xs (omega arith))

  pub drop-all : (n : ℕ) (xs : List A) → length xs ≤ n → drop n xs ≡ []
  drop-all zero [] h = refl
  drop-all zero (x ∷ xs) h = absurd (omega arith)
  drop-all (suc n) [] h = refl
  drop-all (suc n) (x ∷ xs) h = drop-all n xs (omega arith)

  pub take-add : (a b : ℕ) (xs : List A) → take (a + b) xs ≡ take a xs ++ take b (drop a xs)
  take-add zero b xs = rw zero-add refl
  take-add (suc a) zero [] = rw suc-add refl
  take-add (suc a) (suc b) [] = rw suc-add refl
  take-add (suc a) b (x ∷ xs) = rw suc-add (ap (◌∷◌ x) (take-add a b xs))

  pub drop-add : (a b : ℕ) (xs : List A) → drop (a + b) xs ≡ drop b (drop a xs)
  drop-add zero b xs = rw zero-add refl
  drop-add (suc a) zero [] = rw suc-add refl
  drop-add (suc a) (suc b) [] = rw suc-add refl
  drop-add (suc a) b (x ∷ xs) = rw suc-add (drop-add a b xs)

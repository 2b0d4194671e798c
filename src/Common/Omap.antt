-- ===== src/Common/Omap.antt =====
-- std::map<uint64_t, V>: a list of entries, which the operations keep by rising key.
use ccminer.Common.{
  ℕ, suc, ◌≤◌, ◌<◌, ◌≡◌, refl, Bool, Option, none, some, List, [], ◌∷◌, arith, ltb, ◌==◌,
  if◌then◌else◌,
}

abbrev pub Map {ℓ} : Type ℓ → Type ℓ
Map V = List (ℕ × V)

module _ {ℓ} {V : Type ℓ} where
  unfoldable pub find : ℕ → Map V → Option V
  find k [] = none
  find k ((j, v) ∷ m) = if k == j then some v else find k m

  -- `m[k] = v`
  unfoldable pub insert : ℕ → V → Map V → Map V
  insert k v [] = (k, v) ∷ []
  insert k v ((j, w) ∷ m) =
      if k == j then (k, v) ∷ m else if ltb k j then (k, v) ∷ (j, w) ∷ m else (j, w) ∷ insert k v m

  -- A pass that erases the entries which fail a test.
  unfoldable pub retain : (ℕ → V → Bool) → Map V → Map V
  retain keep [] = []
  retain keep ((k, v) ∷ m) = if keep k v then (k, v) ∷ retain keep m else retain keep m

  -- The keys rise, from `lo` on.
  abbrev pub Rising : ℕ → Map V → Type 0
  Rising lo [] = Unit {0}
  Rising lo ((k, v) ∷ m) = (lo ≤ k) × Rising (suc k) m

  pub find-insert :
      (j k : ℕ) (v : V) (m : Map V) → find j (insert k v m) ≡ (if j == k then some v else find j m)
  unfolding find insert
  find-insert j k v [] = refl
  find-insert j k v ((i, w) ∷ m) = ground (arith, find-insert j k v m)

  Rising-weaken : (lo hi : ℕ) (m : Map V) → lo ≤ hi → Rising hi m → Rising lo m
  Rising-weaken lo hi [] h r = tt
  Rising-weaken lo hi ((k, v) ∷ m) h r = (omega arith, r.1)

  pub insert-Rising :
      (lo k : ℕ) (v : V) (m : Map V) → lo ≤ k → Rising lo m → Rising lo (insert k v m)
  unfolding insert
  insert-Rising lo k v [] h r = (h, tt)
  insert-Rising lo k v ((j, w) ∷ m) h r = ground (arith, insert-Rising (suc j) k v m)

  pub retain-Rising :
      (lo : ℕ) (keep : ℕ → V → Bool) (m : Map V) → Rising lo m → Rising lo (retain keep m)
  unfolding retain
  retain-Rising lo keep [] r = tt
  retain-Rising lo keep ((k, v) ∷ m) r =
      ground (arith, retain-Rising (suc k) keep m r.1, Rising-weaken lo (suc k) (retain keep m))

  pub find_below : (k lo : ℕ) (m : Map V) → Rising lo m → k < lo → find k m ≡ none
  unfolding find
  find_below k lo [] r h = refl
  find_below k lo ((j, v) ∷ m) r h = ground (arith, find_below k (suc j) m r.1)

  -- What is left under a key.
  abbrev pub kept : (ℕ → V → Bool) → ℕ → Option V → Option V
  kept keep k none = none
  kept keep k (some v) = if keep k v then some v else none

  pub find-retain :
      (k lo : ℕ) (keep : ℕ → V → Bool) (m : Map V)
      → Rising lo m
      → find k (retain keep m) ≡ kept keep k (find k m)
  unfolding find retain
  find-retain k lo keep [] r = refl
  find-retain k lo keep ((j, v) ∷ m) r = ground (
    arith,
    find-retain k (suc j) keep m r.1,
    find_below k (suc j) m r.1,
    find_below k (suc j) (retain keep m) (retain-Rising (suc j) keep m r.1),
  )

  pub find-insert_self : (k : ℕ) (v : V) (m : Map V) → find k (insert k v m) ≡ some v
  find-insert_self k v m = ground (arith, find-insert k k v m)

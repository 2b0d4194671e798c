-- ===== src/Stratum/Verus/Nonce.antt =====
-- The messages of a Verus pool leave the extranonce alone.
use ccminer.Common.{
  ℕ, ◌≡◌, refl, Bool, Option, none, some, List, [], ◌∷◌, ltb, get_elem?, Bool-cases, inl, inr,
}
use ccminer.Float.{Arith}
use ccminer.Stratum.{stratum_set_difficulty, number_at, Stratum, Json, string_at, true_at}
use ccminer.Stratum.Verus.{
  Fields, Filled, set_start, exponent_of, with_result, set_target_text, target_of,
  verus_stratum_set_target, notify_fields, notify_job, notify_checked, verus_stratum_notify,
}

pub record SameNonce (s t : Stratum) : Type 0 where
  pub first : t.xnonce1 ≡ s.xnonce1
  pub first_size : t.xnonce1_size ≡ s.xnonce1_size
  pub second_size : t.xnonce2_size ≡ s.xnonce2_size

unfoldable pub Leaves : Stratum → Option (Stratum × Bool) → Type 0
Leaves s none = Unit {0}
Leaves s (some (t, r)) = SameNonce s t

pub same_nonce : (s : Stratum) → SameNonce s s
same_nonce s = record { first = refl; first_size = refl; second_size = refl }

module _ (s : Stratum) where
  job-Leaves :
      (now : ℕ) (stack : List ℕ) (fresh : ℕ → ℕ) (clean : Bool) (f : Fields)
      (solution : Option (List ℕ))
      → Leaves s (notify_job now stack fresh clean s f solution)
  unfolding notify_job Leaves
  job-Leaves now stack fresh clean f none = tt
  job-Leaves now stack fresh clean f (some hex) = record {
    first = refl;
    first_size = refl;
    second_size = refl;
  }

  checked-Leaves :
      (now : ℕ) (stack : List ℕ) (fresh : ℕ → ℕ) (params : List Json) (f : Option Fields)
      → Leaves s (notify_checked now stack fresh params s f)
  unfolding notify_checked Leaves
  checked-Leaves now stack fresh params none = same_nonce s
  checked-Leaves now stack fresh params (some f) =
      job-Leaves now stack fresh (true_at params 7) f (string_at params 8)

  pub verus_notify-Leaves :
      (now : ℕ) (stack : List ℕ) (fresh : ℕ → ℕ) (params : List Json)
      → Leaves s (verus_stratum_notify now stack fresh params s)
  unfolding verus_stratum_notify
  verus_notify-Leaves now stack fresh params =
      checked-Leaves now stack fresh params (notify_fields params)

  start-Leaves :
      (fp : Arith) (junk : ℕ) (t : Filled) (start : Option ℕ)
      → Leaves s (with_result (set_start fp junk t start s))
  unfolding set_start Leaves
  start-Leaves fp junk t none = tt
  start-Leaves fp junk t (some start) = elim (Bool-cases (ltb (exponent_of start) 3)) [
    | inl e ↦ rw e tt
    | inr e ↦ rw e (record { first = refl; first_size = refl; second_size = refl })
  ]

  target-Leaves :
      (fp : Arith) (junk : ℕ) (stack : List ℕ) (hex : Option (List ℕ))
      → Leaves s (target_of fp junk stack hex s)
  unfolding target_of set_target_text Leaves
  target-Leaves fp junk stack none = same_nonce s
  target-Leaves fp junk stack (some []) = same_nonce s
  target-Leaves fp junk stack (some (c ∷ hex)) = start-Leaves fp junk _ _

  pub set_target-Leaves :
      (fp : Arith) (junk : ℕ) (stack : List ℕ) (params : List Json)
      → Leaves s (verus_stratum_set_target fp junk stack params s)
  unfolding verus_stratum_set_target
  set_target-Leaves fp junk stack params = target-Leaves fp junk stack (string_at params 0)

  pub set_difficulty-SameNonce :
      (fp : Arith) (params : List Json) → SameNonce s (stratum_set_difficulty fp params s).0
  unfolding stratum_set_difficulty
  set_difficulty-SameNonce fp params =
      elim (Bool-cases (fp.le (number_at fp (get_elem? params 0)) (fp.of_int 0))) [
        | inl e ↦ rw e (same_nonce s)
        | inr e ↦ rw e (record { first = refl; first_size = refl; second_size = refl })
      ]

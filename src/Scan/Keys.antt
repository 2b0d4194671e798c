-- ===== src/Scan/Keys.antt =====
-- verus/verusscan.cpp: the key that a hash has written to is put back.
use ccminer.Common.{
  ℕ, suc, ◌≡◌, ◌≢◌, refl, sym, ap, ◌∙◌, fun_ext, Bool-cases, inl, inr, ◌==◌, ==_iff, arith,
}
use ccminer.Bench.{update}
use ccminer.Scan.{Key, ClHash, fix_from, fix_key}

-- Each of the first `n` rounds has noted its two places and what they held, and has written to no
-- other place: the first key has become the second.
pub data Logged (r : ClHash) : ℕ → Key → Key → Type 0 where
  start : (key : Key) → Logged r 0 key key
  round :
      {n : ℕ} {key before after : Key}
      → Logged r n key before
      → r.g_prand n ≡ before (r.fixrand n)
      → r.g_prandex n ≡ before (r.fixrandex n)
      → ((j : ℕ) → j ≢ r.fixrand n → j ≢ r.fixrandex n → after j ≡ before j)
      → Logged r (suc n) key after

-- The two places of a round are put back.
undo :
    (before after : Key) (a b u v : ℕ)
    → u ≡ before a
    → v ≡ before b
    → ((j : ℕ) → j ≢ a → j ≢ b → after j ≡ before j)
    → update (update after b v) a u ≡ before
undo before after a b u v hu hv away = fun_ext (λ j. elim (Bool-cases (j == a)) [
  | inl at_a ↦ rw at_a (hu ∙ ap before (sym ((==_iff j a).0 at_a)))
  | inr off_a ↦ rw off_a (elim (Bool-cases (j == b)) [
    | inl at_b ↦ rw at_b (hv ∙ ap before (sym ((==_iff j b).0 at_b)))
    | inr off_b ↦ rw off_b (away j (grind arith) (grind arith))
  ])
])

fix_from-Logged :
    (r : ClHash) (n : ℕ) (key after : Key) → Logged r n key after → fix_from r n after ≡ key
unfolding fix_from
fix_from-Logged r n key after (start k) = refl
fix_from-Logged r n key after (round {n = m} {key = first} {before = before} earlier hu hv away) =
    ap (fix_from r m) (undo before after (r.fixrand m) (r.fixrandex m) _ _ hu hv away)
    ∙ fix_from-Logged r m first before earlier

-- After 32 noted rounds FixKey gives the key as it was before the hash.
pub fix_key-Logged : (r : ClHash) (key after : Key) → Logged r 32 key after → fix_key r after ≡ key
unfolding fix_key
fix_key-Logged r key after logged = fix_from-Logged r 32 key after logged

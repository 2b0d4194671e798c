-- ===== src/Generate/Header.antt =====
-- What a work unit takes from the job.
use ccminer.Common.{
  ℕ, ◌^◌, ◌≡◌, refl, subst, ap, sym, ◌∙◌, Bool, true, some, List, [], ◌∷◌, if◌then◌else◌, take,
  drop, Bool-cases, inl, inr,
}
use ccminer.Common.Memory.{overlay}
use ccminer.Algos.{decred, equihash, sia, lbry, phi2, mjollnir, heavy, zr5}
use ccminer.Generate.{
  has_factor, named, State, second_nonce, next_nonce, assemble, decred_sctx, work_id, generated,
  with_job, stratum_gen_work, swapped, voted, targeted, merkle_root_of,
}
use ccminer.Generate.Counter.{
  length-second_nonce, Inside, number, after, second_nonce-next_nonce, number-increment,
}
use ccminer.Generate.Words.{Settings, is_algo}
use ccminer.Hex.RoundTrip.{AreBytes}
use ccminer.Float.{Double}
use ccminer.Stratum.{Stratum, Job}
use ccminer.Stratum.Verus.{verus_work_set_target}
use ccminer.Target.Difficulty.{work_set_target}
use ccminer.Work.{Work}

-- The header leaves the second nonce of the connection and what the work has of it.
record Keeps (s : Stratum) (w : Work) (r : Stratum × Work) : Type 0 where
  pub nonce : second_nonce r.0 ≡ second_nonce s
  pub copied : r.1.xnonce2 ≡ w.xnonce2
  pub named : r.1.job_id ≡ w.job_id

module _ (s : Stratum) (w : Work) where
  assemble-Keeps : (c : Settings) (root : List ℕ) → Keeps s w (assemble c root s w)
  unfolding assemble decred_sctx
  assemble-Keeps c root = elim (Bool-cases (is_algo c (decred ∷ []))) [
    | inl e ↦ rw e (record { nonce = refl; copied = refl; named = refl })
    | inr e ↦ rw e (elim (Bool-cases (is_algo c (equihash ∷ []))) [
      | inl e ↦ rw e (record { nonce = refl; copied = refl; named = refl })
      | inr e ↦ rw e (elim (Bool-cases (is_algo c (lbry ∷ []))) [
        | inl e ↦ rw e (record { nonce = refl; copied = refl; named = refl })
        | inr e ↦ rw e (elim (Bool-cases (is_algo c (phi2 ∷ []))) [
          | inl e ↦ rw e (record { nonce = refl; copied = refl; named = refl })
          | inr e ↦ rw e (elim (Bool-cases (is_algo c (sia ∷ []))) [
            | inl e ↦ rw e (record { nonce = refl; copied = refl; named = refl })
            | inr e ↦ rw e (record { nonce = refl; copied = refl; named = refl })
          ])
        ])
      ])
    ])
  ]

-- The later changes of the work leave its name and its nonce.
record SameName (w v : Work) : Type 0 where
  pub copied : v.xnonce2 ≡ w.xnonce2
  pub named : v.job_id ≡ w.job_id

voted-SameName : (c : Settings) (w : Work) → SameName w (voted c w)
unfolding voted
voted-SameName c w = elim (Bool-cases (is_algo c (heavy ∷ []))) [
  | inl e ↦ rw e (record { copied = refl; named = refl })
  | inr e ↦ rw e (record { copied = refl; named = refl })
]

swapped-SameName : (c : Settings) (w : Work) → SameName w (swapped c w)
unfolding swapped
swapped-SameName c w = elim (Bool-cases (is_algo c (mjollnir ∷ heavy ∷ zr5 ∷ []))) [
  | inl e ↦ rw e (record { copied = refl; named = refl })
  | inr e ↦ rw e (record { copied = refl; named = refl })
]

targeted-SameName :
    (c : Settings) (job : Job) (d : Double) (w : Work) → SameName w (targeted c job d w)
unfolding targeted work_set_target verus_work_set_target
targeted-SameName c job d w = elim (Bool-cases (has_factor c)) [
  | inl e ↦ rw e (record { copied = refl; named = refl })
  | inr e ↦ rw e (elim (Bool-cases (is_algo c (equihash ∷ []))) [
    | inl f ↦ rw f (record { copied = refl; named = refl })
    | inr f ↦ rw f (record { copied = refl; named = refl })
  ])
]

-- The name of a job stands in the name of its work after the eight characters of the time.
drop-work_id : (ntime id : List ℕ) → drop 8 (work_id ntime id) ≡ take 119 id
unfolding work_id
drop-work_id ntime id = refl

-- A work made from the job named `id`, and what is left in the connection.
pub Made : List ℕ → State → State × Bool → Type 0
Made id st (r, ok) =
    (ok ≡ true)
    × (number (second_nonce r.sctx)
        ≡ after (number (second_nonce st.sctx)) (256 ^ st.sctx.xnonce2_size))
    × (r.work.xnonce2 ≡ overlay (second_nonce st.sctx) st.work.xnonce2)
    × (drop 8 r.work.job_id ≡ take 119 id)

-- The work in `generated` is that of the header, but for its words and its target.
SameName-trans : {a b c : Work} → SameName a b → SameName b c → SameName a c
SameName-trans h k = record { copied = k.copied ∙ h.copied; named = k.named ∙ h.named }

generated-Made :
    (c : Settings) (st : State) (id : List ℕ)
    → Inside st.sctx
    → AreBytes (second_nonce st.sctx)
    → Made id st (generated c id st, true)
unfolding generated Made named
generated-Made c st id inside bytes =
    let r = assemble c (merkle_root_of c st.sctx.job) (next_nonce st.sctx) (named id st) in
    let kept : Keeps (next_nonce st.sctx) (named id st) r =
      assemble-Keeps (next_nonce st.sctx) (named id st) c (merkle_root_of c st.sctx.job) in
    let d : Double = if c.fp.is_zero st.opt_difficulty then c.fp.of_int 1 else st.opt_difficulty in
    let same : SameName r.1 (targeted c r.0.job d (voted c (swapped c r.1))) =
      SameName-trans (swapped-SameName c r.1) (
        SameName-trans (voted-SameName c (swapped c r.1))
          (targeted-SameName c r.0.job d (voted c (swapped c r.1)))) in
    (
      refl,
      ap number (kept.nonce ∙ second_nonce-next_nonce st.sctx inside)
          ∙ number-increment (second_nonce st.sctx) bytes
          ∙ ap (λ n. after (number (second_nonce st.sctx)) (256 ^ n))
              (length-second_nonce st.sctx inside),
      same.copied ∙ kept.copied,
      ap (drop 8) (same.named ∙ kept.named) ∙ drop-work_id st.sctx.job.ntime id,
    )

-- Where the connection has a job whose second nonce lies in the coinbase, the work takes that nonce
-- and the job's name, as far as it fits, and the nonce in the coinbase becomes the next number of its
-- size, or 0 after the last, for every algorithm.
pub gen_work-Made :
    (c : Settings) (st : State) (id : List ℕ)
    → st.sctx.job.job_id ≡ some id
    → Inside st.sctx
    → AreBytes (second_nonce st.sctx)
    → Made id st (stratum_gen_work c st)
unfolding stratum_gen_work with_job
gen_work-Made c st id e inside bytes =
    subst (λ o. Made id st (with_job c o st)) (sym e) (generated-Made c st id inside bytes)

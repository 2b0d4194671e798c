-- ===== src/Upstream/Stale.antt =====
-- Shares of an old job.
use ccminer.Common.{
  ◌≡◌, refl, ap, sym, ◌∙◌, subst, Bool, true, false, not, ◌&&◌, ltb, ◌==◌, if◌then◌else◌, arith,
  Bool-cases, inl, inr, [], ◌∷◌,
}
use ccminer.Algos.{zr5, scrypt_jane}
use ccminer.Upstream.{
  Sending, Upstream, first_tests, is_outdated, asked_height, last_test, to_pool, is_stratum,
  submit_upstream_work,
}
use ccminer.Upstream.Text.{one_of}
use ccminer.Work.{Work}

-- The call reports success, and nothing was sent, counted as a share or logged.
unfoldable pub IsDropped : Upstream → Upstream × Bool → Type 0
IsDropped s (t, ret) =
    (ret ≡ true) × (t.wire ≡ s.wire) × (t.miner ≡ s.miner) × (t.tallies ≡ s.tallies)

-- The two first tests find an outdated share stale and touch the counts of stale shares alone.
record IsStale (s : Upstream) (r : Upstream × Bool) : Type 0 where
  stale : r.1 ≡ true
  miner : r.0.miner ≡ s.miner
  wire : r.0.wire ≡ s.wire
  tallies : r.0.tallies ≡ s.tallies

first_tests-IsStale :
    (c : Sending) (work : Work) (s : Upstream)
    → s.miner.have_stratum ≡ true
    → c.opt_submit_stale ≡ false
    → one_of s.miner.opt_algo (zr5 ∷ scrypt_jane ∷ []) ≡ false
    → is_outdated s.miner work ≡ true
    → IsStale s (first_tests c work s)
unfolding first_tests
first_tests-IsStale c work s have stale algo outdated =
    elim (Bool-cases (not (work.height == 0) && ltb work.height s.miner.g_work.height)) [
      | inl lower ↦
          rw (have, stale, algo, lower)
            (record { stale = refl; miner = refl; wire = refl; tallies = refl })
      | inr higher ↦
          rw (have, stale, algo, higher, outdated)
            (record { stale = refl; miner = refl; wire = refl; tallies = refl })
    ]

if_true {ℓ} : {A : Type ℓ} (b : Bool) (x y : A) → b ≡ true → (if b then x else y) ≡ x
if_true b x y e = rw e refl

pub if_false {ℓ} : {A : Type ℓ} (b : Bool) (x y : A) → b ≡ false → (if b then x else y) ≡ y
if_false b x y e = rw e refl

no_test : (a b : Bool) → (not a && false && b) ≡ false
no_test true b = refl
no_test false b = refl

-- A stale share asks for no height.
asked_height-stale :
    (c : Sending) (work : Work) (t : Upstream) → asked_height c work t true ≡ (t, false, true)
unfolding asked_height
asked_height-stale c work t = if_false _ _ _ (no_test t.miner.have_stratum t.miner.allow_gbt)

last_test-stale :
    (c : Sending) (work : Work) (t : Upstream)
    → c.submit_old ≡ false
    → (not c.submit_old && last_test work t.miner true) ≡ true
unfolding last_test
last_test-stale c work t old = ap (λ b. not b && true) old

to_pool-stale :
    (c : Sending) (work : Work) (t : Upstream)
    → c.submit_old ≡ false
    → to_pool c work (t, false, true) ≡ (t, true)
unfolding to_pool
to_pool-stale c work t old = if_true _ _ _ (last_test-stale c work t old)

pub no_verus :
    (c : Sending) (work : Work) (s : Upstream)
    → s.miner.stratum.is_equihash ≡ false
    → submit_upstream_work c work s
      ≡ to_pool c work (asked_height c work (first_tests c work s).0 (first_tests c work s).1)
unfolding submit_upstream_work
no_verus c work s other =
    if_false _ _ _ (off (is_stratum s.miner work) s.miner.stratum.is_equihash other)
  where
    off : (a b : Bool) → b ≡ false → (a && b) ≡ false
    off true b e = e
    off false b e = refl

-- A share that the first tests find stale goes to no pool.
dropped :
    (c : Sending) (work : Work) (s : Upstream) (r : Upstream × Bool)
    → c.submit_old ≡ false
    → r.1 ≡ true
    → to_pool c work (asked_height c work r.0 r.1) ≡ r
dropped c work s (t, false) old h = absurd (ground arith)
dropped c work s (t, true) old h =
    ap (to_pool c work) (asked_height-stale c work t) ∙ to_pool-stale c work t old

kept : (s : Upstream) (r : Upstream × Bool) → IsStale s r → IsDropped s r
unfolding IsDropped
kept s (t, stale) h = (h.stale, h.wire, h.miner, h.tallies)

-- A share whose job is not that of the work in hand is dropped: nothing is sent, counted as a share
-- or logged, and the call reports success. The pool is a stratum pool of another algorithm than
-- ZR5, Scrypt-Jane and Verus, and no option has stale shares submitted.
pub outdated-IsDropped :
    (c : Sending) (work : Work) (s : Upstream)
    → s.miner.have_stratum ≡ true
    → s.miner.stratum.is_equihash ≡ false
    → c.opt_submit_stale ≡ false
    → c.submit_old ≡ false
    → one_of s.miner.opt_algo (zr5 ∷ scrypt_jane ∷ []) ≡ false
    → is_outdated s.miner work ≡ true
    → IsDropped s (submit_upstream_work c work s)
outdated-IsDropped c work s have other stale old algo outdated =
    let h = first_tests-IsStale c work s have stale algo outdated in
    subst (IsDropped s) (sym (no_verus c work s other)) (
      subst (IsDropped s) (sym (dropped c work s (first_tests c work s) old h.stale))
        (kept s (first_tests c work s) h))

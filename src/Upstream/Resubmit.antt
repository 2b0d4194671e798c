-- ===== src/Upstream/Resubmit.antt =====
-- A share that is submitted twice to a stratum pool, through the whole of submit_upstream_work.
use ccminer.Common.{
  either_arm, ◌%◌, ◌^◌, ◌≡◌, ◌≢◌, ◌⊎◌, refl, ap, sym, subst, ◌∙◌, Bool, true, false, inl, inr,
  arith, if◌then◌else◌,
}
use ccminer.Upstream.{
  Sending, Upstream, first_tests, is_stratum, asked_height, to_pool, stratum_submit,
  submit_upstream_work,
}
use ccminer.Upstream.Repeated.{
  share_nonce, IsKnown, IsSilent, known-IsSilent, submit-IsKnown, SamePool, submit-SamePool,
}
use ccminer.Hashlog.{already_submitted}
use ccminer.Upstream.Text.{encoded}
use ccminer.Upstream.Stale.{no_verus}
use ccminer.Work.{Work}

-- The first tests touch the counts of stale shares alone.
abbrev Same : Upstream → Upstream → Type 0
Same s t = (t.miner ≡ s.miner) × (t.wire ≡ s.wire)

first_tests-Same : (c : Sending) (work : Work) (s : Upstream) → Same s (first_tests c work s).0
unfolding first_tests
first_tests-Same c work s =
    either_arm (λ (r : Upstream × Bool). Same s r.0) _ _ _
      (either_arm (λ (r : Upstream × Bool). Same s r.0) _ _ _ (refl, refl) (refl, refl))
      (refl, refl)

-- What a call to a stratum pool comes down to, in the state `t` of the first tests.
Submits : Sending → Work → Upstream → Upstream × Bool → Type 0
Submits c work s r = (t : Upstream) × Same s t × ((r ≡ (t, true)) ⊎ (r ≡ stratum_submit c work t))

no_height :
    (c : Sending) (work : Work) (t : Upstream) (stale : Bool)
    → t.miner.have_stratum ≡ true
    → asked_height c work t stale ≡ (t, false, stale)
unfolding asked_height
no_height c work t stale have = rw have refl

to_pool-ends :
    (c : Sending) (work : Work) (t : Upstream) (stale : Bool)
    → is_stratum t.miner work ≡ true
    → (to_pool c work (t, false, stale) ≡ (t, true))
      ⊎ (to_pool c work (t, false, stale) ≡ stratum_submit c work t)
unfolding to_pool
to_pool-ends c work t stale e = tests _ _ (t, true) (stratum_submit c work t) _ e
  where
    tests :
        (a b : Bool) (x y z : Upstream × Bool)
        → b ≡ true
        → ((if a then x else if b then y else z) ≡ x) ⊎ ((if a then x else if b then y else z) ≡ y)
    tests true b x y z h = inl refl
    tests false true x y z h = inr refl
    tests false false x y z h = absurd (ground arith)

call-Submits :
    (c : Sending) (work : Work) (s : Upstream)
    → s.miner.have_stratum ≡ true
    → s.miner.stratum.is_equihash ≡ false
    → is_stratum s.miner work ≡ true
    → Submits c work s (submit_upstream_work c work s)
unfolding Submits
call-Submits c work s have other e =
    let r : Upstream × Bool = first_tests c work s in
    let (miner, wire) = first_tests-Same c work s in
    let whole : submit_upstream_work c work s ≡ to_pool c work (r.0, false, r.1) =
      no_verus c work s other
      ∙ ap (to_pool c work) (no_height c work r.0 r.1 (ap (λ m. m.have_stratum) miner ∙ have)) in
    (
      r.0,
      (miner, wire),
      elim (to_pool-ends c work r.0 r.1 (ap (λ m. is_stratum m work) miner ∙ e)) [
        | inl left ↦ inl (whole ∙ left)
        | inr sent ↦ inr (whole ∙ sent)
      ],
    )

-- What a first call that has sent something leaves.
first_call :
    (c : Sending) (work : Work) (s : Upstream) (r : Upstream × Bool)
    → Submits c work s r
    → share_nonce s work ≢ 0
    → c.now % 2 ^ 32 ≢ 0
    → r.1 ≡ true
    → r.0.wire ≢ s.wire
    → r.0.miner.check_dups ≡ true
    → IsKnown work r.0 × SamePool work s r.0
unfolding Submits
first_call c work s r (t, (miner, wire), inl left) h later ok sent on =
    absurd (sent (ap (λ q. q.0.wire) left ∙ wire))
first_call c work s r (t, (miner, wire), inr done) h later ok sent on =
    let nonce : share_nonce t work ≢ 0 =
      subst (λ m. (encoded m.opt_algo work).nonce ≢ 0) (sym miner) h in
    let known : IsKnown work (stratum_submit c work t).0 =
      submit-IsKnown c work t nonce later (ap (λ q. q.1) (sym done) ∙ ok)
        (ap (λ q. q.0.miner.check_dups) (sym done) ∙ on) in
    let same : SamePool work t (stratum_submit c work t).0 = submit-SamePool c work t in
    let kept : SamePool work s (stratum_submit c work t).0 = record {
      have_stratum = same.have_stratum ∙ ap (λ m. m.have_stratum) miner;
      is_equihash = same.is_equihash ∙ ap (λ m. m.stratum.is_equihash) miner;
      pool = same.pool ∙ ap (λ m. is_stratum m work) miner;
    } in
    (
      subst (λ q. IsKnown work q.0) (sym done) known,
      subst (λ q. SamePool work s q.0) (sym done) kept,
    )

-- A call for a known share.
second_call :
    (d : Sending) (work : Work) (u : Upstream) (r : Upstream × Bool)
    → Submits d work u r
    → IsKnown work u
    → IsSilent u r
unfolding Submits IsSilent IsKnown
second_call d work u r (t, (miner, wire), inl left) known =
    subst (IsSilent u) (sym left) (refl, wire, ap (λ m. m.stratum) miner)
second_call d work u r (t, (miner, wire), inr done) known =
    let (ok, same, stratum) = known-IsSilent d work t (
      subst
        (λ m.
          (m.check_dups ≡ true)
          × (already_submitted work.job_id (encoded m.opt_algo work).nonce m.hashlog ≢ 0))
        (sym miner) known) in
    subst (IsSilent u) (sym done) (ok, same ∙ wire, stratum ∙ ap (λ m. m.stratum) miner)

-- A share that was sent with success, while the check for duplicates is on, is not sent a second time:
-- the second call of submit_upstream_work reports success, puts nothing on the wire and counts no
-- share, whatever its options are. The pool is a stratum pool, but not one of Verus, whose shares
-- are not checked; the nonce is not 0, and the time of the first call is not 0 as a number of 32
-- bits.
pub resubmit-IsSilent :
    (c d : Sending) (work : Work) (s : Upstream)
    → s.miner.have_stratum ≡ true
    → s.miner.stratum.is_equihash ≡ false
    → is_stratum s.miner work ≡ true
    → share_nonce s work ≢ 0
    → c.now % 2 ^ 32 ≢ 0
    → (submit_upstream_work c work s).1 ≡ true
    → (submit_upstream_work c work s).0.wire ≢ s.wire
    → (submit_upstream_work c work s).0.miner.check_dups ≡ true
    → IsSilent
        (submit_upstream_work c work s).0
        (submit_upstream_work d work (submit_upstream_work c work s).0)
resubmit-IsSilent c d work s have other pool h later ok sent on =
    let r : Upstream × Bool = submit_upstream_work c work s in
    let (known, same) =
      first_call c work s r (call-Submits c work s have other pool) h later ok sent on in
    second_call d work r.0 (submit_upstream_work d work r.0)
      (call-Submits d work r.0 (same.have_stratum ∙ have) (same.is_equihash ∙ other)
        (same.pool ∙ pool))
      known

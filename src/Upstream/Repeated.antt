-- ===== src/Upstream/Repeated.antt =====
-- Shares that are submitted twice.
use ccminer.Common.{
  ℕ, ◌%◌, ◌^◌, ◌<◌, ◌≡◌, ◌≢◌, refl, ap, sym, ◌∙◌, Bool, true, false, not, ◌&&◌, ◌||◌, List, arith,
  ◌==◌, if◌then◌else◌, Bool-cases, inl, inr,
}
use ccminer.Common.Int.{ℤ}
use ccminer.Hashlog.{already_submitted, hextouint}
use ccminer.Hashlog.Submits.{already_submitted-remember_submit}
use ccminer.Pools.{Miner}
use ccminer.Upstream.{
  Sending, Upstream, stratum_submit, sent_share, remembered, one_more, log_globals, is_stratum,
}
use ccminer.Upstream.Text.{encoded, checks_dups}
use ccminer.Work.{Work}

-- The nonce of a share, as the log has it.
abbrev pub share_nonce : Upstream → Work → ℕ
share_nonce s work = (encoded s.miner.opt_algo work).nonce

-- The share is in the log of submitted shares, and the check for duplicates is on.
unfoldable pub IsKnown : Work → Upstream → Type 0
IsKnown work s =
    (s.miner.check_dups ≡ true)
    × (already_submitted work.job_id (share_nonce s work) s.miner.hashlog ≢ 0)

-- The call reports success and has sent and counted nothing.
unfoldable pub IsSilent : Upstream → Upstream × Bool → Type 0
IsSilent s (t, ret) = (ret ≡ true) × (t.wire ≡ s.wire) × (t.miner.stratum ≡ s.miner.stratum)

test_on : (a b : Bool) (n : ℕ) → a ≡ true → n ≢ 0 → ((a || b) && not (n == 0)) ≡ true
test_on a b n e h = ground arith

-- A known share is not sent.
pub known-IsSilent :
    (d : Sending) (work : Work) (t : Upstream)
    → IsKnown work t
    → IsSilent t (stratum_submit d work t)
unfolding stratum_submit IsKnown IsSilent
known-IsSilent d work t (on, known) =
    rw
      (test_on t.miner.check_dups (checks_dups t.miner.opt_algo)
        (already_submitted work.job_id (share_nonce t work) t.miner.hashlog) on known)
      (refl, refl, refl)

share_nonce-bound : (algo : ℤ) (work : Work) → (encoded algo work).nonce < 2 ^ 32
unfolding encoded
share_nonce-bound algo work = ground arith

same_found : (a n x y : ℕ) → (if a == a && n == n then x else y) ≡ x
same_found a n x y = ground arith

found_again :
    (c : Sending) (work : Work) (n : ℕ) (m : Miner)
    → n < 2 ^ 32
    → n ≢ 0
    → already_submitted work.job_id n (remembered c work n m).hashlog ≡ c.now % 2 ^ 32
unfolding remembered
found_again c work n m below h =
    already_submitted-remember_submit (log_globals m) c.now work n m.hashlog work.job_id n below
      below h
    ∙ same_found (hextouint work.job_id % 2 ^ 32) n (c.now % 2 ^ 32)
        (already_submitted work.job_id n m.hashlog)

-- What a share that was sent leaves.
sent-Known :
    (c : Sending) (work : Work) (n : ℕ) (m : Miner) (s : Upstream) (r : Bool × List ℕ)
    → n < 2 ^ 32
    → n ≢ 0
    → m.check_dups ≡ true
    → (sent_share c work n m s r).1 ≡ true
    → ((sent_share c work n m s r).0.miner.check_dups ≡ true)
      × ((sent_share c work n m s r).0.miner.opt_algo ≡ m.opt_algo)
      × (already_submitted work.job_id n (sent_share c work n m s r).0.miner.hashlog
          ≡ c.now % 2 ^ 32)
unfolding sent_share one_more remembered
sent-Known c work n m s (false, wire) below h on ok = absurd (ground arith)
sent-Known c work n m s (true, wire) below h on ok =
    let tried : Miner = record m {
      stratum = record (m.stratum) { sharediff = work.sharediff work.submit_nonce_id };
    } in
    rw on (refl, refl, found_again c work n tried below h)

sent_share-check :
    (c : Sending) (work : Work) (n : ℕ) (m : Miner) (s : Upstream) (r : Bool × List ℕ)
    → (sent_share c work n m s r).0.miner.check_dups ≡ m.check_dups
unfolding sent_share one_more remembered
sent_share-check c work n m s (false, wire) = refl
sent_share-check c work n m s (true, wire) = elim (Bool-cases (m.check_dups || c.opt_showdiff)) [
  | inl e ↦ rw e refl
  | inr e ↦ rw e refl
]

fresh-IsKnown :
    (c : Sending) (work : Work) (m : Miner) (s : Upstream) (r : Bool × List ℕ)
    → (encoded m.opt_algo work).nonce ≢ 0
    → c.now % 2 ^ 32 ≢ 0
    → (sent_share c work (encoded m.opt_algo work).nonce m s r).1 ≡ true
    → (sent_share c work (encoded m.opt_algo work).nonce m s r).0.miner.check_dups ≡ true
    → IsKnown work (sent_share c work (encoded m.opt_algo work).nonce m s r).0
unfolding IsKnown
fresh-IsKnown c work m s r h later ok on =
    let n : ℕ = (encoded m.opt_algo work).nonce in
    let t : Upstream = (sent_share c work n m s r).0 in
    let (check, algo, found) =
      sent-Known c work n m s r (share_nonce-bound m.opt_algo work) h
        (sym (sent_share-check c work n m s r) ∙ on) ok in
    let asked = already_submitted work.job_id (share_nonce t work) t.miner.hashlog in
    let same : asked ≡ c.now % 2 ^ 32 =
      ap (λ a. already_submitted work.job_id (encoded a work).nonce t.miner.hashlog) algo ∙ found in
    (check, λ e. later (sym same ∙ e))

-- A share that was submitted with success, while the check for duplicates is on, is known.
pub submit-IsKnown :
    (c : Sending) (work : Work) (s : Upstream)
    → share_nonce s work ≢ 0
    → c.now % 2 ^ 32 ≢ 0
    → (stratum_submit c work s).1 ≡ true
    → (stratum_submit c work s).0.miner.check_dups ≡ true
    → IsKnown work (stratum_submit c work s).0
unfolding stratum_submit IsKnown
submit-IsKnown c work s h later =
    let m : Miner = record (s.miner) {
      check_dups = s.miner.check_dups || checks_dups s.miner.opt_algo;
    } in
    let n : ℕ = share_nonce s work in
    elim (Bool-cases (m.check_dups && not (already_submitted work.job_id n m.hashlog == 0))) [
      | inl e ↦ rw e (λ ok on. (on, ground arith))
      | inr e ↦ rw e (fresh-IsKnown c work m s _ h later)
    ]

-- The pool that a share goes to, and its kind.
pub record SamePool (work : Work) (s t : Upstream) : Type 0 where
  pub have_stratum : t.miner.have_stratum ≡ s.miner.have_stratum
  pub is_equihash : t.miner.stratum.is_equihash ≡ s.miner.stratum.is_equihash
  pub pool : is_stratum t.miner work ≡ is_stratum s.miner work

sent-SamePool :
    (c : Sending) (work : Work) (n : ℕ) (m : Miner) (s : Upstream) (r : Bool × List ℕ)
    → m.have_stratum ≡ s.miner.have_stratum
    → m.stratum.is_equihash ≡ s.miner.stratum.is_equihash
    → is_stratum m work ≡ is_stratum s.miner work
    → SamePool work s (sent_share c work n m s r).0
unfolding sent_share one_more remembered
sent-SamePool c work n m s (false, wire) a b p = record {
  have_stratum = a;
  is_equihash = b;
  pool = p;
}
sent-SamePool c work n m s (true, wire) a b p = elim (Bool-cases (m.check_dups || c.opt_showdiff)) [
  | inl e ↦ rw e (record { have_stratum = a; is_equihash = b; pool = p })
  | inr e ↦ rw e (record { have_stratum = a; is_equihash = b; pool = p })
]

pub submit-SamePool :
    (c : Sending) (work : Work) (s : Upstream) → SamePool work s (stratum_submit c work s).0
unfolding stratum_submit
submit-SamePool c work s =
    let m : Miner = record (s.miner) {
      check_dups = s.miner.check_dups || checks_dups s.miner.opt_algo;
    } in
    elim (Bool-cases
      (m.check_dups && not (already_submitted work.job_id (share_nonce s work) m.hashlog == 0))) [
        | inl e ↦ rw e (record { have_stratum = refl; is_equihash = refl; pool = refl })
        | inr e ↦ rw e (sent-SamePool c work (share_nonce s work) m s _ refl refl refl)
      ]

-- ===== src/Stratum/Verus/Notify.antt =====
-- What a job notification leaves in the job.
use ccminer.Common.{
  ℕ, ◌+◌, ◌≡◌, refl, ap, sym, ◌∙◌, Bool, true, false, Option, none, some, List, ◌++◌, length,
  Option-cases, inl, inr,
}
use ccminer.Stratum.{Stratum, Json, string_at}
use ccminer.Stratum.Verus.{notify_fields, verus_stratum_notify, notify_checked, notify_job}
use ccminer.Stratum.Verus.Coinbase.{coinbase_placed}
use ccminer.Stratum.Verus.Params.{Texts, Texts-fields, no-Texts}

-- How a notification may end: in a read through NULL, a refusal, or a new job.
pub Notified : List Json → Stratum → Option (Stratum × Bool) → Type 0
Notified params s none = Texts params × (string_at params 8 ≡ none)
Notified params s (some (t, false)) = (t ≡ s) × (¬ Texts params)
Notified params s (some (t, true)) =
    (x : Texts params) × (front : List ℕ) × (tail : List ℕ) × (t.job.job_id ≡ some x.job_id)
    × (t.job.coinbase ≡ front ++ (s.xnonce1 ++ tail))
    × (length front ≡ 64)
    × (length tail ≡ s.xnonce2_size)
    × (t.job.xnonce2 ≡ 64 + s.xnonce1_size)
    × (t.job.coinbase_size ≡ 64 + s.xnonce1_size + s.xnonce2_size)
    × (t.job.diff ≡ s.next_diff)

-- A notification is refused, and changes nothing, exactly where one of its first seven parameters is
-- no text or has another size than a job needs. One that lacks only the solution is a read through
-- NULL. Any other is accepted: the job has the name that was sent and the difficulty that was set
-- last, and its coinbase is 64 bytes for the two parts, the extranonce and the second nonce, whose
-- place and size are recorded. The extranonce has its recorded size.
pub notify-Notified :
    (now : ℕ) (stack : List ℕ) (fresh : ℕ → ℕ) (params : List Json) (s : Stratum)
    → length s.xnonce1 ≡ s.xnonce1_size
    → Notified params s (verus_stratum_notify now stack fresh params s)
unfolding verus_stratum_notify Notified
notify-Notified now stack fresh params s sized = elim (Option-cases (notify_fields params)) [
  | inl bad ↦ rw (bad, notify_checked) (refl, no-Texts params bad)
  | inr (f, good) ↦
      let (x, same) = Texts-fields params f good in
      let e1 : length f.coinb1 ≡ 64 = ap (λ g. length g.coinb1) (sym same) ∙ x.coinb1_size in
      let e2 : length f.coinb2 ≡ 64 = ap (λ g. length g.coinb2) (sym same) ∙ x.coinb2_size in
      let (front, tail, e, lf, lt) = coinbase_placed fresh f s e1 e2 sized in
      rw (good, notify_checked)
        (elim (Option-cases (string_at params 8)) [
          | inl missing ↦ rw (missing, notify_job) (x, missing)
          | inr (solution, e8) ↦
              rw (e8, notify_job)
                (
                  x,
                  front,
                  tail,
                  ap (λ g. some g.job_id) (sym same),
                  e,
                  lf,
                  lt,
                  rw (e1, e2) refl,
                  rw (e1, e2) refl,
                  refl,
                )
        ])
]

-- ===== src/Stratum/Verus/Submit/Counted.antt =====
-- When a submitted share is counted.
use ccminer.Common.{
  ℕ, ◌+◌, ◌%◌, ◌^◌, ◌<◌, ◌≤◌, ◌≡◌, ◌⊎◌, refl, Bool, true, false, List, [], ◌∷◌, ◌++◌, arith, ltb,
  leb, length, length-append, Bool-cases, inl, inr, ltb→lt, leb→le,
}
use ccminer.Common.Slices.{take-all}
use ccminer.Stratum.{Stratum}
use ccminer.Stratum.Verus.Submit.{submit_line, with_nonce, verus_stratum_submit}
use ccminer.Wire.{Sent, stratum_send_line}
use ccminer.Wire.Sending.{room, send_line_lem}
use ccminer.Work.{Work}

too_long : (a b : ℕ) → leb a b ≡ false → b < a
too_long a b h = ground arith

-- What a submission leaves. The share was sent: its whole line is on the wire, and it is counted. It
-- was not sent: the connection is as it was, and either the pool's part of the nonce exceeds the
-- nonce's space and nothing is on the wire, or the socket has refused before the line's end.
pub Submitted : List Sent → List ℕ → Work → Stratum → Stratum × Work × List ℕ × Bool → Type 0
Submitted sends user work s (t, sent, wire, true) =
    (s.xnonce1_size ≤ 32)
    × (wire ≡ submit_line user s.xnonce1_size s.job.shares_count sent ++ b'\n' ∷ [])
    × (t.job.shares_count ≡ (s.job.shares_count + 1) % 2 ^ 32)
    × (t.sharediff ≡ work.sharediff work.submit_nonce_id)
    × (sent.words 30 ≡ work.nonces work.submit_nonce_id)
Submitted sends user work s (t, sent, wire, false) =
    (t ≡ s)
    × (((32 < s.xnonce1_size) × (wire ≡ []))
        ⊎ ((s.xnonce1_size ≤ 32)
            × (room sends < length (submit_line user s.xnonce1_size s.job.shares_count sent) + 1)))

inside_lem : (n : ℕ) → ltb 32 n ≡ false → n ≤ 32
inside_lem n h = ground arith

-- The connection counts a share exactly where its whole line is on the wire, and is otherwise as it
-- was; where the pool's part of the nonce has more than 32 bytes, the submission fails and sends
-- nothing.
pub submit-Submitted :
    (sends : List Sent) (user : List ℕ) (work : Work) (s : Stratum)
    → Submitted sends user work s (verus_stratum_submit sends user work s)
unfolding verus_stratum_submit stratum_send_line with_nonce Submitted
submit-Submitted sends user work s =
    let line : List ℕ = submit_line user s.xnonce1_size s.job.shares_count (with_nonce work) in
    elim (Bool-cases (ltb 32 s.xnonce1_size)) [
      | inl outside ↦ rw outside (refl, inl (ltb→lt 32 s.xnonce1_size outside, refl))
      | inr inside ↦
          rw (inside, send_line_lem sends line)
            (elim (Bool-cases (leb (length line + 1) (room sends))) [
              | inl whole ↦ rw whole (
                inside_lem s.xnonce1_size inside,
                take-all (room sends) (line ++ b'\n' ∷ []) (
                    omega (
                      arith,
                      length-append line (b'\n' ∷ []),
                      leb→le (length line + 1) (room sends) whole,
                    )),
                refl,
                refl,
                refl,
              )
              | inr torn ↦ rw torn (
                refl,
                inr (
                  inside_lem s.xnonce1_size inside,
                  too_long (length line + 1) (room sends) torn,
                ),
              )
            ])
    ]

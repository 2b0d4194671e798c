-- ===== src/Stratum/Verus/Submit.antt =====
-- verus/stratum.cpp: verus_stratum_submit, which sends a share.
pub mod Counted
pub mod Texts
use mathlib.Core.List.{append_assoc}
use ccminer.Common.{
  ℕ, zero, suc, ◌+◌, ◌-◌, ◌*◌, ◌/◌, ◌%◌, ◌^◌, ◌≤◌, ◌≡◌, refl, ap, sym, ◌∙◌, Bool, true, false, not,
  Option, none, some, List, [], ◌∷◌, ◌++◌, arith, ltb, ◌==◌, if◌then◌else◌, length, take, drop,
}
use ccminer.Common.Memory.{overlay, write_at}
use ccminer.Cstring.{codes}
use ccminer.Float.{Double}
use ccminer.Hex.{cbin2hex, bin2hex}
use ccminer.Print.{print_unsigned, print_hex8}
use ccminer.Stratum.{Stratum, Job}
use ccminer.Wire.{Sent, stratum_send_line}
use ccminer.Work.{Work}

-- The bytes of a 32-bit word in memory.
unfoldable pub word_bytes : ℕ → List ℕ
word_bytes w = w % 256 ∷ w / 2 ^ 8 % 256 ∷ w / 2 ^ 16 % 256 ∷ w / 2 ^ 24 % 256 ∷ []

-- `n` words of memory, from a given one on.
unfoldable pub memory_of : (ℕ → ℕ) → ℕ → ℕ → List ℕ
unfolding word_bytes
memory_of words i zero = []
memory_of words i (suc n) = word_bytes (words i) ++ memory_of words (i + 1) n

-- The scanned nonce goes into word 30.
unfoldable pub with_nonce : Work → Work
with_nonce work = record work {
  words = λ i. if i == 30 then work.nonces work.submit_nonce_id else work.words i;
}

-- The nonce without the part that the pool has given.
unfoldable pub nonce_text : ℕ → Work → List ℕ
unfolding memory_of
nonce_text xnonce1_size work = bin2hex (drop xnonce1_size (memory_of work.words 27 8))

-- The digits of 64 bytes of the solution go over those of the header that was scanned.
unfoldable pub solution_text : Work → List ℕ
solution_text work =
    write_at 22 (cbin2hex (take 64 (drop 8 work.solution))) (cbin2hex (take 1347 work.extra))

abbrev comma : List ℕ
comma = codes "\",\""

-- The line, as far as the buffer of 20 KB holds it. The name of the job stands after the eight
-- characters of the time in `job_id`.
unfoldable pub submit_line : List ℕ → ℕ → ℕ → Work → List ℕ
unfolding nonce_text solution_text
submit_line user xnonce1_size shares_count work =
    let timehex = cbin2hex (word_bytes (work.words 25)) in
    let fields =
      user
      ++ (comma
          ++ (drop 8 work.job_id
              ++ (comma
                  ++ (timehex
                      ++ (comma
                          ++ (nonce_text xnonce1_size work ++ (comma ++ solution_text work))))))) in
    take (20 * 1024 - 1) (
      codes "{\"method\":\"mining.submit\",\"params\":[\""
      ++ (fields
          ++ (codes "\"], \"id\":"
              ++ (print_unsigned ((shares_count + 10) % 2 ^ 32) ++ codes "}"))))

-- The connection, the work, what is on the wire, and the result. For a pool's part of more than 32
-- bytes `nonce_len` wraps, the memory for the nonce's text is refused, and the share is not sent.
-- The time of the submission is left out.
unfoldable pub verus_stratum_submit :
    List Sent → List ℕ → Work → Stratum → Stratum × Work × List ℕ × Bool
unfolding submit_line with_nonce stratum_send_line
verus_stratum_submit sends user work stratum =
    let sent = with_nonce work in
    let (ok, wire) =
      stratum_send_line sends
        (submit_line user stratum.xnonce1_size stratum.job.shares_count sent) in
    let counted : Stratum = record stratum {
      sharediff = work.sharediff work.submit_nonce_id;
      job = record (stratum.job) { shares_count = (stratum.job.shares_count + 1) % 2 ^ 32 };
    } in
    if ltb 32 stratum.xnonce1_size
    then (stratum, sent, [], false)
    else if ok
    then (counted, sent, wire, true)
    else (stratum, sent, wire, false)

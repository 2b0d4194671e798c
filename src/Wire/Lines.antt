-- ===== src/Wire/Lines.antt =====
-- stratum_recv_line against a stream that is cut at its newlines, however its bytes arrive.
use mathlib.Core.List.{append_assoc, append-nil}
use ccminer.Common.{
  ℕ, ◌+◌, ◌≡◌, refl, subst, Bool, true, false, not, ◌&&◌, Option, none, some, List, [], ◌∷◌, ◌++◌,
  arith, ltb, ◌==◌, length, drop, if◌then◌else◌, Bool-cases, inl, inr,
}
use ccminer.Wire.{
  Buffer, Arrival, arrive, closed, lost, waits, chunk, stratum_buffer_append, until_nul,
  until_newline, end_token, strtok, has_newline, recv_loop, take_line, leave, after_loop, recv_into,
  stratum_recv_line,
}

-- What follows the first newline.
unfoldable pub after_newline : List ℕ → List ℕ
after_newline [] = []
after_newline (c ∷ s) = if c == b'\n' then s else after_newline s

-- The text starts with another byte than a newline.
abbrev pub starts : List ℕ → Bool
starts [] = false
starts (c ∷ s) = not (c == b'\n')

abbrev pub no_nul : List ℕ → Bool
no_nul [] = true
no_nul (c ∷ s) = not (c == 0) && no_nul s

-- The bytes that arrive, if the connection stays open and the time is not up.
unfoldable pub arriving : List Arrival → List ℕ
arriving [] = []
arriving (arrive (chunk s) late ∷ arrivals) = s ++ arriving arrivals
arriving (arrive _ late ∷ arrivals) = arriving arrivals

abbrev pub steady : List Arrival → Bool
steady [] = true
steady (arrive (chunk s) late ∷ arrivals) = no_nul s && not late && steady arrivals
steady (arrive (waits ready) late ∷ arrivals) = ready && not late && steady arrivals
steady (arrive _ late ∷ arrivals) = false

until_nul_clean : (s : List ℕ) → no_nul s ≡ true → until_nul s ≡ s
unfolding until_nul
until_nul_clean [] h = refl
until_nul_clean (c ∷ s) h = ground (arith, until_nul_clean s)

has_newline-append : (x y : List ℕ) → has_newline x ≡ true → has_newline (x ++ y) ≡ true
unfolding has_newline
has_newline-append [] y h = absurd (ground arith)
has_newline-append (c ∷ x) y h = ground (arith, has_newline-append x y)

until_newline-append :
    (x y : List ℕ) → has_newline x ≡ true → until_newline (x ++ y) ≡ until_newline x
unfolding has_newline until_newline
until_newline-append [] y h = absurd (ground arith)
until_newline-append (c ∷ x) y h = ground (arith, until_newline-append x y)

after_newline-append :
    (x y : List ℕ) → has_newline x ≡ true → after_newline (x ++ y) ≡ after_newline x ++ y
unfolding has_newline after_newline
after_newline-append [] y h = absurd (ground arith)
after_newline-append (c ∷ x) y h = ground (arith, after_newline-append x y)

after_newline_clean : (s : List ℕ) → no_nul s ≡ true → no_nul (after_newline s) ≡ true
unfolding after_newline
after_newline_clean [] h = refl
after_newline_clean (c ∷ s) h = ground (arith, after_newline_clean s)

drop-end_token : (s : List ℕ) → drop (length (until_newline s) + 1) (end_token s) ≡ after_newline s
unfolding until_newline end_token after_newline
drop-end_token [] = refl
drop-end_token (c ∷ s) = ground (arith, drop-end_token s)

length_split :
    (s : List ℕ)
    → has_newline s ≡ true
    → length s ≡ length (until_newline s) + 1 + length (after_newline s)
unfolding has_newline until_newline after_newline
length_split [] h = absurd (ground arith)
length_split (c ∷ s) h = ground (arith, length_split s)

strtok_lem : (s : List ℕ) → starts s ≡ true → strtok s ≡ (some (until_newline s), end_token s)
unfolding strtok
strtok_lem [] h = absurd (ground arith)
strtok_lem (c ∷ s) h = ground arith

rest_moved : (n : ℕ) (s : List ℕ) → (if ltb n (n + length s) then s else []) ≡ s
rest_moved n [] = ground arith
rest_moved n (c ∷ s) = ground arith

take_line_lem :
    (b : Buffer)
    → has_newline b.sockbuf ≡ true
    → starts b.sockbuf ≡ true
    → no_nul b.sockbuf ≡ true
    → take_line b ≡ (some (until_newline b.sockbuf), record b { sockbuf = after_newline b.sockbuf })
unfolding take_line leave
take_line_lem b cut begun clean =
    rw
      (
        strtok_lem b.sockbuf begun,
        drop-end_token b.sockbuf,
        until_nul_clean (after_newline b.sockbuf) (after_newline_clean b.sockbuf clean),
        length_split b.sockbuf cut,
        rest_moved (length (until_newline b.sockbuf) + 1) (after_newline b.sockbuf),
      )
      refl

starts-append : (x y : List ℕ) → has_newline x ≡ true → starts (x ++ y) ≡ true → starts x ≡ true
unfolding has_newline
starts-append [] y cut h = absurd (ground arith)
starts-append (c ∷ x) y cut h = h

no_nul-append : (x y : List ℕ) → no_nul (x ++ y) ≡ true → no_nul x ≡ true
no_nul-append [] y h = refl
no_nul-append (c ∷ x) y h = ground (arith, no_nul-append x y)

-- A loop that ends with a newline in the buffer, and has lost no byte of `stream`.
ReceivedAll : List ℕ → Bool × Buffer × List Arrival → Type 0
ReceivedAll stream (ret, b, arrivals) =
    (ret ≡ true)
    × (has_newline b.sockbuf ≡ true)
    × (b.sockbuf ++ arriving arrivals ≡ stream)
    × (steady arrivals ≡ true)

ReceivedAll-if :
    (stream : List ℕ) (t : Bool) (x y : Bool × Buffer × List Arrival)
    → (t ≡ true → ReceivedAll stream x)
    → (t ≡ false → ReceivedAll stream y)
    → ReceivedAll stream (if t then x else y)
ReceivedAll-if stream true x y hx hy = hx refl
ReceivedAll-if stream false x y hx hy = hy refl

recv_loop-ReceivedAll :
    (arrivals : List Arrival) (b : Buffer)
    → steady arrivals ≡ true
    → has_newline b.sockbuf ≡ false
    → has_newline (b.sockbuf ++ arriving arrivals) ≡ true
    → ReceivedAll (b.sockbuf ++ arriving arrivals) (recv_loop arrivals b)
unfolding recv_loop arriving stratum_buffer_append ReceivedAll
recv_loop-ReceivedAll [] b st none_yet cut = absurd (cc (append-nil b.sockbuf, none_yet, cut))
recv_loop-ReceivedAll (arrive closed late ∷ arrivals) b st none_yet cut = absurd (ground arith)
recv_loop-ReceivedAll (arrive lost late ∷ arrivals) b st none_yet cut = absurd (ground arith)
recv_loop-ReceivedAll (arrive (waits ready) late ∷ arrivals) b st none_yet cut =
    ground (arith, recv_loop-ReceivedAll arrivals b)
recv_loop-ReceivedAll (arrive (chunk s) late ∷ arrivals) b st none_yet cut =
    let longer : Buffer = stratum_buffer_append s b in
    let joined : (b.sockbuf ++ s) ++ arriving arrivals ≡ b.sockbuf ++ (s ++ arriving arrivals) =
      append_assoc b.sockbuf s (arriving arrivals) in
    let clean : no_nul s ≡ true = ground arith in
    let on_time : late ≡ false = ground arith in
    let going : steady arrivals ≡ true = ground arith in
    let cut_there : has_newline ((b.sockbuf ++ s) ++ arriving arrivals) ≡ true = rw joined cut in
    rw (until_nul_clean s clean, on_time)
      (ReceivedAll-if (b.sockbuf ++ (s ++ arriving arrivals)) (has_newline longer.sockbuf)
        (true, longer, arrivals) (recv_loop arrivals longer) (λ here. (refl, here, joined, going))
        (λ yet.
          subst (λ x. ReceivedAll x (recv_loop arrivals longer)) joined
            (recv_loop-ReceivedAll arrivals longer going yet cut_there)))

-- A call of recv_line on a buffer and what arrives, as a call on their joined text: its first line,
-- and the text after that.
abbrev pub stream : Option Buffer → List Arrival → List ℕ
stream none arrivals = []
stream (some b) arrivals = b.sockbuf ++ arriving arrivals

unfoldable pub Reads : List ℕ → Option (List ℕ) × Option Buffer × List Arrival → Type 0
Reads text (line, b, arrivals) =
    (line ≡ some (until_newline text))
    × (stream b arrivals ≡ after_newline text)
    × (steady arrivals ≡ true)

there :
    (b : Buffer) (arrivals : List Arrival)
    → steady arrivals ≡ true
    → has_newline b.sockbuf ≡ true
    → ReceivedAll (b.sockbuf ++ arriving arrivals) (true, b, arrivals)
unfolding ReceivedAll
there b arrivals going here = (refl, here, refl, going)

after_loop-Reads :
    (text : List ℕ) (r : Bool × Buffer × List Arrival)
    → starts text ≡ true
    → no_nul text ≡ true
    → ReceivedAll text r
    → Reads text (let (line, b, arrivals) = after_loop r in (line, some b, arrivals))
unfolding after_loop ReceivedAll Reads
after_loop-Reads text (true, b, arrivals) begun clean (ok, cut, joined, going) =
    let begun_here : starts b.sockbuf ≡ true =
      starts-append b.sockbuf (arriving arrivals) cut (rw joined begun) in
    let clean_here : no_nul b.sockbuf ≡ true =
      no_nul-append b.sockbuf (arriving arrivals) (rw joined clean) in
    rw (take_line_lem b cut begun_here clean_here) (
      cc (joined, until_newline-append b.sockbuf (arriving arrivals) cut),
      cc (joined, after_newline-append b.sockbuf (arriving arrivals) cut),
      going,
    )
after_loop-Reads text (false, b, arrivals) begun clean (ok, cut, joined, going) =
    absurd (ground arith)

-- Where the connection stays open and the time is not up, a call of stratum_recv_line gives the
-- first line of the text that is in the buffer and still arriving, and leaves the text after it,
-- in whatever pieces that text arrives; the text has a newline, does not start with one and has no
-- NUL.
pub recv_line-Reads :
    (arrivals : List Arrival) (b : Option Buffer)
    → steady arrivals ≡ true
    → has_newline (stream b arrivals) ≡ true
    → starts (stream b arrivals) ≡ true
    → no_nul (stream b arrivals) ≡ true
    → Reads (stream b arrivals) (stratum_recv_line arrivals b)
unfolding stratum_recv_line recv_into
recv_line-Reads arrivals none going cut begun clean = absurd (ground arith)
recv_line-Reads arrivals (some b) going cut begun clean =
    elim (Bool-cases (has_newline b.sockbuf)) [
      | inl here ↦ rw here (
          after_loop-Reads (b.sockbuf ++ arriving arrivals) (true, b, arrivals) begun clean
            (there b arrivals going here))
      | inr yet ↦ rw yet (
          after_loop-Reads (b.sockbuf ++ arriving arrivals) (recv_loop arrivals b) begun clean
            (recv_loop-ReceivedAll arrivals b going yet cut))
    ]

-- ===== src/Wire/Stream.antt =====
-- Any number of lines across the socket: what one end sends by send_line, the other end reads by
-- stratum_recv_line.
use mathlib.Core.List.{append_assoc}
use ccminer.Common.{
  ℕ, zero, suc, ◌+◌, ◌≡◌, refl, Bool, true, false, not, ◌&&◌, Option, none, some, List, [], ◌∷◌,
  ◌++◌, map, arith, leb, ◌==◌, length, length-append,
}
use ccminer.Common.Slices.{take-all}
use ccminer.Wire.{
  Buffer, Arrival, Sent, has_newline, until_newline, send_line, stratum_recv_line, fresh_buffer,
}
use ccminer.Wire.Lines.{
  after_newline, starts, no_nul, arriving, steady, stream, Reads, recv_line-Reads,
}
use ccminer.Wire.Sending.{room, send_line_lem}

-- Each line with a newline after it.
unfoldable pub unlines : List (List ℕ) → List ℕ
unlines [] = []
unlines (l ∷ lines) = l ++ b'\n' ∷ unlines lines

abbrev plain : List ℕ → Bool
plain [] = true
plain (c ∷ l) = not (c == 0) && not (c == b'\n') && plain l

-- Bytes, at least one, none of them a NUL or a newline.
abbrev pub is_line : List ℕ → Bool
is_line [] = false
is_line (c ∷ l) = plain (c ∷ l)

abbrev pub are_lines : List (List ℕ) → Bool
are_lines [] = true
are_lines (l ∷ lines) = is_line l && are_lines lines

-- Calls of stratum_recv_line, one after the other: what they give, and what is left.
pub recv_lines :
    ℕ → List Arrival → Option Buffer → List (Option (List ℕ)) × Option Buffer × List Arrival
recv_lines zero arrivals b = ([], b, arrivals)
recv_lines (suc n) arrivals b =
    let (line, b1, arrivals1) = stratum_recv_line arrivals b in
    let (lines, b2, arrivals2) = recv_lines n arrivals1 b1 in (line ∷ lines, b2, arrivals2)

-- What lands on the wire by calls of send_line, each with what its own socket calls report.
unfoldable pub sent_lines : List (List Sent × List ℕ) → List ℕ
sent_lines [] = []
sent_lines ((script, s) ∷ rest) = (send_line script s).1 ++ sent_lines rest

-- Each line fits into what its socket takes.
abbrev pub all_sent : List (List Sent × List ℕ) → Bool
all_sent [] = true
all_sent ((script, s) ∷ rest) = leb (length s + 1) (room script) && all_sent rest

module _ (rest : List ℕ) where
  until_newline-plain : (l : List ℕ) → plain l ≡ true → until_newline (l ++ b'\n' ∷ rest) ≡ l
  unfolding until_newline
  until_newline-plain [] h = refl
  until_newline-plain (c ∷ l) h = ground (arith, until_newline-plain l)

  after_newline-plain : (l : List ℕ) → plain l ≡ true → after_newline (l ++ b'\n' ∷ rest) ≡ rest
  unfolding after_newline
  after_newline-plain [] h = refl
  after_newline-plain (c ∷ l) h = ground (arith, after_newline-plain l)

  has_newline_plain : (l : List ℕ) → has_newline (l ++ b'\n' ∷ rest) ≡ true
  unfolding has_newline
  has_newline_plain [] = refl
  has_newline_plain (c ∷ l) = ground (arith, has_newline_plain l)

  no_nul-plain :
      (l : List ℕ) → plain l ≡ true → no_nul rest ≡ true → no_nul (l ++ b'\n' ∷ rest) ≡ true
  no_nul-plain [] h clean = clean
  no_nul-plain (c ∷ l) h clean = ground (arith, no_nul-plain l)

  is_line-starts : (l : List ℕ) → is_line l ≡ true → starts (l ++ b'\n' ∷ rest) ≡ true
  is_line-starts [] h = absurd (ground arith)
  is_line-starts (c ∷ l) h = ground arith

is_line-plain : (l : List ℕ) → is_line l ≡ true → plain l ≡ true
is_line-plain [] h = refl
is_line-plain (c ∷ l) h = h

no_nul-unlines : (lines : List (List ℕ)) → are_lines lines ≡ true → no_nul (unlines lines) ≡ true
unfolding unlines
no_nul-unlines [] h = refl
no_nul-unlines (l ∷ lines) h =
    no_nul-plain (unlines lines) l (is_line-plain l (ground arith))
      (no_nul-unlines lines (ground arith))

-- The first of the lines, and the others left.
unfoldable pub Takes :
    List ℕ → List (List ℕ) → Option (List ℕ) × Option Buffer × List Arrival → Type 0
Takes l lines (line, b, arrivals) =
    (line ≡ some l) × (stream b arrivals ≡ unlines lines) × (steady arrivals ≡ true)

pub recv_line-Takes :
    (l : List ℕ) (lines : List (List ℕ)) (arrivals : List Arrival) (b : Option Buffer)
    → are_lines (l ∷ lines) ≡ true
    → steady arrivals ≡ true
    → stream b arrivals ≡ unlines (l ∷ lines)
    → Takes l lines (stratum_recv_line arrivals b)
unfolding unlines Reads Takes
recv_line-Takes l lines arrivals b ok going e =
    let flat : plain l ≡ true = is_line-plain l (ground arith) in
    let read : Reads (stream b arrivals) (stratum_recv_line arrivals b) =
      recv_line-Reads arrivals b going (rw e (has_newline_plain (unlines lines) l))
        (rw e (is_line-starts (unlines lines) l (ground arith)))
        (rw e (no_nul-unlines (l ∷ lines) ok)) in
    (
      cc (read.0, e, until_newline-plain (unlines lines) l flat),
      cc (read.1, e, after_newline-plain (unlines lines) l flat),
      read.2,
    )

pub Delivers : List (List ℕ) → List (Option (List ℕ)) × Option Buffer × List Arrival → Type 0
Delivers lines (read, b, arrivals) = (read ≡ map some lines) × (stream b arrivals ≡ [])

pub recv_lines-Delivers :
    (lines : List (List ℕ)) (arrivals : List Arrival) (b : Option Buffer)
    → are_lines lines ≡ true
    → steady arrivals ≡ true
    → stream b arrivals ≡ unlines lines
    → Delivers lines (recv_lines (length lines) arrivals b)
unfolding recv_lines Delivers unlines Takes
recv_lines-Delivers [] arrivals b ok going e = (refl, e)
recv_lines-Delivers (l ∷ lines) arrivals b ok going e =
    let r = stratum_recv_line arrivals b in
    let first : Takes l lines r = recv_line-Takes l lines arrivals b ok going e in
    let later : Delivers lines (recv_lines (length lines) r.2 r.1) =
      recv_lines-Delivers lines r.2 r.1 (ground arith) first.2 first.1 in
    (cc (first.0, later.0), later.1)

sent_lines-unlines :
    (sends : List (List Sent × List ℕ))
    → all_sent sends ≡ true
    → sent_lines sends ≡ unlines (map (λ send. send.1) sends)
unfolding sent_lines unlines
sent_lines-unlines [] h = refl
sent_lines-unlines ((script, s) ∷ rest) h =
    rw
      (
        send_line_lem script s,
        take-all (room script) (s ++ b'\n' ∷ []) (rw (length-append s (b'\n' ∷ [])) (ground arith)),
        append_assoc s (b'\n' ∷ []) (sent_lines rest),
        sent_lines-unlines rest (ground arith),
      )
      refl

-- Lines that one end sends, each with room for all of its bytes before the socket refuses, are the
-- lines that the other end reads from an empty buffer by as many calls, and nothing is left over:
-- however the bytes are cut into pieces, while the connection stays open and the time is not up.
pub recv-send_lines :
    (sends : List (List Sent × List ℕ)) (arrivals : List Arrival)
    → all_sent sends ≡ true
    → are_lines (map (λ send. send.1) sends) ≡ true
    → steady arrivals ≡ true
    → arriving arrivals ≡ sent_lines sends
    → Delivers
        (map (λ send. send.1) sends)
        (recv_lines (length (map (λ send. send.1) sends)) arrivals (some (fresh_buffer none)))
unfolding fresh_buffer
recv-send_lines sends arrivals sent ok going e =
    recv_lines-Delivers (map (λ send. send.1) sends) arrivals (some (fresh_buffer none)) ok going
      (cc (e, sent_lines-unlines sends sent))

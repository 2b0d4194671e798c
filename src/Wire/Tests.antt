-- ===== src/Wire/Tests.antt =====
-- Runs of the lines of util.cpp on concrete scripts.
use ccminer.Common.{ℕ, ◌≡◌, refl, true, false, none, some, List, [], ◌∷◌, ◌++◌}
use ccminer.Cstring.{codes}
use ccminer.Wire.{
  Sent, unready, blocked, took, Arrival, arrive, waits, chunk, send_loop, send_line,
  stratum_buffer_append, until_nul, has_newline, until_newline, end_token, strtok, recv_loop, leave,
  take_line, after_loop, recv_into, stratum_recv_line, fresh_buffer,
}
use ccminer.Wire.Sending.{room}
use ccminer.Wire.Bounds.{fresh_buffer-Fits, Fits-none, Fits, recv_line-Fits}
use ccminer.Wire.Lines.{starts, no_nul, arriving, stream, Reads, recv_line-Reads}
use ccminer.Wire.Stream.{all_sent, sent_lines, Delivers, recv_lines, recv-send_lines}

program : Unit {0}
unfolding send_loop send_line stratum_buffer_append until_nul has_newline until_newline end_token
    strtok recv_loop leave take_line after_loop recv_into stratum_recv_line fresh_buffer
program = tt

abbrev script : List Sent
script = took 2 ∷ blocked ∷ took 1 ∷ unready ∷ took 9 ∷ []

abbrev pieces : List Arrival
pieces =
    arrive (chunk (codes "o")) false
    ∷ arrive (waits true) false
    ∷ arrive (chunk (codes "k" ++ b'\n' ∷ codes "y")) false
    ∷ arrive (chunk (b'\n' ∷ [])) false
    ∷ []

-- The line "abc" is torn after three bytes.
send_torn : send_line script (codes "abc") ≡ (false, codes "abc")
unfolding program
send_torn = refl

recv_line-Fits_example : Fits (stratum_recv_line pieces (some (fresh_buffer none))).1
recv_line-Fits_example =
    recv_line-Fits pieces (some (fresh_buffer none)) (fresh_buffer-Fits none Fits-none)

cut : has_newline (stream (some (fresh_buffer none)) pieces) ≡ true
unfolding program arriving
cut = refl

begun : starts (stream (some (fresh_buffer none)) pieces) ≡ true
unfolding program arriving
begun = refl

clean : no_nul (stream (some (fresh_buffer none)) pieces) ≡ true
unfolding program arriving
clean = refl

recv_line-Reads_example :
    Reads
      (stream (some (fresh_buffer none)) pieces)
      (stratum_recv_line pieces (some (fresh_buffer none)))
recv_line-Reads_example = recv_line-Reads pieces (some (fresh_buffer none)) refl cut begun clean

abbrev sends : List (List Sent × List ℕ)
sends = (took 2 ∷ took 1 ∷ [], codes "ok") ∷ (took 5 ∷ [], codes "y") ∷ []

enough : all_sent sends ≡ true
unfolding room
enough = refl

arrives : arriving pieces ≡ sent_lines sends
unfolding program arriving sent_lines
arrives = refl

recv-send_lines_example :
    Delivers (codes "ok" ∷ codes "y" ∷ []) (recv_lines 2 pieces (some (fresh_buffer none)))
recv-send_lines_example = recv-send_lines sends pieces enough refl refl arrives

-- A newline before the line: what follows the line is lost.
line_lost :
    stratum_recv_line [] (
      some (record {
        sockbuf = b'\n' ∷ codes "ab" ++ b'\n' ∷ codes "c" ++ b'\n' ∷ [];
        sockbuf_size = 2048;
      }))
    ≡ (some (codes "ab"), some (record { sockbuf = []; sockbuf_size = 2048 }), [])
unfolding program
line_lost = refl

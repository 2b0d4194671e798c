-- ===== src/Wire.antt =====
-- util.cpp: send_line, stratum_send_line, stratum_socket_full, stratum_buffer_append and
-- stratum_recv_line, by which the protocol's lines cross the socket. What select, send and recv
-- report, and whether the time is up, is a script: a list with one entry for each pass of a loop.
pub mod Bounds
pub mod Lines
pub mod Sending
pub mod Stream
mod Tests
use ccminer.Common.{
  ℕ, zero, suc, ◌+◌, ◌-◌, ◌%◌, ◌^◌, min, Bool, true, false, not, ◌||◌, Option, none, some, List, [],
  ◌∷◌, ◌++◌, ltb, leb, ◌==◌, if◌then◌else◌, length, take, drop,
}

-- What a call of send reports: select finds no room, the call fails, it would block, or it takes
-- some of the bytes.
pub data Sent : Type 0 where
  unready failed blocked : Sent
  took : ℕ → Sent

-- The loop of send_line: the bytes that are left, and those on the wire. Where the script ends,
-- select finds no room.
unfoldable pub send_loop : List Sent → List ℕ → List ℕ → Bool × List ℕ
send_loop script [] wire = (true, wire)
send_loop [] (c ∷ s) wire = (false, wire)
send_loop (unready ∷ script) (c ∷ s) wire = (false, wire)
send_loop (failed ∷ script) (c ∷ s) wire = (false, wire)
send_loop (blocked ∷ script) (c ∷ s) wire = send_loop script (c ∷ s) wire
send_loop (took n ∷ script) (c ∷ s) wire =
    send_loop script (drop n (c ∷ s)) (wire ++ take n (c ∷ s))

unfoldable pub send_line : List Sent → List ℕ → Bool × List ℕ
send_line script s = send_loop script (s ++ b'\n' ∷ []) []

-- The mutex makes the call one step.
unfoldable pub stratum_send_line : List Sent → List ℕ → Bool × List ℕ
unfolding send_line
stratum_send_line script s = send_line script s

-- The allocated text of struct stratum_ctx, without the closing NUL.
pub record Buffer : Type 0 where
  pub sockbuf : List ℕ
  pub sockbuf_size : ℕ

-- What a call of recv reports: the peer closed, the call fails, it would block (and whether the
-- socket has data a second later), or some bytes.
pub data Received : Type 0 where
  closed lost : Received
  waits : Bool → Received
  chunk : List ℕ → Received

-- One pass of the loop of stratum_recv_line, and whether the time is up after it.
pub data Arrival : Type 0 where
  arrive : Received → Bool → Arrival

-- `none` is a buffer that is not allocated; select reports data where the script goes on.
unfoldable pub stratum_socket_full : List Arrival → Option Buffer → Bool
stratum_socket_full arrivals none = false
stratum_socket_full [] (some b) = ltb 0 (length b.sockbuf)
stratum_socket_full (a ∷ arrivals) (some b) = true

abbrev pub rbufsize : ℕ
rbufsize = 2048

unfoldable pub stratum_buffer_append : List ℕ → Buffer → Buffer
stratum_buffer_append s b =
    let snew = length b.sockbuf + length s + 1 in
    record {
      sockbuf = b.sockbuf ++ s;
      sockbuf_size =
          if leb b.sockbuf_size snew then snew + (rbufsize - snew % rbufsize) else b.sockbuf_size;
    }

-- What stratum_connect makes of the buffer.
unfoldable pub fresh_buffer : Option Buffer → Buffer
fresh_buffer none = record { sockbuf = []; sockbuf_size = rbufsize }
fresh_buffer (some b) = record b { sockbuf = [] }

-- A text in memory ends at the first NUL.
unfoldable pub until_nul : List ℕ → List ℕ
until_nul [] = []
until_nul (c ∷ s) = if c == 0 then [] else c ∷ until_nul s

-- `strstr(s, "\n")`
unfoldable pub has_newline : List ℕ → Bool
has_newline [] = false
has_newline (c ∷ s) = c == b'\n' || has_newline s

-- The bytes before the first newline, and the text with a NUL in its place.
unfoldable pub until_newline : List ℕ → List ℕ
until_newline [] = []
until_newline (c ∷ s) = if c == b'\n' then [] else c ∷ until_newline s

unfoldable pub end_token : List ℕ → List ℕ
end_token [] = []
end_token (c ∷ s) = if c == b'\n' then 0 ∷ s else c ∷ end_token s

-- `strtok(s, "\n")`: newlines before the token are skipped. Also what it leaves in memory.
unfoldable pub strtok : List ℕ → Option (List ℕ) × List ℕ
unfolding until_newline end_token
strtok [] = (none, [])
strtok (c ∷ s) =
    let (tok, memory) = strtok s in
    if c == b'\n' then (tok, c ∷ memory) else (some (until_newline (c ∷ s)), end_token (c ∷ s))

-- The loop of stratum_recv_line: `ret`, the buffer, and what the socket still has.
unfoldable pub recv_loop : List Arrival → Buffer → Bool × Buffer × List Arrival
unfolding until_nul has_newline stratum_buffer_append
recv_loop [] b = (false, b, [])
recv_loop (arrive closed late ∷ arrivals) b = (false, b, arrivals)
recv_loop (arrive lost late ∷ arrivals) b = (false, b, arrivals)
recv_loop (arrive (waits ready) late ∷ arrivals) b =
    let more = recv_loop arrivals b in
    if not ready
    then (false, b, arrivals)
    else if late || has_newline b.sockbuf
    then (true, b, arrivals)
    else more
recv_loop (arrive (chunk s) late ∷ arrivals) b =
    let longer : Buffer = stratum_buffer_append (until_nul s) b in
    let more = recv_loop arrivals longer in
    if late || has_newline longer.sockbuf then (true, longer, arrivals) else more

-- From `buflen` on: the first line leaves the buffer.
leave : Buffer → Option (List ℕ) × List ℕ → Option (List ℕ) × Buffer
unfolding until_nul
leave b (none, memory) = (none, record b { sockbuf = memory })
leave b (some sret, memory) =
    let buflen = length b.sockbuf in
    let len = length sret in
    let moved = until_nul (drop (len + 1) memory) in
    (some sret, record b { sockbuf = if ltb (len + 1) buflen then moved else [] })

take_line : Buffer → Option (List ℕ) × Buffer
unfolding strtok leave
take_line b = leave b (strtok b.sockbuf)

-- The line, or NULL; the buffer; and what the socket still has.
after_loop : Bool × Buffer × List Arrival → Option (List ℕ) × Buffer × List Arrival
unfolding take_line
after_loop (ret, b, arrivals) =
    let (sret, rest) = take_line b in if ret then (sret, rest, arrivals) else (none, b, arrivals)

-- An empty script is the wait that times out, which gives NULL like a loop that fails.
recv_into : List Arrival → Buffer → Option (List ℕ) × Buffer × List Arrival
unfolding recv_loop after_loop has_newline
recv_into arrivals b =
    if has_newline b.sockbuf
    then after_loop (true, b, arrivals)
    else after_loop (recv_loop arrivals b)

unfoldable pub stratum_recv_line :
    List Arrival → Option Buffer → Option (List ℕ) × Option Buffer × List Arrival
unfolding recv_into
stratum_recv_line arrivals none = (none, none, arrivals)
stratum_recv_line arrivals (some b) =
    let (sret, rest, more) = recv_into arrivals b in (sret, some rest, more)

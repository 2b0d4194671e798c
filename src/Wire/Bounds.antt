-- ===== src/Wire/Bounds.antt =====
-- The receive buffer stays inside what is allocated.
use ccminer.Common.{
  ℕ, ◌+◌, ◌%◌, ◌≡◌, ◌≤◌, ◌<◌, refl, Bool, true, false, Option, none, some, List, [], ◌∷◌, arith,
  length, drop, length-append, length-drop,
}
use ccminer.Wire.{
  Buffer, Arrival, arrive, leave, closed, lost, waits, chunk, stratum_buffer_append, until_nul,
  end_token, strtok, recv_loop, take_line, after_loop, recv_into, stratum_recv_line, fresh_buffer,
}

-- The text, its NUL and one byte more fit, and the size is whole blocks of 2048: the memmove of
-- stratum_recv_line reads one byte past the NUL.
pub record IsFitted (b : Buffer) : Type 0 where
  pub inside : length b.sockbuf + 1 < b.sockbuf_size
  pub blocks : b.sockbuf_size % 2048 ≡ 0

append-IsFitted : (s : List ℕ) (b : Buffer) → IsFitted b → IsFitted (stratum_buffer_append s b)
unfolding stratum_buffer_append
append-IsFitted s b h = ground (arith, length-append b.sockbuf s)

until_nul-le : (s : List ℕ) → length (until_nul s) ≤ length s
unfolding until_nul
until_nul-le [] = omega arith
until_nul-le (c ∷ s) = ground (arith, until_nul-le s)

length-end_token : (s : List ℕ) → length (end_token s) ≡ length s
unfolding end_token
length-end_token [] = refl
length-end_token (c ∷ s) = ground (arith, length-end_token s)

length-strtok : (s : List ℕ) → length (strtok s).1 ≡ length s
unfolding strtok
length-strtok [] = refl
length-strtok (c ∷ s) = ground (arith, length-strtok s, length-end_token (c ∷ s))

shorter :
    (b : Buffer) (s : List ℕ)
    → IsFitted b
    → length s ≤ length b.sockbuf
    → IsFitted (record b { sockbuf = s })
shorter b s h le = ground arith

leave-IsFitted :
    (b : Buffer) (got : Option (List ℕ) × List ℕ)
    → IsFitted b
    → length got.1 ≤ length b.sockbuf
    → IsFitted (leave b got).1
unfolding leave
leave-IsFitted b (none, memory) h le = shorter b memory h le
leave-IsFitted b (some tok, memory) h le =
    ground (arith, until_nul-le (drop (length tok + 1) memory), length-drop (length tok + 1) memory)

take_line-IsFitted : (b : Buffer) → IsFitted b → IsFitted (take_line b).1
unfolding take_line
take_line-IsFitted b h =
    leave-IsFitted b (strtok b.sockbuf) h (omega (arith, length-strtok b.sockbuf))

recv_loop-IsFitted :
    (arrivals : List Arrival) (b : Buffer) → IsFitted b → IsFitted (recv_loop arrivals b).1
unfolding recv_loop
recv_loop-IsFitted [] b h = h
recv_loop-IsFitted (arrive closed late ∷ arrivals) b h = h
recv_loop-IsFitted (arrive lost late ∷ arrivals) b h = h
recv_loop-IsFitted (arrive (waits ready) late ∷ arrivals) b h =
    ground (arith, recv_loop-IsFitted arrivals b h)
recv_loop-IsFitted (arrive (chunk s) late ∷ arrivals) b h = ground (
  arith,
  append-IsFitted (until_nul s) b h,
  recv_loop-IsFitted arrivals (stratum_buffer_append (until_nul s) b)
      (append-IsFitted (until_nul s) b h),
)

after_loop-IsFitted : (r : Bool × Buffer × List Arrival) → IsFitted r.1 → IsFitted (after_loop r).1
unfolding after_loop
after_loop-IsFitted (true, b, arrivals) h = take_line-IsFitted b h
after_loop-IsFitted (false, b, arrivals) h = h

recv_into-IsFitted :
    (arrivals : List Arrival) (b : Buffer) → IsFitted b → IsFitted (recv_into arrivals b).1
unfolding recv_into
recv_into-IsFitted arrivals b h = ground (
  arith,
  after_loop-IsFitted (true, b, arrivals) h,
  after_loop-IsFitted (recv_loop arrivals b) (recv_loop-IsFitted arrivals b h),
)

pub Fits : Option Buffer → Type 0
Fits none = Unit {0}
Fits (some b) = IsFitted b

pub Fits-none : Fits none
unfolding Fits
Fits-none = tt

-- However the bytes arrive, a receive buffer in which the text, its NUL and one byte more fit still
-- has that room after a call of stratum_recv_line.
pub recv_line-Fits :
    (arrivals : List Arrival) (b : Option Buffer) → Fits b → Fits (stratum_recv_line arrivals b).1
unfolding stratum_recv_line Fits
recv_line-Fits arrivals none h = tt
recv_line-Fits arrivals (some b) h = recv_into-IsFitted arrivals b h

pub fresh_buffer-Fits : (b : Option Buffer) → Fits b → Fits (some (fresh_buffer b))
unfolding fresh_buffer Fits
fresh_buffer-Fits none h = ground arith
fresh_buffer-Fits (some b) h = ground arith

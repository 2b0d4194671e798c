-- ===== src/Wire/Sending.antt =====
-- How much of a line send_line puts on the wire.
use mathlib.Core.List.{append_assoc, append-nil}
use ccminer.Common.{
  ℕ, zero, suc, ◌+◌, ◌-◌, ◌≡◌, refl, true, false, List, [], ◌∷◌, ◌++◌, arith, leb, length, take,
  drop, length-append, length-drop,
}
use ccminer.Common.Slices.{take-add}
use ccminer.Wire.{Sent, unready, failed, blocked, took, send_loop, send_line}

-- What the socket takes before it first refuses.
unfoldable pub room : List Sent → ℕ
room [] = 0
room (unready ∷ script) = 0
room (failed ∷ script) = 0
room (blocked ∷ script) = room script
room (took n ∷ script) = n + room script

take-none : (n : ℕ) → take {A = ℕ} n [] ≡ []
take-none zero = refl
take-none (suc n) = refl

nothing_fits : (n : ℕ) → leb (suc n) 0 ≡ false
nothing_fits n = ground arith

all_fits : (n : ℕ) → leb 0 n ≡ true
all_fits n = ground arith

later_fits : (n len more : ℕ) → leb (len - n) more ≡ leb len (n + more)
later_fits n len more = ground arith

send_loop_lem :
    (script : List Sent) (s wire : List ℕ)
    → send_loop script s wire ≡ (leb (length s) (room script), wire ++ take (room script) s)
unfolding send_loop room
send_loop_lem script [] wire =
    rw (take-none (room script), append-nil wire, all_fits (room script)) refl
send_loop_lem [] (c ∷ s) wire = rw (append-nil wire, nothing_fits (length s)) refl
send_loop_lem (unready ∷ script) (c ∷ s) wire = rw (append-nil wire, nothing_fits (length s)) refl
send_loop_lem (failed ∷ script) (c ∷ s) wire = rw (append-nil wire, nothing_fits (length s)) refl
send_loop_lem (blocked ∷ script) (c ∷ s) wire = send_loop_lem script (c ∷ s) wire
send_loop_lem (took n ∷ script) (c ∷ s) wire =
    rw
      (
        send_loop_lem script (drop n (c ∷ s)) (wire ++ take n (c ∷ s)),
        append_assoc wire (take n (c ∷ s)) (take (room script) (drop n (c ∷ s))),
        take-add n (room script) (c ∷ s),
        length-drop n (c ∷ s),
        later_fits n (suc (length s)) (room script),
      )
      refl

-- send_line writes the line and a newline, as far as the socket takes bytes before it first
-- refuses, and returns true exactly where it has taken all of them.
pub send_line_lem :
    (script : List Sent) (s : List ℕ)
    → send_line script s ≡ (leb (length s + 1) (room script), take (room script) (s ++ b'\n' ∷ []))
unfolding send_line
send_line_lem script s =
    rw (send_loop_lem script (s ++ b'\n' ∷ []) [], length-append s (b'\n' ∷ [])) refl

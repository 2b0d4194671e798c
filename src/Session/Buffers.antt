-- ===== src/Session/Buffers.antt =====
-- The buffers of fixed sizes that the handlers print into.
use ccminer.Common.{ℕ, ◌+◌, ◌≤◌, List, ◌∷◌, arith, length, length-append}
use ccminer.Common.Int.{ℤ}
use ccminer.Cstring.{codes}
use ccminer.Print.{print_int, length-print_int}
use ccminer.Session.{reconnect_url, pong_line}

-- The URL of a reconnect and its NUL fit into 32 bytes more than the host's text, and the answer to a
-- ping and its NUL fit into 64 bytes, whatever the port and the id.
pub printed_fits :
    (host : List ℕ) (port id : ℤ)
    → (length (reconnect_url host port) + 1 ≤ 32 + length host) × (length (pong_line id) + 1 ≤ 64)
unfolding reconnect_url pong_line
printed_fits host port id = (
  omega (arith, length-append host (b':' ∷ print_int port), length-print_int port),
  omega (
    arith,
    length-append (print_int id) (codes ",\"result\":\"pong\",\"error\":null}"),
    length-print_int id,
  ),
)

-- ===== src/Session.antt =====
-- util.cpp: the connection to a pool as the miner uses it: stratum_disconnect and the handlers of the
-- pool's calls that answer or reconnect; verus/stratum.cpp: verus_stratum_show_message. jansson
-- and the allocator are taken as documented, and a logged line is left out.
pub mod Notify
pub mod Methods
pub mod Login
pub mod Answers
pub mod Buffers
pub mod Sizes
mod Tests
use ccminer.Common.{
  ℕ, zero, suc, ◌+◌, ◌-◌, ◌*◌, ◌/◌, ◌%◌, ◌^◌, Bool, true, false, not, ◌&&◌, ◌||◌, Option, none,
  some, List, [], ◌∷◌, ◌++◌, ltb, leb, ◌==◌, if◌then◌else◌, get_elem?, length,
}
use ccminer.Common.Int.{ℤ, pos, negsuc, eq_int, cast_int}
use ccminer.Cstring.{codes, is_space, skip_space, scan_number, atoi}
use ccminer.Float.{Double, Arith}
use ccminer.Print.{print_int}
use ccminer.Stratum.{
  Stratum, Json, text, integer, real, truth, array, null, other, string_at, integer_at,
  stratum_free_job,
}
use ccminer.Wire.{Sent, Arrival, Buffer, stratum_send_line}

-- The members of an object that the handlers look up; `params` is empty where it is not an array.
pub record Message : Type 0 where
  pub method : Option Json
  pub id : Option Json
  pub params : List Json
  pub result : Option Json
  pub error : Option Json

-- The member "result" of an answer.
pub data Reply : Type 0 where
  absent : Reply
  name : List ℕ → Reply
  flag : Bool → Reply
  card : List (List ℕ × Json) → Reply

-- The object of an answer; `none` is a null in place of an error.
pub record Answer : Type 0 where
  pub id : Json
  pub result : Reply
  pub error : Option (ℤ × List ℕ)

-- What the handlers are given from outside: the name that get_currentalgo gives, the two functions
-- of jansson, what a send reports, the clock, the bytes that are
-- not initialised, and what stratum_benchdata says of the card.
pub record Env : Type 0 where
  pub fp : Arith
  pub algo : List ℕ
  pub user_agent : List ℕ
  pub loads : List ℕ → Option Message
  pub dumps : Answer → List ℕ
  pub sends : List Sent
  pub now : ℕ
  pub junk : ℕ
  pub stack : List ℕ
  pub fresh : ℕ → ℕ
  pub opt_stratum_stats : Bool
  pub opt_n_threads : ℕ
  pub card_info : List (List ℕ × Json)

-- struct stratum_ctx, the disconnects of its pool, the restart flags of the threads, and what has
-- been sent.
pub record Session : Type 0 where
  pub sctx : Stratum
  pub curl : Bool
  pub sockbuf : Option Buffer
  pub session_id : Option (List ℕ)
  pub tm_connected : ℕ
  pub disconnects : ℕ
  pub work_restart : ℕ → Bool
  pub wire : List ℕ

-- A buffer that is kept, and emptied.
abbrev emptied : Option Buffer → Option Buffer
emptied none = none
emptied (some b) = some (record b { sockbuf = [] })

abbrev drop_job : Option (List ℕ) → Stratum → Stratum
drop_job none sctx = sctx
drop_job (some id) sctx = stratum_free_job sctx

unfoldable pub stratum_disconnect : Session → Session
unfolding stratum_free_job
stratum_disconnect s = record s {
  curl = false;
  sockbuf = if s.curl then emptied s.sockbuf else s.sockbuf;
  disconnects = if s.curl then (s.disconnects + 1) % 2 ^ 32 else s.disconnects;
  sctx = drop_job s.sctx.job.job_id s.sctx;
}

-- `stratum_send_line` of one line by a handler.
unfoldable pub say : Env → List ℕ → Session → Session × Bool
unfolding stratum_send_line
say env line s =
    let (ret, bytes) = stratum_send_line env.sends line in
    (record s { wire = s.wire ++ bytes }, ret)

-- `!v || json_is_null(v)`
abbrev pub no_value : Option Json → Bool
no_value none = true
no_value (some null) = true
no_value (some _) = false

abbrev value_of : Option Json → Json
value_of none = null
value_of (some v) = v

-- An answer with its id.
unfoldable pub answer : Env → Option Json → Reply → Option (ℤ × List ℕ) → Session → Session × Bool
unfolding say
answer env id result error s =
    say env (env.dumps (record { id = value_of id; result = result; error = error })) s

-- The port of a reconnect is a text or a number.
port_of : Option Json → ℤ
unfolding atoi
port_of (some (text t)) = atoi t
port_of (some (integer n)) = cast_int n
port_of _ = pos 0

-- The text of a buffer of 32 bytes more than the host's.
unfoldable pub reconnect_url : List ℕ → ℤ → List ℕ
unfolding print_int
reconnect_url host port = codes "stratum+tcp://" ++ (host ++ b':' ∷ print_int port)

reconnect_to : Option (List ℕ) → ℤ → Session → Session × Bool
unfolding stratum_disconnect reconnect_url
reconnect_to none port s = (s, false)
reconnect_to (some host) port s =
    let moved : Session = record s { sctx = record (s.sctx) { url = reconnect_url host port } } in
    if eq_int port (pos 0) then (s, false) else (stratum_disconnect moved, true)

unfoldable pub stratum_reconnect : List Json → Session → Session × Bool
unfolding reconnect_to port_of
stratum_reconnect params s = reconnect_to (string_at params 0) (port_of (get_elem? params 1)) s

-- json_integer_value, and its cast to an int
abbrev pub integer_value : Option Json → ℤ
integer_value (some (integer n)) = n
integer_value _ = pos 0

abbrev pub int_value : Option Json → ℤ
int_value v = cast_int (integer_value v)

-- The text of a buffer of 64 bytes.
unfoldable pub pong_line : ℤ → List ℕ
unfolding print_int
pong_line id = codes "{\"id\":" ++ (print_int id ++ codes ",\"result\":\"pong\",\"error\":null}")

unfoldable pub stratum_pong : Env → Option Json → Session → Session × Bool
unfolding say pong_line
stratum_pong env id s = if no_value id then (s, false) else say env (pong_line (int_value id)) s

unfoldable pub stratum_get_algo : Env → Option Json → Session → Session × Bool
unfolding answer
stratum_get_algo env id s = if no_value id then (s, false) else answer env id (name env.algo) none s

unfoldable pub stratum_get_stats : Env → Option Json → Session → Session × Bool
unfolding answer
stratum_get_stats env id s =
    if no_value id
    then (s, false)
    else if env.opt_stratum_stats
    then answer env id (card env.card_info) none s
    else answer env id absent (some (pos 1, codes "disabled")) s

unfoldable pub stratum_get_version : Env → Option Json → Session → Session × Bool
unfolding answer
stratum_get_version env id s =
    if no_value id then (s, false) else answer env id (name env.user_agent) none s

unfoldable pub stratum_unknown_method : Env → Option Json → Session → Session × Bool
unfolding answer
stratum_unknown_method env id s =
    if no_value id
    then (s, false)
    else answer env id (flag false) (some (pos 38, codes "unknown method")) s

-- Both functions that show a message answer alike.
shown : Env → Option Json → Session → Session × Bool
unfolding answer
shown env id s = if no_value id then (s, true) else answer env id (flag true) none s

-- The steps of `sscanf(text, "equihash %s block %u", symbol, &height)`: a literal, a word, and a
-- number; `none` is an input that does not match.
literal : List ℕ → List ℕ → Option (List ℕ)
literal [] s = some s
literal (c ∷ l) [] = none
literal (c ∷ l) (d ∷ s) = if c == d then literal l s else none

word : List ℕ → List ℕ
unfolding is_space
word [] = []
word (c ∷ s) = if is_space c then [] else c ∷ word s

after_word : List ℕ → List ℕ
unfolding is_space
after_word [] = []
after_word (c ∷ s) = if is_space c then c ∷ s else after_word s

-- The height, or 0 where the conversions are fewer than two.
height_after : Option (List ℕ) → ℕ
unfolding scan_number
height_after none = 0
height_after (some s) =
    let n = scan_number 10 s in
    if not n.found
    then 0
    else if leb (2 ^ 64) n.value
    then 2 ^ 32 - 1
    else if n.negative
    then (2 ^ 32 - n.value % 2 ^ 32) % 2 ^ 32
    else n.value % 2 ^ 32

-- `none` is a word that does not fit `symbol`.
scan_word : Option (List ℕ) → Option ℕ
unfolding word after_word literal height_after skip_space
scan_word none = some 0
scan_word (some s) =
    let rest = skip_space s in
    if leb 32 (length (word rest))
    then none
    else some (height_after (literal (codes "block") (skip_space (after_word rest))))

unfoldable pub scan_height : List ℕ → Option ℕ
unfolding scan_word literal
scan_height s = scan_word (literal (codes "equihash") s)

-- The height of the job is set where the message has one.
set_height : Option ℕ → Session → Option Session
set_height none s = none
set_height (some h) s =
    let sctx : Stratum = record (s.sctx) { job = record (s.sctx.job) { height = h } } in
    some (if h == 0 then s else record s { sctx = sctx })

read_height : Option (List ℕ) → Session → Option Session
unfolding scan_height set_height
read_height none s = some s
read_height (some t) s = set_height (scan_height t) s

shown_to : Env → Option Json → Option Session → Option (Session × Bool)
unfolding shown
shown_to env id none = none
shown_to env id (some s) = some (shown env id s)

unfoldable pub verus_stratum_show_message :
    Env → Option Json → List Json → Session → Option (Session × Bool)
unfolding read_height shown_to
verus_stratum_show_message env id params s = shown_to env id (read_height (string_at params 0) s)

unfoldable pub stratum_show_message :
    Env → Option Json → List Json → Session → Option (Session × Bool)
unfolding verus_stratum_show_message shown
stratum_show_message env id params s =
    if s.sctx.is_equihash then verus_stratum_show_message env id params s else some (shown env id s)

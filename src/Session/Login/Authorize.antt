-- ===== src/Session/Login/Authorize.antt =====
-- util.cpp: stratum_authorize. The loop that waits for the answer has a list of what its calls are
-- given from outside, one entry for each line that it reads.
use ccminer.Common.{
  ℕ, Bool, true, false, not, ◌||◌, Option, none, some, List, [], ◌∷◌, ◌++◌, if◌then◌else◌,
}
use ccminer.Common.Int.{pos, eq_int}
use ccminer.Cstring.{codes}
use ccminer.Stratum.{Json, truth}
use ccminer.Wire.{Arrival, stratum_recv_line}
use ccminer.Session.{Env, Session, Message, say, no_value, integer_value}
use ccminer.Session.Methods.{stratum_handle_method}
use ccminer.Session.Login.{Exchange, sending}

-- Where the loop stands: a handler has crashed, it waits for more lines, recv has given NULL, or a
-- line that no handler accepts has come.
pub data Progress : Type 0 where
  crashed : Progress
  waiting stopped : Session → Progress
  answered : List ℕ → Session → Progress

-- From a line on: `again` is the loop.
unfoldable pub handled : (Session → Progress) → List ℕ → Option (Session × Bool) → Progress
handled again sret none = crashed
handled again sret (some (s, true)) = again s
handled again sret (some (s, false)) = answered sret s

unfoldable pub received : (Session → Progress) → Env → Session → Option (List ℕ) → Progress
unfolding handled
received again env s none = stopped s
received again env s (some sret) = handled again sret (stratum_handle_method env sret s)

unfoldable pub read_answer : List Env → List Arrival → Session → Progress
unfolding received stratum_handle_method stratum_recv_line
read_answer [] arrivals s = waiting s
read_answer (env ∷ envs) arrivals s =
    let (sret, sockbuf, more) = stratum_recv_line arrivals s.sockbuf in
    received (read_answer envs more) env (record s { sockbuf = sockbuf }) sret

authorize_line : List ℕ → List ℕ → List ℕ
authorize_line user pass =
    codes "{\"id\": 2, \"method\": \"mining.authorize\", \"params\": [\""
    ++ (user ++ (codes "\", \"" ++ (pass ++ codes "\"]}")))

-- json_is_false
abbrev is_false : Option Json → Bool
is_false (some (truth false)) = true
is_false _ = false

abbrev missing : Option Json → Bool
missing none = true
missing (some _) = false

-- The answer that lets the user in.
unfoldable pub is_authorized : Option Message → Bool
is_authorized none = false
is_authorized (some m) = not (missing m.result || is_false m.result || not (no_value m.error))

-- What authorize ends in; `pending` is a loop that still waits for lines.
pub data Outcome : Type 0 where
  crash : Outcome
  pending : Session → Outcome
  done : Session → Bool → Outcome

-- The user is in, whatever the handler says.
abbrev always_true : Option (Session × Bool) → Outcome
always_true none = crash
always_true (some (s, _)) = done s true

-- A line that is not the answer to the third request is a call of the pool.
extranonce_line : Env → Session → List ℕ → Option Message → Outcome
unfolding stratum_handle_method
extranonce_line env s sret none = done s true
extranonce_line env s sret (some m) =
    if not (eq_int (integer_value m.id) (pos 3))
    then always_true (stratum_handle_method env sret s)
    else done s true

extranonce_answer : Env → Session → Option (List ℕ) → Outcome
unfolding extranonce_line
extranonce_answer env s none = done s true
extranonce_answer env s (some sret) = extranonce_line env s sret (env.loads sret)

-- The optional third request; the user is in, whatever comes of it.
subscribe_extranonce : Env → Exchange → Session → Outcome
unfolding say extranonce_answer stratum_recv_line
subscribe_extranonce env x s =
    let line = codes "{\"id\": 3, \"method\": \"mining.extranonce.subscribe\", \"params\": []}" in
    let (t, sent) = say (sending env x.sends) line s in
    let (sret, sockbuf, more) = stratum_recv_line x.arrivals t.sockbuf in
    if not sent || not x.readable
    then done t true
    else extranonce_answer env (record t { sockbuf = sockbuf }) sret

after_answer : Env → Bool → Exchange → Progress → Outcome
unfolding subscribe_extranonce is_authorized
after_answer env opt_extranonce x crashed = crash
after_answer env opt_extranonce x (waiting s) = pending s
after_answer env opt_extranonce x (stopped s) = done s false
after_answer env opt_extranonce x (answered sret s) =
    let t : Session = record s { tm_connected = env.now } in
    if not (is_authorized (env.loads sret))
    then done s false
    else if opt_extranonce
    then subscribe_extranonce env x t
    else done t true

-- `first` is the exchange of the second request, and `third` that of the third.
unfoldable pub stratum_authorize :
    Env → Bool → List Env → Exchange → Exchange → List ℕ → List ℕ → Session → Outcome
unfolding after_answer read_answer authorize_line
stratum_authorize env opt_extranonce envs first third user pass s =
    let (t, sent) = say (sending env first.sends) (authorize_line user pass) s in
    if not sent
    then done t false
    else after_answer env opt_extranonce third (read_answer envs first.arrivals t)

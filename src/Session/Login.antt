-- ===== src/Session/Login.antt =====
-- util.cpp: get_stratum_session_id and stratum_subscribe, which opens a session. A JSON value
-- that is released twice is a crash.
pub mod Authorize
pub mod Subscribed
pub mod Answered
use ccminer.Common.{
  ℕ, zero, suc, ◌+◌, Bool, true, false, not, ◌&&◌, ◌||◌, Option, none, some, List, [], ◌∷◌, ◌++◌,
  if◌then◌else◌, get_elem?,
}
use ccminer.Common.Int.{ℤ, pos, eq_int}
use ccminer.Cstring.{codes, case_eq}
use ccminer.Stratum.{
  Stratum, Json, text, array, truth, elements, string_at, stratum_parse_extranonce,
}
use ccminer.Wire.{Sent, Arrival, Buffer, stratum_recv_line}
use ccminer.Session.{Env, Session, Message, say, no_value, int_value}
use ccminer.Session.Methods.{stratum_handle_method}

-- The loop over the subscriptions: an entry that is no array ends it.
session_id_in : List Json → Option (List ℕ)
unfolding case_eq
session_id_in [] = none
session_id_in (array items ∷ rest) =
    let later = session_id_in rest in
    elim (string_at (elements items) 0) [
      | none ↦ later
      | some notify ↦
          if case_eq notify (codes "mining.notify") then string_at (elements items) 1 else later
    ]
session_id_in (_ ∷ rest) = none

unfoldable pub get_stratum_session_id : List Json → Option (List ℕ)
unfolding session_id_in
get_stratum_session_id val = elim (get_elem? val 0) [
  | some (array items) ↦ session_id_in (elements items)
  | _ ↦ none
]

-- What the socket does while a line is sent and its answer awaited; `readable` is what socket_full
-- reports in between.
pub record Exchange : Type 0 where
  pub sends : List Sent
  pub readable : Bool
  pub arrivals : List Arrival

abbrev sending : Env → List Sent → Env
sending env sends = record env { sends = sends }

subscribe_line : Env → Bool → Option (List ℕ) → List ℕ
subscribe_line env true sid = codes "{\"id\": 1, \"method\": \"mining.subscribe\", \"params\": []}"
subscribe_line env false none =
    codes "{\"id\": 1, \"method\": \"mining.subscribe\", \"params\": [\""
    ++ (env.user_agent ++ codes "\"]}")
subscribe_line env false (some sid) =
    codes "{\"id\": 1, \"method\": \"mining.subscribe\", \"params\": [\""
    ++ (env.user_agent ++ (codes "\", \"" ++ (sid ++ codes "\"]}")))

-- The parameters of an answer that is no error: `result` is there and not null, and there is no
-- error. `none` is a failed call.
unfoldable pub result_of : Message → Option Json
result_of m = if no_value m.result || not (no_value m.error) then none else m.result

items_of : Option Json → List Json
items_of (some (array items)) = elements items
items_of _ = []

abbrev subscribed : Env → List Json → Session → Stratum × Bool → Session × Bool
subscribed env items s (sctx, true) =
    let joined : Stratum = record sctx { next_diff = env.fp.of_int 1 } in
    (record s { sctx = joined; session_id = get_stratum_session_id items }, true)
subscribed env items s (sctx, false) = (record s { sctx = sctx }, false)

subscribe_result : Env → Session → Option Json → Session × Bool
unfolding items_of stratum_parse_extranonce get_stratum_session_id
subscribe_result env s none = (s, false)
subscribe_result env s (some v) =
    let items = items_of (some v) in
    subscribed env items s (stratum_parse_extranonce env.algo items 1 s.sctx)

subscribe_answer : Env → Session → Option Message → Session × Bool
unfolding subscribe_result result_of
subscribe_answer env s none = (s, false)
subscribe_answer env s (some m) = subscribe_result env s (result_of m)

-- How far a try has come: whether there was an answer at all (`sret`), and whether it was JSON (`val`).
pub record Trial : Type 0 where
  pub sret : Bool
  pub val : Bool

abbrev no_answer : Trial
no_answer = record { sret = false; val = false }

abbrev is_json : Option Message → Bool
is_json none = false
is_json (some m) = true

after_recv : Env → Session → Option (List ℕ) → Session × Bool × Trial
unfolding subscribe_answer
after_recv env s none = (s, false, no_answer)
after_recv env s (some sret) =
    let (t, ret) = subscribe_answer env s (env.loads sret) in
    (t, ret, record { sret = true; val = is_json (env.loads sret) })

-- From the label `start` on.
unfoldable pub subscribe_once : Env → Bool → Exchange → Session → Session × Bool × Trial
unfolding say subscribe_line stratum_recv_line after_recv
subscribe_once env retry x s =
    let (t, sent) = say (sending env x.sends) (subscribe_line env retry s.session_id) s in
    let (sret, sockbuf, more) = stratum_recv_line x.arrivals t.sockbuf in
    let u : Session = record t { sockbuf = sockbuf } in
    if not sent || not x.readable then (t, false, no_answer) else after_recv env u sret

-- One retry, where the first answer was not accepted. The label `out` releases `val`, and where the
-- retry has no answer of its own, it is the value of the first try that is released again.
abbrev retried : Env → Exchange → Session × Bool × Trial → Option (Session × Bool)
retried env again (s, ret, p) =
    let (t, ret2, p2) = subscribe_once env true again s in
    if not (not ret && p.sret)
    then some (s, ret)
    else if p.val && not p2.sret
    then none
    else some (t, ret2)

unfoldable pub stratum_subscribe : Env → Exchange → Exchange → Session → Option (Session × Bool)
unfolding subscribe_once
stratum_subscribe env first again s =
    if s.sctx.rpc2 then some (s, true) else retried env again (subscribe_once env false first s)

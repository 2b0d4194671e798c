-- ===== src/Session/Methods.antt =====
-- util.cpp: stratum_handle_method, which gives each call of the pool to its handler; ccminer.cpp:
-- restart_threads.
use ccminer.Common.{ℕ, Bool, true, false, Option, none, some, List, ltb, if◌then◌else◌}
use ccminer.Cstring.{codes, case_eq}
use ccminer.Stratum.{Stratum, Json, text, stratum_set_difficulty, stratum_parse_extranonce}
use ccminer.Stratum.Verus.{verus_stratum_set_target}
use ccminer.Session.{
  Env, Session, Message, stratum_reconnect, stratum_pong, stratum_get_algo, stratum_get_stats,
  stratum_get_version, stratum_show_message, stratum_unknown_method,
}
use ccminer.Session.Notify.{stratum_notify}

-- The methods that have a handler.
pub data Method : Type 0 where
  notify ping set_difficulty set_target set_extranonce reconnect get_algo get_stats : Method
  get_version show_message unknown : Method

-- The chain of tests by strcasecmp.
unfoldable pub method_of : List ℕ → Method
method_of m =
    if case_eq m (codes "mining.notify")
    then notify
    else if case_eq m (codes "mining.ping")
    then ping
    else if case_eq m (codes "mining.set_difficulty")
    then set_difficulty
    else if case_eq m (codes "mining.set_target")
    then set_target
    else if case_eq m (codes "mining.set_extranonce")
    then set_extranonce
    else if case_eq m (codes "client.reconnect")
    then reconnect
    else if case_eq m (codes "client.get_algo")
    then get_algo
    else if case_eq m (codes "client.get_stats")
    then get_stats
    else if case_eq m (codes "client.get_version")
    then get_version
    else if case_eq m (codes "client.show_message")
    then show_message
    else unknown

unfoldable pub restart_threads : ℕ → (ℕ → Bool) → ℕ → Bool
restart_threads opt_n_threads work_restart i = if ltb i opt_n_threads then true else work_restart i

-- A handler of the connection, in the session.
abbrev pub on_sctx : Session → Stratum × Bool → Session × Bool
on_sctx s (sctx, ret) = (record s { sctx = sctx }, ret)

abbrev pub on_sctx? : Session → Option (Stratum × Bool) → Option (Session × Bool)
on_sctx? s none = none
on_sctx? s (some r) = some (on_sctx s r)

abbrev pub restarted : Env → Option (Session × Bool) → Option (Session × Bool)
restarted env none = none
restarted env (some (s, ret)) =
    some (record s { work_restart = restart_threads env.opt_n_threads s.work_restart }, ret)

unfoldable pub dispatch : Env → Method → Option Json → List Json → Session → Option (Session × Bool)
unfolding stratum_notify stratum_pong stratum_set_difficulty verus_stratum_set_target
    stratum_parse_extranonce stratum_reconnect stratum_get_algo stratum_get_stats
    stratum_get_version stratum_show_message stratum_unknown_method restart_threads
dispatch env notify id params s =
    restarted env (on_sctx? s (stratum_notify env.now env.stack env.fresh env.algo params s.sctx))
dispatch env ping id params s = some (stratum_pong env id s)
dispatch env set_difficulty id params s =
    some (on_sctx s (stratum_set_difficulty env.fp params s.sctx))
dispatch env set_target id params s =
    let sctx : Stratum = record (s.sctx) { is_equihash = true } in
    on_sctx? s (verus_stratum_set_target env.fp env.junk env.stack params sctx)
dispatch env set_extranonce id params s =
    some (on_sctx s (stratum_parse_extranonce env.algo params 0 s.sctx))
dispatch env reconnect id params s = some (stratum_reconnect params s)
dispatch env get_algo id params s = some (stratum_get_algo env id s)
dispatch env get_stats id params s = some (stratum_get_stats env id s)
dispatch env get_version id params s = some (stratum_get_version env id s)
dispatch env show_message id params s = stratum_show_message env id params s
dispatch env unknown id params s = some (stratum_unknown_method env id s)

handle_message : Env → Session → Option Message → Option (Session × Bool)
unfolding dispatch method_of
handle_message env s none = some (s, false)
handle_message env s (some m) = elim m.method [
  | some (text t) ↦ dispatch env (method_of t) m.id m.params s
  | _ ↦ some (s, false)
]

-- `none` is a crash, which a handler reports.
unfoldable pub stratum_handle_method : Env → List ℕ → Session → Option (Session × Bool)
unfolding handle_message
stratum_handle_method env line s = handle_message env s (env.loads line)

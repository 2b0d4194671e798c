-- ===== src/Session/Tests.antt =====
-- Runs of the session's calls.
use ccminer.Common.{
  ℕ, ◌≡◌, refl, true, false, Option, none, some, List, [], ◌∷◌, ◌++◌, arith, replicate,
  if◌then◌else◌,
}
use ccminer.Common.Int.{pos}
use ccminer.Cstring.{codes, text_eq, case_eq}
use ccminer.Fixtures.{naturals, a_stratum}
use ccminer.Stratum.{text, integer, stratum_set_difficulty}
use ccminer.Stratum.Extranonce.{IsSized}
use ccminer.Wire.{took, Arrival, arrive, chunk}
use ccminer.Wire.Lines.{arriving}
use ccminer.Wire.Stream.{unlines}
use ccminer.Session.{Env, Session, Message}
use ccminer.Session.Answers.{Answered}
use ccminer.Session.Sizes.{may_crash, Sized, dispatch-Sized}
use ccminer.Session.Methods.{set_extranonce, dispatch, method_of, stratum_handle_method}
use ccminer.Session.Login.{Exchange, stratum_subscribe}
use ccminer.Session.Login.Subscribed.{Ended, subscribe-Ended}
use ccminer.Session.Login.Authorize.{read_answer}
use ccminer.Session.Login.Answered.{Answers, Handles, Calls, read_answer-Answers}

abbrev no_message : Message
no_message = record { method = none; id = none; params = []; result = none; error = none }

abbrev difficulty_call : Message
difficulty_call = record no_message {
  method = some (text (codes "mining.set_difficulty"));
  params = integer (pos 4) ∷ [];
}

-- Two texts that stand for a call and an answer.
abbrev loads : List ℕ → Option Message
loads s = if text_eq s (codes "call") then some difficulty_call else some no_message

abbrev an_env : Env
an_env = record {
  fp = naturals;
  algo = codes "verus";
  user_agent = codes "ccminer";
  loads = loads;
  dumps = λ a. codes "{}";
  sends = took 9 ∷ [];
  now = 7;
  junk = 0;
  stack = replicate 32 0;
  fresh = λ n. 0;
  opt_stratum_stats = false;
  opt_n_threads = 2;
  card_info = [];
}

abbrev a_session : Session
a_session = record {
  sctx = a_stratum;
  curl = true;
  sockbuf = some (record { sockbuf = []; sockbuf_size = 2048 });
  session_id = none;
  tm_connected = 0;
  disconnects = 0;
  work_restart = λ i. false;
  wire = [];
}

sized : IsSized a_stratum
sized = ground arith

dispatch-Sized_example :
    Sized (may_crash set_extranonce) (
      dispatch an_env set_extranonce none
        (text (codes "aabbccdd") ∷ integer (pos 4) ∷ [])
        a_session)
dispatch-Sized_example =
    dispatch-Sized an_env a_session sized set_extranonce none
      (text (codes "aabbccdd") ∷ integer (pos 4) ∷ [])

abbrev an_exchange : Exchange
an_exchange = record {
  sends = took 200 ∷ [];
  readable = true;
  arrivals = arrive (chunk (codes "other" ++ b'\n' ∷ [])) false ∷ [];
}

subscribe-Ended_example :
    Ended an_env an_exchange an_exchange a_session
      (stratum_subscribe an_env an_exchange an_exchange a_session)
subscribe-Ended_example = subscribe-Ended an_env an_exchange an_exchange a_session refl

program : Unit {0}
unfolding stratum_handle_method dispatch method_of stratum_set_difficulty text_eq case_eq
program = tt

call_accepted : Handles true an_env (codes "call")
unfolding program Handles
call_accepted s = (record s { sctx = record (s.sctx) { next_diff = 4 } }, refl, refl)

answer_refused : Handles false an_env (codes "other")
unfolding program Handles
answer_refused s = (s, refl, refl)

one_call : Calls ((an_env, codes "call") ∷ [])
unfolding Calls
one_call = (call_accepted, tt)

abbrev arrived : List Arrival
arrived =
    arrive (chunk (codes "ca")) false
    ∷ arrive (chunk (codes "ll" ++ b'\n' ∷ codes "other" ++ b'\n' ∷ [])) false
    ∷ []

arrived_lines : arriving arrived ≡ unlines (codes "call" ∷ codes "other" ∷ [])
unfolding arriving unlines
arrived_lines = refl

read_answer-Answers_example :
    Answers
      ((an_env, codes "call") ∷ [])
      an_env
      (codes "other")
      a_session
      (read_answer (an_env ∷ an_env ∷ []) arrived a_session)
read_answer-Answers_example =
    read_answer-Answers ((an_env, codes "call") ∷ []) an_env (codes "other") arrived a_session
      one_call answer_refused refl refl arrived_lines

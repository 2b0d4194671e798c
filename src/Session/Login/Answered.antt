-- ===== src/Session/Login/Answered.antt =====
-- That authorize finds its answer behind the calls that the pool makes before it.
use ccminer.Common.{ℕ, ◌≡◌, refl, Bool, true, false, Option, some, List, [], ◌∷◌, arith}
use ccminer.Wire.{Arrival, Buffer, stratum_recv_line}
use ccminer.Wire.Lines.{steady, stream}
use ccminer.Wire.Stream.{unlines, are_lines, Takes, recv_line-Takes}
use ccminer.Session.{Env, Session}
use ccminer.Session.Methods.{stratum_handle_method}
use ccminer.Session.Login.Authorize.{Progress, answered, handled, received, read_answer}

-- A line whose handler returns `ret` in every session, and keeps what was received.
unfoldable pub Handles : Bool → Env → List ℕ → Type 0
Handles ret env line =
    (s : Session)
    → (t : Session) × (stratum_handle_method env line s ≡ some (t, ret)) × (t.sockbuf ≡ s.sockbuf)

-- Each line is a call that its handler accepts.
unfoldable pub Calls : List (Env × List ℕ) → Type 0
Calls [] = Unit {0}
Calls ((env, line) ∷ calls) = Handles true env line × Calls calls

abbrev pub lines_of : List (Env × List ℕ) → List ℕ → List (List ℕ)
lines_of [] answer = answer ∷ []
lines_of ((env, line) ∷ calls) answer = line ∷ lines_of calls answer

abbrev pub envs_of : List (Env × List ℕ) → Env → List Env
envs_of [] env = env ∷ []
envs_of ((e, line) ∷ calls) env = e ∷ envs_of calls env

-- Each call in turn, and then the answer, was given to its handler, in the session that the handler
-- before has left, but for the receive buffer; the last handler has left the session `t`.
unfoldable pub Told : List (Env × List ℕ) → Env → List ℕ → Session → Session → Type 0
Told [] env answer s t =
    (b : Option Buffer) × (stratum_handle_method env answer (record s { sockbuf = b })
      ≡ some (t, false))
Told ((e, line) ∷ calls) env answer s t =
    (b : Option Buffer) × (u : Session) × (stratum_handle_method e line (record s { sockbuf = b })
      ≡ some (u, true))
    × Told calls env answer u t

-- The loop has ended with the answer.
unfoldable pub Answers : List (Env × List ℕ) → Env → List ℕ → Session → Progress → Type 0
Answers calls env answer s p = (t : Session) × (p ≡ answered answer t) × Told calls env answer s t

handled-Answers :
    (again : Session → Progress) (calls : List (Env × List ℕ)) (c env : Env) (line answer : List ℕ)
    (s : Session) (b : Option Buffer)
    → Handles true c line
    → ((u : Session) → u.sockbuf ≡ b → Answers calls env answer u (again u))
    → Answers
        ((c, line) ∷ calls)
        env
        answer
        s
        (received again c (record s { sockbuf = b }) (some line))
unfolding received handled Handles Answers Told
handled-Answers again calls c env line answer s b h later =
    let (u, e, same) = h (record s { sockbuf = b }) in
    let (t, ends, told) = later u same in (t, rw e ends, (b, u, e, told))

last-Answers :
    (again : Session → Progress) (env : Env) (answer : List ℕ) (s : Session) (b : Option Buffer)
    → Handles false env answer
    → Answers [] env answer s (received again env (record s { sockbuf = b }) (some answer))
unfolding received handled Handles Answers Told
last-Answers again env answer s b h =
    let (t, e, same) = h (record s { sockbuf = b }) in (t, rw e refl, (b, e))

-- However many calls of the pool stand before the answer, and however the bytes arrive, the loop of
-- authorize gives each call in turn to its handler, in the session that the handler before has left,
-- and then ends with the answer; the handlers accept their calls and keep what was received, the
-- answer is no call, and the connection stays open.
pub read_answer-Answers :
    (calls : List (Env × List ℕ)) (env : Env) (answer : List ℕ) (arrivals : List Arrival)
    (s : Session)
    → Calls calls
    → Handles false env answer
    → are_lines (lines_of calls answer) ≡ true
    → steady arrivals ≡ true
    → stream s.sockbuf arrivals ≡ unlines (lines_of calls answer)
    → Answers calls env answer s (read_answer (envs_of calls env) arrivals s)
unfolding read_answer Calls Takes
read_answer-Answers [] env answer arrivals s h last ok going e =
    let r = stratum_recv_line arrivals s.sockbuf in
    let first : Takes answer [] r = recv_line-Takes answer [] arrivals s.sockbuf ok going e in
    rw first.0 (last-Answers (read_answer [] r.2) env answer s r.1 last)
read_answer-Answers ((c, line) ∷ calls) env answer arrivals s h last ok going e =
    let lines = lines_of calls answer in
    let r = stratum_recv_line arrivals s.sockbuf in
    let first : Takes line lines r = recv_line-Takes line lines arrivals s.sockbuf ok going e in
    rw first.0 (
      handled-Answers (read_answer (envs_of calls env) r.2) calls c env line answer s r.1 h.0
        (λ t same.
          read_answer-Answers calls env answer r.2 t h.1 last (ground arith) first.2
            (rw same first.1)))

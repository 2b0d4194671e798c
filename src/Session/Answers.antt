-- ===== src/Session/Answers.antt =====
-- How the calls that only ask are answered.
use ccminer.Common.{ℕ, ◌≡◌, Bool, true, false, Option, none, some, List, ◌++◌, if◌then◌else◌}
use ccminer.Common.Int.{ℤ, pos}
use ccminer.Cstring.{codes}
use ccminer.Stratum.{Json}
use ccminer.Wire.{stratum_send_line}
use ccminer.Session.{Env, Session, Reply, int_value, pong_line, card, absent, name, flag}
use ccminer.Session.Methods.{Method, ping, get_algo, get_stats, get_version, unknown}

-- The calls that ask for something, and those that nobody knows.
unfoldable pub asks : Method → Bool
asks ping = true
asks get_algo = true
asks get_stats = true
asks get_version = true
asks unknown = true
asks _ = false

-- What each of the calls is told.
unfoldable pub told : Env → Method → Reply × Option (ℤ × List ℕ)
told env get_algo = (name env.algo, none)
told env get_version = (name env.user_agent, none)
told env get_stats =
    if env.opt_stratum_stats
    then (card env.card_info, none)
    else (absent, some (pos 1, codes "disabled"))
told env _ = (flag false, some (pos 38, codes "unknown method"))

-- The line that answers a call: what it is told, with its id, and a pong with the id as an int.
pub Carries : Env → Method → Option Json → List ℕ → Type 0
Carries env ping id line = (line ≡ pong_line (int_value id))
Carries env m id line =
    (v : Json) × (id ≡ some v)
    × (line ≡ env.dumps (record { id = v; result = (told env m).0; error = (told env m).1 }))

-- With no id, nothing happens and the call is refused. With one, a line with that id is sent, the
-- result says whether all of it is on the wire, and the rest of the session is as it was.
pub Answered : Env → Method → Option Json → Session → Bool → Option (Session × Bool) → Type 0
Answered env m id s unset none = (true ≡ false)
Answered env m id s true (some (t, ret)) = (t ≡ s) × (ret ≡ false)
Answered env m id s false (some (t, ret)) =
    (line : List ℕ) × Carries env m id line
    × (t ≡ record s { wire = s.wire ++ (stratum_send_line env.sends line).1 })
    × (ret ≡ (stratum_send_line env.sends line).0)

module _ (env : Env) (s : Session) (m : Method) where
  either-Answered :
      (id : Option Json) (b : Bool) (x y : Session × Bool)
      → Answered env m id s false (some x)
      → Answered env m id s false (some y)
      → Answered env m id s false (some (if b then x else y))
  either-Answered id true x y hx hy = hx
  either-Answered id false x y hx hy = hy

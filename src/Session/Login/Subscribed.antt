-- ===== src/Session/Login/Subscribed.antt =====
-- What a subscription leaves.
use ccminer.Common.{
  ℕ, ◌≡◌, refl, subst, ◌∙◌, sym, Bool, true, false, not, ◌&&◌, ◌||◌, arith, Bool-cases, inl, inr,
  Option, none, some, List, if◌then◌else◌,
}
use ccminer.Stratum.{Stratum, Json}
use ccminer.Stratum.Extranonce.{IsSized, Checked, parse_extranonce-Checked}
use ccminer.Wire.{stratum_recv_line}
use ccminer.Session.{Env, Session, Message, say}
use ccminer.Session.Login.{
  Exchange, sending, items_of, subscribed, subscribe_result, subscribe_answer, after_recv, Trial,
  no_answer, result_of, subscribe_once, subscribe_line, retried, stratum_subscribe,
}

-- Accepted: the extranonce has its sizes, and the difficulty is 1. Refused: the connection's data
-- are those that it started with.
pub Joined : Env → Stratum → Session × Bool → Type 0
Joined env c (t, true) = IsSized t.sctx × (t.sctx.next_diff ≡ env.fp.of_int 1)
Joined env c (t, false) = t.sctx ≡ c

module _ (env : Env) (c : Stratum) where
  parsed-Joined :
      (items : List Json) (s : Session) (r : Stratum × Bool)
      → s.sctx ≡ c
      → Checked s.sctx r
      → Joined env c (subscribed env items s r)
  unfolding Joined Checked
  parsed-Joined items s (t, true) e k = (record { first = k.first; second = k.second }, refl)
  parsed-Joined items s (t, false) e k = k ∙ e

  result-Joined :
      (s : Session) (v : Option Json) → s.sctx ≡ c → Joined env c (subscribe_result env s v)
  unfolding subscribe_result Joined
  result-Joined s none e = e
  result-Joined s (some v) e =
      parsed-Joined (items_of (some v)) s _ e
        (parse_extranonce-Checked env.algo (items_of (some v)) 1 s.sctx)

  answer-Joined :
      (s : Session) (m : Option Message) → s.sctx ≡ c → Joined env c (subscribe_answer env s m)
  unfolding subscribe_answer Joined
  answer-Joined s none e = e
  answer-Joined s (some m) e = result-Joined s (result_of m) e

  abbrev first_two : Session × Bool × Trial → Session × Bool
  first_two (s, ret, p) = (s, ret)

  recv-Joined :
      (s : Session) (line : Option (List ℕ))
      → s.sctx ≡ c
      → Joined env c (first_two (after_recv env s line))
  unfolding after_recv Joined
  recv-Joined s none e = e
  recv-Joined s (some sret) e = answer-Joined s (env.loads sret) e

  either-Joined :
      (b : Bool) (t : Session) (y : Session × Bool × Trial)
      → t.sctx ≡ c
      → Joined env c (first_two y)
      → Joined env c (first_two (if b then (t, false, no_answer) else y))
  unfolding Joined
  either-Joined true t y e h = e
  either-Joined false t y e h = h

  once-Joined :
      (retry : Bool) (x : Exchange) (s : Session)
      → s.sctx ≡ c
      → Joined env c (first_two (subscribe_once env retry x s))
  unfolding subscribe_once say
  once-Joined retry x s e =
      let (t, sent) = say (sending env x.sends) (subscribe_line env retry s.session_id) s in
      let r = stratum_recv_line x.arrivals t.sockbuf in
      either-Joined (not sent || not x.readable) t (after_recv env (record t { sockbuf = r.1 }) r.0)
        e (recv-Joined (record t { sockbuf = r.1 }) r.0 e)

-- How a subscription ends. There is no result where the first answer was JSON and was refused, and the
-- retry has got no answer: the first answer is released twice.
pub Ended : Env → Exchange → Exchange → Session → Option (Session × Bool) → Type 0
Ended env first again s (some r) = Joined env s.sctx r
Ended env first again s none =
    (t : Session) × (p : Trial) × (subscribe_once env false first s ≡ (t, false, p))
    × (p.val ≡ true)
    × ((subscribe_once env true again t).2.sret ≡ false)

split_test : (a b : Bool) → (a && not b) ≡ true → (a ≡ true) × (b ≡ false)
split_test a b h = ground arith

again-Ended :
    (env : Env) (first again : Exchange) (s : Session) (r : Session × Bool × Trial)
    → subscribe_once env false first s ≡ r
    → Joined env s.sctx (first_two env s.sctx r)
    → Ended env first again s (retried env again r)
unfolding Ended Joined
again-Ended env first again s (t, true, p) e h = h
again-Ended env first again s (t, false, p) e h = elim (Bool-cases p.sret) [
  | inl on ↦ rw on (elim (Bool-cases (p.val && not (subscribe_once env true again t).2.sret)) [
    | inl twice ↦
        let (val, sret) = split_test p.val (subscribe_once env true again t).2.sret twice in
        rw twice (t, p, e, val, sret)
    | inr once ↦ rw once (once-Joined env s.sctx true again t h)
  ])
  | inr off ↦ rw off h
]

-- A subscription that is accepted, at the first try or at the retry, leaves an extranonce of valid
-- sizes and the difficulty 1; one that is refused leaves the connection's data as they were. It
-- crashes only where the first answer was JSON and was refused and the retry gets no answer. The
-- pool's connection is not of the second protocol, which has no subscription.
pub subscribe-Ended :
    (env : Env) (first again : Exchange) (s : Session)
    → s.sctx.rpc2 ≡ false
    → Ended env first again s (stratum_subscribe env first again s)
unfolding stratum_subscribe
subscribe-Ended env first again s e =
    subst
      (λ b.
        Ended env first again s
          (if b then some (s, true) else retried env again (subscribe_once env false first s)))
      (sym e)
      (again-Ended env first again s (subscribe_once env false first s) refl
        (once-Joined env s.sctx false first s refl))

-- ===== src/Session/Sizes.antt =====
-- The sizes of the extranonce, over the calls of a session.
use ccminer.Common.{
  ℕ, Bool, true, false, Option, none, some, List, if◌then◌else◌, Bool-cases, inl, inr, ◌==◌,
  get_elem?, ◌∷◌, ◌++◌, ◌≡◌, refl,
}
use ccminer.Common.Int.{ℤ, pos, eq_int}
use ccminer.Cstring.{codes}
use ccminer.Stratum.{Stratum, Json, string_at, stratum_free_job}
use ccminer.Stratum.Extranonce.{IsSized, parse_extranonce-IsSized}
use ccminer.Stratum.Verus.Nonce.{SameNonce, Leaves, set_target-Leaves, set_difficulty-SameNonce}
use ccminer.Session.{
  card, absent, Env, Session, say, answer, no_value, reconnect_to, port_of, stratum_pong,
  stratum_get_algo, stratum_get_stats, stratum_get_version, stratum_show_message, shown, shown_to,
  read_height, set_height, verus_stratum_show_message, stratum_unknown_method, stratum_disconnect,
  drop_job, scan_height,
}
use ccminer.Print.{print_int}
use ccminer.Session.Notify.Nonce.{notify-Leaves}
use ccminer.Session.Methods.{
  Method, notify, ping, set_difficulty, set_target, set_extranonce, reconnect, get_algo, get_stats,
  get_version, show_message, unknown, dispatch, on_sctx?, restarted,
}

IsSized-same : (s t : Stratum) → SameNonce s t → IsSized s → IsSized t
IsSized-same s t same h = record {
  first = cc (same.first, same.first_size, h.first);
  second = rw (same.first_size, same.second_size) (h.second);
}

-- The calls that may crash: a notification or a target whose text is read through NULL, and a message
-- whose word does not fit.
pub may_crash : Method → Bool
may_crash notify = true
may_crash set_target = true
may_crash show_message = true
may_crash _ = false

-- `crashes` allows a crash.
pub Sized : Bool → Option (Session × Bool) → Type 0
Sized crashes none = (crashes ≡ true)
Sized crashes (some (t, r)) = IsSized t.sctx

Sized-if :
    (c b : Bool) (x y : Option (Session × Bool))
    → Sized c x
    → Sized c y
    → Sized c (if b then x else y)
Sized-if c true x y hx hy = hx
Sized-if c false x y hx hy = hy

some-Sized : (c : Bool) (r : Session × Bool) → IsSized r.0.sctx → Sized c (some r)
unfolding Sized
some-Sized c r h = h

module _ (env : Env) (s : Session) (h : IsSized s.sctx) where
  pong-Sized : (id : Option Json) → IsSized (stratum_pong env id s).0.sctx
  unfolding stratum_pong say
  pong-Sized id = elim (Bool-cases (no_value id)) [ inl e ↦ rw e h | inr e ↦ rw e h ]

  get_algo-Sized : (id : Option Json) → IsSized (stratum_get_algo env id s).0.sctx
  unfolding stratum_get_algo answer say
  get_algo-Sized id = elim (Bool-cases (no_value id)) [ inl e ↦ rw e h | inr e ↦ rw e h ]

  get_version-Sized : (id : Option Json) → IsSized (stratum_get_version env id s).0.sctx
  unfolding stratum_get_version answer say
  get_version-Sized id = elim (Bool-cases (no_value id)) [ inl e ↦ rw e h | inr e ↦ rw e h ]

  unknown-Sized : (id : Option Json) → IsSized (stratum_unknown_method env id s).0.sctx
  unfolding stratum_unknown_method answer say
  unknown-Sized id = elim (Bool-cases (no_value id)) [ inl e ↦ rw e h | inr e ↦ rw e h ]

  get_stats-Sized : (id : Option Json) → IsSized (stratum_get_stats env id s).0.sctx
  unfolding stratum_get_stats answer say
  get_stats-Sized id = elim (Bool-cases (no_value id)) [
    | inl e ↦ rw e h
    | inr e ↦
        rw e
          (elim env.opt_stratum_stats
            as (λ b.
              IsSized
                (if b
                  then answer env id (card env.card_info) none s
                  else answer env id absent (some (pos 1, codes "disabled")) s).0.sctx) [
                    | true ↦ h
                    | false ↦ h
                  ])
  ]

  drop_job-IsSized : (id : Option (List ℕ)) (c : Stratum) → IsSized c → IsSized (drop_job id c)
  unfolding stratum_free_job
  drop_job-IsSized none c k = k
  drop_job-IsSized (some id) c k = record { first = k.first; second = k.second }

  disconnect-IsSized : (t : Session) → IsSized t.sctx → IsSized (stratum_disconnect t).sctx
  unfolding stratum_disconnect
  disconnect-IsSized t k = drop_job-IsSized t.sctx.job.job_id t.sctx k

  moved-IsSized : (url : List ℕ) → IsSized (record (s.sctx) { url = url })
  moved-IsSized url = record { first = h.first; second = h.second }

  reconnect_to-Sized :
      (host : Option (List ℕ)) (port : ℤ) → IsSized (reconnect_to host port s).0.sctx
  unfolding reconnect_to
  reconnect_to-Sized none port = h
  reconnect_to-Sized (some host) port =
      let url = codes "stratum+tcp://" ++ (host ++ (b':' ∷ print_int port)) in
      elim (Bool-cases (eq_int port (pos 0))) [
        | inl e ↦ rw e h
        | inr e ↦ rw e (
            disconnect-IsSized (record s { sctx = record (s.sctx) { url = url } })
              (moved-IsSized url))
      ]

  shown-Sized : (id : Option Json) (t : Session) → IsSized t.sctx → IsSized (shown env id t).0.sctx
  unfolding shown answer say
  shown-Sized id t k = elim (Bool-cases (no_value id)) [ inl e ↦ rw e k | inr e ↦ rw e k ]

  set_height-Sized :
      (id : Option Json) (n : Option ℕ) → Sized true (shown_to env id (set_height n s))
  unfolding shown_to set_height Sized
  set_height-Sized id none = refl
  set_height-Sized id (some n) = elim (Bool-cases (n == 0)) [
    | inl e ↦ rw e (shown-Sized id s h)
    | inr e ↦ rw e (shown-Sized id _ (record { first = h.first; second = h.second }))
  ]

  read_height-Sized :
      (id : Option Json) (t : Option (List ℕ)) → Sized true (shown_to env id (read_height t s))
  unfolding read_height shown_to Sized
  read_height-Sized id none = shown-Sized id s h
  read_height-Sized id (some t) = set_height-Sized id (scan_height t)

  show_message-Sized :
      (id : Option Json) (params : List Json) → Sized true (stratum_show_message env id params s)
  unfolding stratum_show_message verus_stratum_show_message
  show_message-Sized id params =
      Sized-if true s.sctx.is_equihash _ _ (read_height-Sized id (string_at params 0))
        (some-Sized true (shown env id s) (shown-Sized id s h))

  on_sctx-Sized :
      (c : Stratum) (r : Option (Stratum × Bool))
      → IsSized c
      → Leaves c r
      → Sized true (on_sctx? s r)
  unfolding Sized Leaves
  on_sctx-Sized c none k l = refl
  on_sctx-Sized c (some (t, ret)) k l = IsSized-same c t l k

  restarted-Sized : (r : Option (Session × Bool)) → Sized true r → Sized true (restarted env r)
  unfolding Sized
  restarted-Sized none k = k
  restarted-Sized (some (t, ret)) k = k

  -- Every call of the pool keeps an extranonce whose sizes are right, or crashes, and only
  -- mining.notify, mining.set_target and client.show_message may crash.
  pub dispatch-Sized :
      (m : Method) (id : Option Json) (params : List Json)
      → Sized (may_crash m) (dispatch env m id params s)
  unfolding dispatch may_crash
  dispatch-Sized notify id params =
      restarted-Sized _ (
        on_sctx-Sized s.sctx _ h (notify-Leaves env.fresh s.sctx env.now env.stack env.algo params))
  dispatch-Sized ping id params = some-Sized false _ (pong-Sized id)
  dispatch-Sized set_difficulty id params =
      some-Sized false _ (IsSized-same s.sctx _ (set_difficulty-SameNonce s.sctx env.fp params) h)
  dispatch-Sized set_target id params =
      on_sctx-Sized _ _ (record { first = h.first; second = h.second })
        (set_target-Leaves (record (s.sctx) { is_equihash = true }) env.fp env.junk env.stack
          params)
  dispatch-Sized set_extranonce id params =
      some-Sized false _ (parse_extranonce-IsSized env.algo params 0 s.sctx h)
  dispatch-Sized reconnect id params =
      some-Sized false _ (reconnect_to-Sized (string_at params 0) (port_of (get_elem? params 1)))
  dispatch-Sized get_algo id params = some-Sized false _ (get_algo-Sized id)
  dispatch-Sized get_stats id params = some-Sized false _ (get_stats-Sized id)
  dispatch-Sized get_version id params = some-Sized false _ (get_version-Sized id)
  dispatch-Sized show_message id params = show_message-Sized id params
  dispatch-Sized unknown id params = some-Sized false _ (unknown-Sized id)

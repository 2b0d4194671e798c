-- ===== src/Worker/Commands.antt =====
-- What a thread that asked for work finds in its queue.
use ccminer.Common.{
  either_arm, ℕ, ◌≡◌, ◌≢◌, ◌⊎◌, ◌+◌, refl, ap, ◌∙◌, true, false, Option, none, some, List, [], ◌∷◌,
  ◌++◌, arith, ltb, not, ◌&&◌, Bool-cases, inl, inr,
}
use ccminer.Pools.{Miner, pool_get_first_valid}
use ccminer.Pools.Change.{pool_switch_next}
use ccminer.Bench.{update}
use ccminer.Queue.{ThreadQ, Wait, no_wait, tq_push, tq_pop}
use ccminer.Work.{Work}
use ccminer.Worker.{
  Command, wc_get_work, Queues, put, Worker, Pass, Options, Step, next, ends, Retry, succeeded,
  left_pool, gave_up, trying, retry, work_sent, workio_get_work, process, processed, failover,
  popped, workio_pass, crash, goes_on, push_command, get_work, asks_work, got_work, switch_work,
  after_switch, waited, no_entry,
}

-- The queue of a thread has one entry more, at its end.
Longer : ℕ → Queues → Queues → Type 0
Longer thr old new = (entry : Option Work) × ((new.thr_q thr).q ≡ (old.thr_q thr).q ++ entry ∷ [])

-- Where the worker goes on, the entry is there; the program does not crash.
pub Served : ℕ → Queues → Step → Type 0
Served thr qs (next w) = Longer thr qs w.qs
Served thr qs crash = (true ≡ false)
Served thr qs goes_on = Unit {0}
Served thr qs (ends w) = Unit {0}

update-other :
    (f : ℕ → ThreadQ (Option Work)) (q : ThreadQ (Option Work)) (thr : ℕ)
    → thr ≢ 0
    → update f 0 q thr ≡ f thr
update-other f q thr h = ground arith

-- The first thread's queue is the only one that its get_work takes an entry from.
get_work-other :
    (thr pooln : ℕ) (wait : Wait (Option Work)) (work : Work) (qs : Queues)
    → thr ≢ 0
    → (get_work 0 pooln wait work qs).0.thr_q thr ≡ qs.thr_q thr
unfolding get_work push_command tq_push
get_work-other thr pooln wait work qs h = elim (Bool-cases qs.work_q.frozen) [
  | inl shut ↦ rw shut refl
  | inr thaw ↦ rw thaw (update-other qs.thr_q (tq_pop wait (qs.thr_q 0)).1 thr h)
]

put-Longer :
    (thr : ℕ) (entry : Option Work) (qs : Queues)
    → (qs.thr_q thr).frozen ≡ false
    → Longer thr qs (put thr entry qs)
unfolding Longer tq_push
put-Longer thr entry qs thawed = (entry, ground arith)

module _ (o : Options) (p : Pass) (m : Miner) (thr : ℕ) (qs : Queues)
    (thawed : (qs.thr_q thr).frozen ≡ false) (apart : (thr ≢ 0) ⊎ (asks_work m ≡ false)) where
  Longer-from : (new : Queues) → new.thr_q thr ≡ qs.thr_q thr → Longer thr qs (put thr none new)
  unfolding Longer
  Longer-from new same =
      let (entry, e) = put-Longer thr none new (rw same thawed) in
      (entry, e ∙ ap (λ q. q.q ++ entry ∷ []) same)

  after_switch-Served :
      (new : Queues) (fetch : Work → Work)
      → new.thr_q thr ≡ qs.thr_q thr
      → Served thr qs (after_switch o p m thr (some (new, fetch)))
  unfolding after_switch Served
  after_switch-Served new fetch same =
      either_arm (Served thr qs) (pool_switch_next o.fp fetch p.now m).1
        (next (record { qs = put thr none new; miner = (pool_switch_next o.fp fetch p.now m).0 }))
        (ends (record { qs = put thr none new; miner = (pool_switch_next o.fp fetch p.now m).0 }))
        (Longer-from new same) tt

  got-Served :
      (wait : Wait (Option Work))
      → thr ≢ 0
      → Served thr qs (after_switch o p m thr (some (got_work m qs wait)))
  unfolding got_work
  got-Served wait h =
      after_switch-Served _ _
        (get_work-other thr (pool_get_first_valid (m.cur_pooln + 1) m) wait m.g_work qs h)

  waited-Served :
      (first_wait : Option (Wait (Option Work)))
      → thr ≢ 0
      → Served thr qs (after_switch o p m thr (waited m qs first_wait))
  unfolding waited after_switch Served
  waited-Served (some wait) h = got-Served wait h
  waited-Served none h =
      either_arm (λ r. Served thr qs (after_switch o p m thr r))
        (no_entry (qs.thr_q 0).q && not qs.work_q.frozen) none (some (got_work m qs no_wait))
        blocked (got-Served no_wait h)
    where
      blocked : Served thr qs (after_switch o p m thr none)
      blocked = tt

  failover-Served : Served thr qs (failover o p (record { qs = qs; miner = m }) (some thr))
  unfolding failover switch_work
  failover-Served = elim apart [
    | inl other ↦
        either_arm (λ r. Served thr qs (after_switch o p m thr r)) (asks_work m)
          (waited m qs p.first_wait) (some (qs, λ g_work. g_work))
          (waited-Served p.first_wait other) (after_switch-Served qs (λ g_work. g_work) refl)
    | inr still ↦ rw still (after_switch-Served qs (λ g_work. g_work) refl)
  ]

  sent-Served : (r : Retry Work) → Served thr qs (processed o p m (some thr, work_sent thr qs r))
  unfolding processed work_sent Served
  sent-Served (succeeded work) = put-Longer thr (some work) qs thawed
  sent-Served left_pool = put-Longer thr none qs thawed
  sent-Served gave_up =
      either_arm (Served thr qs) (ltb 1 m.num_pools && o.opt_pool_failover)
        (failover o p (record { qs = qs; miner = m }) (some thr))
        (ends (record { qs = qs; miner = m })) failover-Served tt
  sent-Served trying = tt

-- A thread that asks for work gets exactly one entry in its queue, work or NULL, in the pass that
-- takes its request, if the worker goes on after it, and the pass does not crash. The request is
-- the first in the worker's queue, and the thread's own queue is not frozen. The thread is not the
-- first one, or the pool that a failover would go to brings no work by longpoll: the switch to such
-- a pool asks for work itself, in the first thread's name.
pub workio_pass-Served :
    (o : Options) (p : Pass) (w : Worker) (thr pooln : ℕ) (rest : List Command)
    → w.qs.work_q.q ≡ wc_get_work thr pooln ∷ rest
    → (w.qs.thr_q thr).frozen ≡ false
    → (thr ≢ 0) ⊎ (asks_work w.miner ≡ false)
    → Served thr w.qs (workio_pass o p w)
unfolding workio_pass tq_pop popped process workio_get_work Served Longer
workio_pass-Served o p w thr pooln rest e thawed apart =
    let qs : Queues = record (w.qs) { work_q = record (w.qs.work_q) { q = rest } } in
    rw e (sent-Served o p w.miner thr qs thawed apart (retry o.opt_retries 0 p.fetched))

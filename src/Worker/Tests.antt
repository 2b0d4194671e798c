-- ===== src/Worker/Tests.antt =====
-- Runs of the worker's commands.
use ccminer.Common.{◌≢◌, refl, inl, true, false, none, List, [], ◌∷◌, arith}
use ccminer.Common.Int.{pos}
use ccminer.Fixtures.{naturals, a_work, a_miner}
use ccminer.Queue.{no_wait}
use ccminer.Work.{Work}
use ccminer.Worker.{
  Attempt, Queues, wc_get_work, Worker, Pass, Options, workio_get_work, workio_submit_work,
  workio_pass,
}
use ccminer.Worker.Commands.{Served, workio_pass-Served}
use ccminer.Worker.Retries.{refusals, answered_by, loops_end}

abbrev queues : Queues
queues = record {
  work_q = record { q = wc_get_work 1 0 ∷ []; frozen = false };
  thr_q = λ i. record { q = []; frozen = false };
}

abbrev refused : List (Attempt Work)
refused = refusals 2 []

abbrev unsent : List (Attempt (Unit {0}))
unsent = refusals 2 []

loops_end_example :
    (workio_get_work (pos 1) refused 1 queues ≢ none) × (workio_submit_work (pos 1) unsent ≢ none)
loops_end_example = loops_end 1 1 queues refused unsent (omega arith) (omega arith)

abbrev options : Options
options = record { fp = naturals; opt_retries = pos 1; opt_pool_failover = true }

abbrev a_pass : Pass
a_pass = record {
  abort_flag = false;
  wait = no_wait;
  first_wait = none;
  fetched = refusals 1 (answered_by a_work ∷ []);
  sent = [];
  now = 7;
}

abbrev a_worker : Worker
a_worker = record { qs = queues; miner = a_miner }

workio_pass-Served_example : Served 1 queues (workio_pass options a_pass a_worker)
workio_pass-Served_example =
    workio_pass-Served options a_pass a_worker 1 0 [] refl refl (inl (omega arith))

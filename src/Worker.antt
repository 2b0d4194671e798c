-- ===== src/Worker.antt =====
-- ccminer.cpp: the commands by which the miner threads ask the worker thread for work and for a
-- submission (get_work, submit_work, workio_abort), and that thread (workio_get_work,
-- workio_submit_work, workio_thread). The two calls of the pool's server are given by what they
-- report. Allocation is taken to succeed.
pub mod Retries
pub mod Commands
mod Tests
use ccminer.Common.{
  ℕ, zero, suc, ◌+◌, ◌-◌, Bool, true, false, not, ◌&&◌, ◌||◌, Option, none, some, List, [], ◌∷◌,
  ltb, leb, ◌==◌, if◌then◌else◌,
}
use ccminer.Bench.{update}
use ccminer.Common.Int.{ℤ, pos, negsuc}
use ccminer.Float.{Arith}
use ccminer.Pools.{Pool, Miner, pool_get_first_valid, has_flag, pool_longpoll, pool_stratum}
use ccminer.Pools.Change.{pool_switch_next}
use ccminer.Queue.{ThreadQ, Wait, no_wait, tq_push, tq_pop, tq_freeze}
use ccminer.Work.{Work}

-- struct workio_cmd, with the number of the thread and of the pool.
pub data Command : Type 0 where
  wc_get_work : (thr pooln : ℕ) → Command
  wc_submit_work : (thr pooln : ℕ) → Work → Command
  wc_abort : Command

-- One round of a loop: what the call of the server gives, and whether the pool in use is another
-- one by then.
pub record Attempt {ℓ} (A : Type ℓ) : Type ℓ where
  pub answer : Option A
  pub moved : Bool

-- How a loop ends; `trying` has had all the rounds that are given, and goes on.
pub data Retry {ℓ} (A : Type ℓ) : Type ℓ where
  succeeded : A → Retry A
  left_pool gave_up trying : Retry A

-- `opt_retries >= 0 && ++failures > opt_retries`, after a failure more
abbrev pub exhausted : ℤ → ℕ → Bool
exhausted (pos n) failures = ltb n failures
exhausted (negsuc n) failures = false

after_attempt {ℓ} : {A : Type ℓ} → Option A → Bool → Bool → Retry A → Retry A
after_attempt (some x) moved over more = succeeded x
after_attempt none moved over more = if moved then left_pool else if over then gave_up else more

unfoldable pub retry {ℓ} : {A : Type ℓ} → ℤ → ℕ → List (Attempt A) → Retry A
unfolding after_attempt
retry opt_retries failures [] = trying
retry opt_retries failures (a ∷ attempts) =
    after_attempt a.answer a.moved (exhausted opt_retries (suc failures))
      (retry opt_retries (suc failures) attempts)

-- The queues of the worker and of the miner threads; a NULL entry is `none`.
pub record Queues : Type 0 where
  pub work_q : ThreadQ Command
  pub thr_q : ℕ → ThreadQ (Option Work)

abbrev pub put : ℕ → Option Work → Queues → Queues
put thr entry qs = record qs { thr_q = update qs.thr_q thr (tq_push entry (qs.thr_q thr)).0 }

-- The queues and the result; `none` is a loop that goes on.
work_sent : ℕ → Queues → Retry Work → Option (Queues × Bool)
work_sent thr qs (succeeded work) = some (put thr (some work) qs, true)
work_sent thr qs left_pool = some (put thr none qs, true)
work_sent thr qs gave_up = some (qs, false)
work_sent thr qs trying = none

-- The work is given the number of the command's pool before the calls of the server.
unfoldable pub workio_get_work : ℤ → List (Attempt Work) → ℕ → Queues → Option (Queues × Bool)
unfolding retry work_sent tq_push
workio_get_work opt_retries attempts thr qs = work_sent thr qs (retry opt_retries 0 attempts)

submitted : Retry (Unit {0}) → Option Bool
submitted (succeeded _) = some true
submitted left_pool = some true
submitted gave_up = some false
submitted trying = none

unfoldable pub workio_submit_work : ℤ → List (Attempt (Unit {0})) → Option Bool
unfolding retry submitted
workio_submit_work opt_retries attempts = submitted (retry opt_retries 0 attempts)

-- workio_abort and the two requests of the miner threads. A push onto a frozen queue fails.
unfoldable pub push_command : Command → Queues → Queues × Bool
unfolding tq_push
push_command wc qs = let (q, ok) = tq_push wc qs.work_q in (record qs { work_q = q }, ok)

unfoldable pub workio_abort : Queues → Queues
unfolding push_command
workio_abort qs = (push_command wc_abort qs).0

unfoldable pub submit_work : ℕ → ℕ → Work → Queues → Queues × Bool
unfolding push_command
submit_work thr pooln work qs = push_command (wc_submit_work thr pooln work) qs

-- The entry that a thread takes from its own queue: NULL is no work.
answered : Work → Option (Option Work) → Work × Bool
answered work none = (work, false)
answered work (some none) = (work, false)
answered work (some (some given)) = (given, true)

-- The work that is copied, or the old one; `wait` leaves the thread's queue as the worker does.
unfoldable pub get_work : ℕ → ℕ → Wait (Option Work) → Work → Queues → Queues × Work × Bool
unfolding push_command tq_pop answered
get_work thr cur_pooln wait work qs =
    let (asked, ok) = push_command (wc_get_work thr cur_pooln) qs in
    let (entry, q) = tq_pop wait (asked.thr_q thr) in
    let (given, found) = answered work entry in
    if ok
    then (record asked { thr_q = update asked.thr_q thr q }, given, found)
    else (asked, work, false)

-- What the worker thread holds, and what one pass of its loop is given. `first_wait` is the wait of a
-- switch of pools for the entry of the first thread; `none` is one that does not end.
pub record Worker : Type 0 where
  pub qs : Queues
  pub miner : Miner

pub record Pass : Type 0 where
  pub abort_flag : Bool
  pub wait : Wait Command
  pub first_wait : Option (Wait (Option Work))
  pub fetched : List (Attempt Work)
  pub sent : List (Attempt (Unit {0}))
  pub now : ℕ

-- The options that the loop reads.
pub record Options : Type 0 where
  pub fp : Arith
  pub opt_retries : ℤ
  pub opt_pool_failover : Bool

-- How a pass ends: the program crashes, a call goes on, the thread goes on, or it ends.
pub data Step : Type 0 where
  crash goes_on : Step
  next ends : Worker → Step

-- The switch on the command: the thread that asked, and what the handler gives.
process : Options → Pass → Command → Queues → Option ℕ × Option (Queues × Bool)
unfolding workio_get_work workio_submit_work
process o p (wc_get_work thr pooln) qs = (some thr, workio_get_work o.opt_retries p.fetched thr qs)
process o p (wc_submit_work thr pooln work) qs = (
  some thr,
  elim (workio_submit_work o.opt_retries p.sent) [ none ↦ none | some ok ↦ some (qs, ok) ],
)
process o p wc_abort qs = (none, some (qs, false))

-- The pool that a failover goes to is another one, whose work comes by longpoll: pool_switch calls
-- get_work for the first thread, on the worker's own thread.
unfoldable pub asks_work : Miner → Bool
unfolding pool_get_first_valid
asks_work m =
    let pooln = pool_get_first_valid (m.cur_pooln + 1) m in
    let p = m.pools pooln in
    ltb 1 m.num_pools
    && ltb pooln m.num_pools
    && not (pooln == m.cur_pooln)
    && (has_flag p.type pool_longpoll || not (has_flag p.type pool_stratum))

abbrev no_entry {ℓ} : {A : Type ℓ} → List A → Bool
no_entry [] = true
no_entry (x ∷ rest) = false

-- The queues after that call, and what it makes of g_work.
got_work : Miner → Queues → Wait (Option Work) → Queues × (Work → Work)
unfolding get_work pool_get_first_valid
got_work m qs wait =
    let pooln = pool_get_first_valid (m.cur_pooln + 1) m in
    ((get_work 0 pooln wait m.g_work qs).0, λ g_work. (get_work 0 pooln wait g_work qs).1)

-- `none` is a wait that does not end: the request is on the worker's own queue, and only the worker
-- serves the first thread.
waited : Miner → Queues → Option (Wait (Option Work)) → Option (Queues × (Work → Work))
unfolding got_work
waited m qs (some wait) = some (got_work m qs wait)
waited m qs none =
    if no_entry (qs.thr_q 0).q && not qs.work_q.frozen then none else some (got_work m qs no_wait)

switch_work : Pass → Miner → Queues → Option (Queues × (Work → Work))
unfolding asks_work waited
switch_work p m qs = if asks_work m then waited m qs p.first_wait else some (qs, λ g_work. g_work)

after_switch : Options → Pass → Miner → ℕ → Option (Queues × (Work → Work)) → Step
unfolding pool_switch_next
after_switch o p m thr none = goes_on
after_switch o p m thr (some (qs, fetch)) =
    let (miner, ok) = pool_switch_next o.fp fetch p.now m in
    let w : Worker = record { qs = put thr none qs; miner = miner } in if ok then next w else ends w

-- A command that fails may switch the pool; the thread that asked gets NULL, and one that is not
-- known is a NULL pointer.
failover : Options → Pass → Worker → Option ℕ → Step
unfolding after_switch switch_work
failover o p w none = crash
failover o p w (some thr) = after_switch o p w.miner thr (switch_work p w.miner w.qs)

processed : Options → Pass → Miner → Option ℕ × Option (Queues × Bool) → Step
unfolding failover
processed o p m (thr, none) = goes_on
processed o p m (thr, some (qs, true)) = next (record { qs = qs; miner = m })
processed o p m (thr, some (qs, false)) =
    let w : Worker = record { qs = qs; miner = m } in
    if ltb 1 m.num_pools && o.opt_pool_failover then failover o p w thr else ends w

popped : Options → Pass → Worker → Option Command × ThreadQ Command → Step
unfolding process processed
popped o p w (none, q) = ends (record w { qs = record (w.qs) { work_q = q } })
popped o p w (some wc, q) = processed o p w.miner (process o p wc (record (w.qs) { work_q = q }))

unfoldable pub workio_pass : Options → Pass → Worker → Step
unfolding popped tq_pop
workio_pass o p w = popped o p w (tq_pop p.wait w.qs.work_q)

frozen : Worker → Worker
unfolding tq_freeze
frozen w = record w { qs = record (w.qs) { work_q = tq_freeze w.qs.work_q } }

-- The loop, over the passes that it is given; the end freezes the queue.
after_pass : (Worker → Step) → Step → Step
unfolding frozen
after_pass again crash = crash
after_pass again goes_on = goes_on
after_pass again (next w) = again w
after_pass again (ends w) = ends (frozen w)

unfoldable pub workio_thread : Options → List Pass → Worker → Step
unfolding workio_pass after_pass frozen
workio_thread o [] w = next w
workio_thread o (p ∷ passes) w =
    let pass = after_pass (workio_thread o passes) (workio_pass o p w) in
    if p.abort_flag then ends (frozen w) else pass

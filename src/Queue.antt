-- ===== src/Queue.antt =====
-- util.cpp: struct thread_q, the queue by which the threads hand work to one another. Each function
-- holds the mutex throughout, so it is one step; only the wait of tq_pop lets other threads in.
-- `calloc` is taken to succeed.
pub mod Fifo
mod Tests
use ccminer.Common.{ℕ, Bool, true, false, Option, none, some, List, [], ◌∷◌, ◌++◌, if◌then◌else◌}

-- The entries from the head of the list on.
pub record ThreadQ {ℓ} (A : Type ℓ) : Type ℓ where
  pub q : List A
  pub frozen : Bool

-- The wait ends by a signal, or by an error or the time limit (`rc`); meanwhile the other threads
-- have left the queue as the second part.
abbrev pub Wait {ℓ} : Type ℓ → Type ℓ
Wait A = ThreadQ A → Bool × ThreadQ A

module _ {ℓ} {A : Type ℓ} where
  unfoldable pub tq_new : ThreadQ A
  tq_new = record { q = []; frozen = false }

  unfoldable pub tq_freezethaw : Bool → ThreadQ A → ThreadQ A
  tq_freezethaw frozen tq = record tq { frozen = frozen }

  unfoldable pub tq_freeze : ThreadQ A → ThreadQ A
  unfolding tq_freezethaw
  tq_freeze tq = tq_freezethaw true tq

  unfoldable pub tq_thaw : ThreadQ A → ThreadQ A
  unfolding tq_freezethaw
  tq_thaw tq = tq_freezethaw false tq

  -- list_add_tail
  unfoldable pub tq_push : A → ThreadQ A → ThreadQ A × Bool
  tq_push x tq = if tq.frozen then (tq, false) else (record tq { q = tq.q ++ x ∷ [] }, true)

  -- The label `pop`, or `out` where the list is empty.
  take_first : ThreadQ A → List A → Option A × ThreadQ A
  take_first tq [] = (none, tq)
  take_first tq (x ∷ rest) = (some x, record tq { q = rest })

  after_wait : Bool × ThreadQ A → Option A × ThreadQ A
  unfolding take_first
  after_wait (true, tq) = take_first tq tq.q
  after_wait (false, tq) = (none, tq)

  -- `none` is NULL.
  pop_or_wait : Wait A → ThreadQ A → List A → Option A × ThreadQ A
  unfolding after_wait
  pop_or_wait wait tq [] = after_wait (wait tq)
  pop_or_wait wait tq (x ∷ rest) = (some x, record tq { q = rest })

  unfoldable pub tq_pop : Wait A → ThreadQ A → Option A × ThreadQ A
  unfolding pop_or_wait
  tq_pop wait tq = pop_or_wait wait tq tq.q

-- What the threads do to a queue that nobody waits for.
pub data Event {ℓ} (A : Type ℓ) : Type ℓ where
  push : A → Event A
  pop : Event A
  freeze thaw : Event A

-- The entries that were accepted and those that were handed out, in order.
pub record Trace {ℓ} (A : Type ℓ) : Type ℓ where
  pub tq : ThreadQ A
  pub accepted : List A
  pub taken : List A

module _ {ℓ} {A : Type ℓ} where
  abbrev pub listed : Option A → List A
  listed none = []
  listed (some x) = x ∷ []

  -- A thread that finds the queue empty is woken by nothing and tries no more.
  abbrev pub no_wait : ThreadQ A → Bool × ThreadQ A
  no_wait tq = (false, tq)

  pub step : Trace A → Event A → Trace A
  step t (push x) =
      let (tq, ok) = tq_push x t.tq in
      record t { tq = tq; accepted = if ok then t.accepted ++ x ∷ [] else t.accepted }
  step t pop =
      let (x, tq) = tq_pop no_wait t.tq in record t { tq = tq; taken = t.taken ++ listed x }
  step t freeze = record t { tq = tq_freeze t.tq }
  step t thaw = record t { tq = tq_thaw t.tq }

  unfoldable pub run : Trace A → List (Event A) → Trace A
  unfolding step
  run t [] = t
  run t (e ∷ events) = run (step t e) events

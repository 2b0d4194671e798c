-- ===== src/Queue/Fifo.antt =====
-- The queue hands out what it accepted, in order, each entry once.
use mathlib.Core.List.{append_assoc, append-nil}
use ccminer.Common.{◌≡◌, refl, ap, sym, ◌∙◌, true, false, none, List, [], ◌∷◌, ◌++◌, arith}
use ccminer.Queue.{
  ThreadQ, Wait, tq_push, tq_pop, tq_freeze, tq_thaw, Event, push, pop, freeze, thaw, Trace, step,
  run,
}

module _ {ℓ} {A : Type ℓ} where
  -- What was handed out, then what still waits, is what was accepted.
  abbrev pub IsFifo : Trace A → Type ℓ
  IsFifo t = t.taken ++ t.tq.q ≡ t.accepted

  push-IsFifo :
      (x : A) (taken q accepted : List A)
      → taken ++ q ≡ accepted
      → taken ++ (q ++ x ∷ []) ≡ accepted ++ x ∷ []
  push-IsFifo x taken q accepted h = sym (append_assoc taken q (x ∷ [])) ∙ ap (λ l. l ++ x ∷ []) h

  pop-IsFifo :
      (x : A) (taken rest accepted : List A)
      → taken ++ x ∷ rest ≡ accepted
      → (taken ++ x ∷ []) ++ rest ≡ accepted
  pop-IsFifo x taken rest accepted h = append_assoc taken (x ∷ []) rest ∙ h

  step_pop : (t : Trace A) (q : List A) → t.tq.q ≡ q → IsFifo t → IsFifo (step t pop)
  unfolding step tq_pop
  step_pop t [] e h = ground (arith, append-nil t.taken)
  step_pop t (x ∷ rest) e h = ground (arith, pop-IsFifo x t.taken rest t.accepted)

  step-IsFifo : (t : Trace A) (e : Event A) → IsFifo t → IsFifo (step t e)
  unfolding step tq_push tq_freeze tq_thaw
  step-IsFifo t (push x) h = ground (arith, push-IsFifo x t.taken t.tq.q t.accepted)
  step-IsFifo t pop h = step_pop t t.tq.q refl h
  step-IsFifo t freeze h = h
  step-IsFifo t thaw h = h

  -- After any sequence of calls, the entries that were handed out, followed by those that still
  -- wait, are the entries that were accepted, in that order.
  pub run-IsFifo : (t : Trace A) (events : List (Event A)) → IsFifo t → IsFifo (run t events)
  unfolding run
  run-IsFifo t [] h = h
  run-IsFifo t (e ∷ events) h = run-IsFifo (step t e) events (step-IsFifo t e h)

  -- A frozen queue takes nothing and keeps what it has, until it is thawed again.
  pub frozen_refuses :
      (x : A) (tq : ThreadQ A)
      → (tq_push x (tq_freeze tq) ≡ (tq_freeze tq, false))
        × (tq_push x (tq_thaw (tq_freeze tq))
            ≡ (record tq { q = tq.q ++ x ∷ []; frozen = false }, true))
  unfolding tq_push tq_freeze tq_thaw
  frozen_refuses x tq = (refl, refl)

  -- A wait that ends while the queue is empty gives NULL, whether it was signalled or not.
  pub pop_woken_early :
      (wait : Wait A) (tq : ThreadQ A) → tq.q ≡ [] → (wait tq).1.q ≡ [] → (tq_pop wait tq).0 ≡ none
  unfolding tq_pop
  pop_woken_early wait tq empty still = ground arith

-- ===== src/Queue/Tests.antt =====
-- util.cpp: the theorems on the queue at a concrete run.
use ccminer.Common.{ℕ, refl, false, List, [], ◌∷◌}
use ccminer.Queue.{Trace, Event, run}
use ccminer.Queue.Fifo.{IsFifo, run-IsFifo}

abbrev start : Trace ℕ
start = record { tq = record { q = []; frozen = false }; accepted = []; taken = [] }

abbrev events : List (Event ℕ)
events = Event.push 5 ∷ Event.push 6 ∷ Event.pop ∷ Event.freeze ∷ Event.push 7 ∷ []

run-IsFifo_example : IsFifo (run start events)
run-IsFifo_example = run-IsFifo start events refl

-- ===== src/Worker/Retries.antt =====
-- When the loops on the pool's server end.
use native.Mathlib.Nat.{zero-add}
use ccminer.Common.{
  ℕ, zero, suc, ◌+◌, ◌≤◌, ◌≡◌, ◌≢◌, refl, Bool, true, false, Option, none, some, List, [], ◌∷◌,
  arith, ltb, leb, if◌then◌else◌, length,
}
use ccminer.Common.Int.{pos}
use ccminer.Worker.{
  Attempt, Retry, succeeded, left_pool, gave_up, trying, after_attempt, exhausted, retry, Queues,
  work_sent, submitted, workio_get_work, workio_submit_work,
}
use ccminer.Work.{Work}

-- The loop has ended.
abbrev pub is_over {ℓ} : {A : Type ℓ} → Retry A → Bool
is_over trying = false
is_over _ = true

after_attempt-over {ℓ} :
    {A : Type ℓ} (answer : Option A) (moved over : Bool) (more : Retry A)
    → (over ≡ false → is_over more ≡ true)
    → is_over (after_attempt answer moved over more) ≡ true
unfolding after_attempt
after_attempt-over (some x) moved over more h = refl
after_attempt-over none true over more h = refl
after_attempt-over none false true more h = refl
after_attempt-over none false false more h = h refl

not_over : (n failures : ℕ) → exhausted (pos n) failures ≡ false → failures ≤ n
not_over n failures h = ground arith

retry_over {ℓ} :
    {A : Type ℓ} (n failures : ℕ) (attempts : List (Attempt A))
    → suc n ≤ failures + length attempts
    → failures ≤ n
    → is_over (retry (pos n) failures attempts) ≡ true
unfolding retry
retry_over n failures [] k h = absurd (omega arith)
retry_over n failures (a ∷ attempts) k h =
    after_attempt-over a.answer a.moved (exhausted (pos n) (suc failures))
      (retry (pos n) (suc failures) attempts)
      (λ e. retry_over n (suc failures) attempts (omega arith) (not_over n (suc failures) e))

-- The rounds of a loop that the server refuses `n` times, before the answer of the next.
abbrev pub refusals {ℓ} : {A : Type ℓ} → ℕ → List (Attempt A) → List (Attempt A)
refusals zero attempts = attempts
refusals (suc n) attempts = record { answer = none; moved = false } ∷ refusals n attempts

abbrev pub answered_by {ℓ} : {A : Type ℓ} → A → Attempt A
answered_by x = record { answer = some x; moved = false }

module _ {ℓ} {A : Type ℓ} (x : A) (rest : List (Attempt A)) (n : ℕ) where
  limit :
      (k failures : ℕ) (r : Retry A)
      → (suc failures ≤ n → r ≡ (if leb (suc failures + k) n then succeeded x else gave_up))
      → (if ltb n (suc failures) then gave_up else r)
        ≡ (if leb (failures + suc k) n then succeeded x else gave_up)
  limit k failures r e = ground arith

  retry-refusals :
      (k failures : ℕ)
      → failures ≤ n
      → retry (pos n) failures (refusals k (answered_by x ∷ rest))
        ≡ (if leb (failures + k) n then succeeded x else gave_up)
  unfolding retry after_attempt
  retry-refusals zero failures h = ground arith
  retry-refusals (suc k) failures h =
      limit k failures (retry (pos n) (suc failures) (refusals k (answered_by x ∷ rest)))
        (retry-refusals k (suc failures))

work_sent-over :
    (thr : ℕ) (qs : Queues) (r : Retry Work) → is_over r ≡ true → work_sent thr qs r ≢ none
unfolding work_sent
work_sent-over thr qs (succeeded x) h = λ e. ground arith
work_sent-over thr qs left_pool h = λ e. ground arith
work_sent-over thr qs gave_up h = λ e. ground arith
work_sent-over thr qs trying h = λ e. ground arith

submitted-over : (r : Retry (Unit {0})) → is_over r ≡ true → submitted r ≢ none
unfolding submitted
submitted-over (succeeded x) h = λ e. ground arith
submitted-over left_pool h = λ e. ground arith
submitted-over gave_up h = λ e. ground arith
submitted-over trying h = λ e. ground arith

-- Both loops on the server end within one round more than opt_retries, if that is not negative.
pub loops_end :
    (n thr : ℕ) (qs : Queues) (fetched : List (Attempt Work)) (sent : List (Attempt (Unit {0})))
    → suc n ≤ length fetched
    → suc n ≤ length sent
    → (workio_get_work (pos n) fetched thr qs ≢ none) × (workio_submit_work (pos n) sent ≢ none)
unfolding workio_get_work workio_submit_work
loops_end n thr qs fetched sent hf hs = (
  work_sent-over thr qs (retry (pos n) 0 fetched)
      (retry_over n 0 fetched (omega arith) (omega arith)),
  submitted-over (retry (pos n) 0 sent) (retry_over n 0 sent (omega arith) (omega arith)),
)

-- A submission that the server refuses `k` times, while the pool stays, and then takes is done
-- exactly if `k` is at most opt_retries; beyond that the loop has given up.
pub submit_refusals :
    (n k : ℕ) (rest : List (Attempt (Unit {0})))
    → workio_submit_work (pos n) (refusals k (answered_by tt ∷ rest)) ≡ some (leb k n)
unfolding workio_submit_work submitted
submit_refusals n k rest =
    rw (retry-refusals tt rest n k 0 (omega arith), zero-add) (by_test (leb k n))
  where
    by_test : (b : Bool) → submitted (if b then succeeded tt else gave_up) ≡ some b
    by_test true = refl
    by_test false = refl

-- ===== src/Limits/Waits.antt =====
-- How long wanna_mine has a thread wait.
use ccminer.Common.{
  ℕ, ◌≡◌, refl, ap, ◌∙◌, Bool, true, false, ◌&&◌, ◌||◌, List, [], ◌∷◌, arith, if◌then◌else◌,
}
use ccminer.Bench.{update}
use ccminer.Float.{Double}
use ccminer.Pools.{Miner}
use ccminer.Limits.{Resume, Mining, is_positive, is_high, is_held, has_to_wait, wanna_mine}

-- What the network shows at one call: its difficulty and its hash rate.
abbrev pub Sample : Type 0
Sample = Double × ℕ

abbrev pub sampled : Sample → Mining → Mining
sampled (diff, rate) g = record g {
  miner = record (g.miner) { net_diff = diff };
  net_hashrate = rate;
}

-- The calls of one thread, the newest first.
unfoldable pub after : Resume → ℕ → List Sample → Mining → Mining
after o thr_id [] g = g
after o thr_id (x ∷ older) g = (wanna_mine o thr_id (sampled x (after o thr_id older g))).0

-- One of the two is beyond its limit.
unfoldable pub beyond : Resume → Miner → Sample → Bool
beyond o m (diff, rate) =
    is_high o.fp m.opt_max_diff diff || is_high o.fp m.opt_max_rate (o.fp.of_int rate)

-- One of the two, whose limit is set, has not come down to where mining resumes.
unfoldable pub above : Resume → Miner → Sample → Bool
above o m (diff, rate) =
    (is_positive o.fp m.opt_max_diff
      && is_positive o.fp o.opt_resume_diff
      && o.fp.lt o.opt_resume_diff diff)
    || (is_positive o.fp m.opt_max_rate
        && is_positive o.fp o.opt_resume_rate
        && o.fp.lt o.opt_resume_rate (o.fp.of_int rate))

-- The newest sample that is beyond a limit, or not above, decides.
unfoldable pub decided : Resume → Miner → List Sample → Bool → Bool
unfolding beyond above
decided o m [] first = first
decided o m (x ∷ older) first =
    let before = decided o m older first in
    if beyond o m x then true else if above o m x then before else false

-- The calls keep the pool's limits.
record SameLimits (m n : Miner) : Type 0 where
  diff : n.opt_max_diff ≡ m.opt_max_diff
  rate : n.opt_max_rate ≡ m.opt_max_rate

after-SameLimits :
    (o : Resume) (thr_id : ℕ) (samples : List Sample) (g : Mining)
    → SameLimits g.miner (after o thr_id samples g).miner
unfolding after wanna_mine
after-SameLimits o thr_id [] g = record { diff = refl; rate = refl }
after-SameLimits o thr_id (x ∷ older) g =
    let h = after-SameLimits o thr_id older g in record { diff = h.diff; rate = h.rate }

by_tests :
    (waiting a b c d e f g h : Bool)
    → (a && b) || (a && c && waiting && d) || (e && f) || (e && g && waiting && h) ≡ (
        if (a && b) || (e && f)
        then true
        else if (a && c && d) || (e && g && h)
        then waiting
        else false)
by_tests waiting true b c d e f g h = ground arith
by_tests waiting false b c d e f g h = ground arith

update-at : (f : ℕ → Bool) (i : ℕ) (b : Bool) → update f i b i ≡ b
update-at f i b = ground arith

-- One decision, from what the last one was.
step :
    (o : Resume) (waiting : Bool) (m : Miner) (x : Sample)
    → has_to_wait o waiting x.1 (record m { net_diff = x.0 })
      ≡ (if beyond o m x then true else if above o m x then waiting else false)
unfolding has_to_wait beyond above is_held
step o waiting m (diff, rate) =
    by_tests waiting (is_positive o.fp m.opt_max_diff) (o.fp.lt m.opt_max_diff diff)
      (is_positive o.fp o.opt_resume_diff) (o.fp.lt o.opt_resume_diff diff)
      (is_positive o.fp m.opt_max_rate) (o.fp.lt m.opt_max_rate (o.fp.of_int rate))
      (is_positive o.fp o.opt_resume_rate) (o.fp.lt o.opt_resume_rate (o.fp.of_int rate))

-- Miners with the same limits decide alike.
decision_same :
    (o : Resume) (m n : Miner) (x : Sample) (waiting : Bool)
    → SameLimits m n
    → (if beyond o n x then true else if above o n x then waiting else false)
      ≡ (if beyond o m x then true else if above o m x then waiting else false)
unfolding beyond above
decision_same o m n (diff, rate) waiting h = rw (h.diff, h.rate) refl

-- Over any calls of a thread, the newest sample that is beyond a limit, or above no level where
-- mining resumes, decides whether the thread waits; before the first such sample it goes on as it
-- was.
pub after-decided :
    (o : Resume) (thr_id : ℕ) (samples : List Sample) (g : Mining)
    → (after o thr_id samples g).miner.conditional_state thr_id
      ≡ decided o g.miner samples (g.miner.conditional_state thr_id)
unfolding after decided wanna_mine
after-decided o thr_id [] g = refl
after-decided o thr_id (x ∷ older) g =
    let before : Mining = after o thr_id older g in
    let waiting : Bool = before.miner.conditional_state thr_id in
    update-at before.miner.conditional_state thr_id
      (has_to_wait o waiting x.1 (record (before.miner) { net_diff = x.0 }))
    ∙ step o waiting before.miner x
    ∙ decision_same o g.miner before.miner x waiting (after-SameLimits o thr_id older g)
    ∙ ap (λ w. if beyond o g.miner x then true else if above o g.miner x then w else false)
        (after-decided o thr_id older g)

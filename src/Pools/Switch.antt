-- ===== src/Pools/Switch.antt =====
-- What a switch of pools changes.
use ccminer.Common.{
  ℕ, ◌+◌, ◌≤◌, ◌<◌, ◌≡◌, ◌≢◌, List, refl, sym, ap, ◌∙◌, Bool, true, false, arith, ltb, ◌==◌, ==_iff,
  if◌then◌else◌, Bool-cases, inl, inr,
}
use ccminer.Common.Int.{ℤ, pos, eq_int, eq_int_iff}
use ccminer.Algos.{ShaAlgos, to_int}
use ccminer.Float.{Arith}
use ccminer.Bench.{update}
use ccminer.Pools.{Miner, Pool, has_flag, pool_stratum}
use ccminer.Pools.Change.{
  pool_switch, save_stratum, save_flags, load_options, switch_algo, enter_pool, join_stratum,
  join_longpoll,
}
use ccminer.Stratum.{stratum_free_job}
use ccminer.Work.{Work}

-- What the rest of the miner uses of the current pool.
pub record InUse : Type 0 where
  pub cur_pooln : ℕ
  pub url : List ℕ
  pub user : List ℕ
  pub pass : List ℕ
  pub algo : ℤ
  pub have_stratum : Bool

abbrev pub in_use : Miner → InUse
in_use m = record {
  cur_pooln = m.cur_pooln;
  url = m.rpc_url;
  user = m.rpc_user;
  pass = m.rpc_pass;
  algo = m.opt_algo;
  have_stratum = m.have_stratum;
}

-- The globals of a miner that works for the pool `p` of number `pooln`.
abbrev pub of_pool : ℕ → Pool → InUse
of_pool pooln p = record {
  cur_pooln = pooln;
  url = p.url;
  user = p.user;
  pass = p.pass;
  algo = p.algo;
  have_stratum = has_flag p.type pool_stratum;
}

-- Both arms of a test have a property.
both_arms : (P : Miner → Type 0) (t : Bool) {a b : Miner} → P a → P b → P (if t then a else b)
both_arms P t {a} {b} x y = elim t as (λ t. P (if t then a else b)) [ true ↦ x | false ↦ y ]

options-in_use :
    (fp : Arith) (p : Pool) (m : Miner)
    → in_use (switch_algo fp p (load_options p m)) ≡ of_pool m.cur_pooln p
unfolding switch_algo load_options
options-in_use fp p m = elim (Bool-cases (eq_int p.algo m.opt_algo)) [
  | inl same ↦
      rw same
        (ap (λ a. record (of_pool m.cur_pooln p) { algo = a }) (sym ((eq_int_iff _ _).0 same)))
  | inr other ↦ rw other (both_arms (λ r. in_use r ≡ of_pool m.cur_pooln p) _ refl refl)
]

options-count :
    (fp : Arith) (p : Pool) (m : Miner)
    → (switch_algo fp p (load_options p m)).pool_switch_count ≡ m.pool_switch_count
unfolding switch_algo load_options
options-count fp p m = elim (Bool-cases (eq_int p.algo m.opt_algo)) [
  | inl same ↦ rw same refl
  | inr other ↦ rw other (elim (Bool-cases (eq_int m.opt_algo (pos (to_int ShaAlgos.auto)))) [
    | inl automatic ↦ rw automatic refl
    | inr chosen ↦ rw chosen refl
  ])
]

-- Joining a pool changes nothing of that, and counts the switch.
enter_pool-in_use :
    (fp : Arith) (fetch : Work → Work) (now : ℕ) (p : Pool) (m : Miner)
    → (in_use (enter_pool fp fetch now p m) ≡ in_use m)
      × ((enter_pool fp fetch now p m).pool_switch_count ≡ m.pool_switch_count + 1)
      × ((enter_pool fp fetch now p m).stratum_need_reset ≡ true)
unfolding enter_pool join_stratum join_longpoll
enter_pool-in_use fp fetch now p m = elim (Bool-cases m.want_stratum) [
  | inl want ↦ rw want (
      both_arms
        (λ r.
          (in_use r ≡ in_use m)
          × (r.pool_switch_count ≡ m.pool_switch_count + 1)
          × (r.stratum_need_reset ≡ true))
        _ (refl, refl, refl) (refl, refl, refl))
  | inr unwanted ↦ rw unwanted (
      both_arms
        (λ r.
          (in_use r ≡ in_use m)
          × (r.pool_switch_count ≡ m.pool_switch_count + 1)
          × (r.stratum_need_reset ≡ true))
        _ (refl, refl, refl) (refl, refl, refl))
]

-- An entry that is replaced by one of the same part has that part still.
update_part :
    (part : Pool → InUse) (pools : ℕ → Pool) (k : ℕ) (p : Pool)
    → part p ≡ part (pools k)
    → (i : ℕ) → part (update pools k p i) ≡ part (pools i)
update_part part pools k p same i = elim (Bool-cases (i == k)) [
  | inl here ↦ rw here (same ∙ ap (λ j. part (pools j)) (sym ((==_iff i k).0 here)))
  | inr away ↦ rw away refl
]

saved-pool :
    (n : ℕ) (m : Miner) (i : ℕ) → of_pool n ((save_stratum m).pools i) ≡ of_pool n (m.pools i)
unfolding save_stratum
saved-pool n m i = elim (Bool-cases (has_flag (m.pools m.cur_pooln).type pool_stratum)) [
  | inl stratum ↦ rw stratum (
      update_part (of_pool n) m.pools m.cur_pooln
        (record (m.pools m.cur_pooln) { stratum = stratum_free_job m.stratum }) refl i)
  | inr other ↦ rw other refl
]

saved-in_use :
    (m : Miner)
    → (in_use (save_stratum m) ≡ in_use m)
      × ((save_stratum m).pool_switch_count ≡ m.pool_switch_count)
unfolding save_stratum
saved-in_use m =
    both_arms (λ r. (in_use r ≡ in_use m) × (r.pool_switch_count ≡ m.pool_switch_count)) _
      (refl, refl) (refl, refl)

saved-stratum :
    (m : Miner)
    → has_flag (m.pools m.cur_pooln).type pool_stratum ≡ true
    → (save_stratum m).stratum ≡ stratum_free_job m.stratum
unfolding save_stratum
saved-stratum m is_stratum = rw is_stratum refl

flagged-pool :
    (n prevn : ℕ) (m : Miner) (i : ℕ)
    → of_pool n ((save_flags prevn m).pools i) ≡ of_pool n (m.pools i)
unfolding save_flags
flagged-pool n prevn m i = update_part (of_pool n) m.pools prevn _ refl i

flagged-count :
    (prevn : ℕ) (m : Miner)
    → ((save_flags prevn m).pool_switch_count ≡ m.pool_switch_count)
      × ((save_flags prevn m).cur_pooln ≡ m.cur_pooln)
unfolding save_flags
flagged-count prevn m = (refl, refl)

-- The miner after the options of the pool are loaded.
abbrev loaded : Arith → ℕ → Miner → Miner
loaded fp pooln m =
    let moved = save_flags m.cur_pooln (record (save_stratum m) { cur_pooln = pooln }) in
    let p = moved.pools pooln in switch_algo fp p (load_options p moved)

loaded-in_use :
    (fp : Arith) (pooln : ℕ) (m : Miner)
    → (in_use (loaded fp pooln m) ≡ of_pool pooln (m.pools pooln))
      × ((loaded fp pooln m).pool_switch_count ≡ m.pool_switch_count)
loaded-in_use fp pooln m =
    let start : Miner = record (save_stratum m) { cur_pooln = pooln } in
    let moved : Miner = save_flags m.cur_pooln start in
    let p : Pool = moved.pools pooln in
    (
      options-in_use fp p moved
          ∙ ap (λ n. of_pool n p) (flagged-count m.cur_pooln start).1
          ∙ flagged-pool pooln m.cur_pooln start pooln
          ∙ saved-pool pooln m pooln,
      options-count fp p moved ∙ (flagged-count m.cur_pooln start).0 ∙ (saved-in_use m).1,
    )

module _ (fp : Arith) (fetch : Work → Work) (now pooln : ℕ) (m : Miner) where
  -- A switch to a pool of the table succeeds, and the globals are then those of that pool: its
  -- number, address, credentials and algorithm, with a stratum connection exactly if it is a
  -- stratum pool. A pool other than the current one counts as one switch more, and asks for a new
  -- connection; the current pool leaves the count.
  pub pool_switch_lem :
      pooln < m.num_pools
      → ((pool_switch fp fetch now pooln m).1 ≡ true)
        × (in_use (pool_switch fp fetch now pooln m).0 ≡ of_pool pooln (m.pools pooln))
        × (m.cur_pooln ≢ pooln
            → ((pool_switch fp fetch now pooln m).0.pool_switch_count ≡ m.pool_switch_count + 1)
              × ((pool_switch fp fetch now pooln m).0.stratum_need_reset ≡ true))
        × (m.cur_pooln ≡ pooln
            → (pool_switch fp fetch now pooln m).0.pool_switch_count ≡ m.pool_switch_count)
  unfolding pool_switch
  pool_switch_lem below =
      let inside : ltb pooln m.num_pools ≡ true = ground arith in
      let now_in = loaded-in_use fp pooln m in
      let joined =
        enter_pool-in_use fp fetch now
          ((save_flags m.cur_pooln (record (save_stratum m) { cur_pooln = pooln })).pools pooln)
          (loaded fp pooln m) in
      elim (Bool-cases (m.cur_pooln == pooln)) [
        | inl same ↦
            rw (inside, same)
              (refl, now_in.0, (λ apart. absurd (apart ((==_iff _ _).0 same))), λ _. now_in.1)
        | inr other ↦
            rw (inside, other)
              (
                refl,
                joined.0 ∙ now_in.0,
                (λ _. (joined.1 ∙ ap (λ n. n + 1) now_in.1, joined.2)),
                λ meets. grind arith,
              )
      ]

  -- A switch to a number outside the table fails and leaves the globals in use and the count, yet a
  -- stratum pool has lost its job by then.
  pub pool_switch_fails :
      m.num_pools ≤ pooln
      → ((pool_switch fp fetch now pooln m).1 ≡ false)
        × (in_use (pool_switch fp fetch now pooln m).0 ≡ in_use m)
        × ((pool_switch fp fetch now pooln m).0.pool_switch_count ≡ m.pool_switch_count)
        × (has_flag (m.pools m.cur_pooln).type pool_stratum ≡ true
            → (pool_switch fp fetch now pooln m).0.stratum ≡ stratum_free_job m.stratum)
  unfolding pool_switch
  pool_switch_fails out =
      let outside : ltb pooln m.num_pools ≡ false = ground arith in
      rw outside (refl, (saved-in_use m).0, (saved-in_use m).1, saved-stratum m)

-- ===== src/Session/Notify/Coinbase.antt =====
-- The coinbase that a job notification builds.
use mathlib.Core.List.{append_assoc}
use ccminer.Common.{
  ℕ, ◌+◌, ◌/◌, ◌≡◌, refl, ap, sym, ◌∙◌, Bool, true, false, List, [], ◌++◌, arith, length,
  length-append, length-replicate, replicate, if◌then◌else◌,
}
use ccminer.Common.Memory.{write_at, write_at-inside, write_at-end, resize, length-resize, split_at}
use ccminer.Hex.{bin2hex}
use ccminer.Hex.RoundTrip.{AreBytes, hex2bin-bin2hex, length-bin2hex}
use ccminer.Stratum.{Stratum}
use ccminer.Stratum.Verus.{same_id}
use ccminer.Session.Notify.{JobFields, coinbase_of}

-- Writes into the third and into the last part of a buffer.
write_third :
    (i : ℕ) (m x bytes old rest : List ℕ)
    → i ≡ length m + length x
    → length bytes ≡ length old
    → write_at i bytes (m ++ (x ++ (old ++ rest))) ≡ m ++ (x ++ (bytes ++ rest))
write_third i m x bytes old rest at fits = rw (← append_assoc m x (old ++ rest)) (
    write_at-inside i (m ++ x) bytes old rest (at ∙ sym (length-append m x)) fits
    ∙ append_assoc m x (bytes ++ rest))

write_last :
    (i : ℕ) (m x t bytes old : List ℕ)
    → i ≡ length m + length x + length t
    → length bytes ≡ length old
    → write_at i bytes (m ++ (x ++ (t ++ old))) ≡ m ++ (x ++ (t ++ bytes))
write_last i m x t bytes old at fits =
    let regroup =
      λ (l : List ℕ). append_assoc m (x ++ t) l ∙ ap (λ r. m ++ r) (append_assoc x t l) in
    rw (← regroup old) (
      write_at-end i (m ++ (x ++ t)) bytes old
        (omega (arith, length-append m (x ++ t), length-append x t)) fits
      ∙ regroup bytes)

-- The second nonce of the old buffer, or zeros.
abbrev pub kept_or_cleared : Bool → List ℕ → ℕ → List ℕ
kept_or_cleared same old n = if same then old else replicate n 0

nonce_part :
    (same : Bool) (i n : ℕ) (m x c d : List ℕ)
    → i ≡ length m + length x
    → length c ≡ n
    → (if same then m ++ (x ++ (c ++ d)) else write_at i (replicate n 0) (m ++ (x ++ (c ++ d))))
      ≡ m ++ (x ++ (kept_or_cleared same c n ++ d))
nonce_part true i n m x c d at lc = refl
nonce_part false i n m x c d at lc =
    write_third i m x (replicate n 0) c d at (length-replicate n 0 ∙ sym lc)

length-kept_or_cleared :
    (same : Bool) (c : List ℕ) (n : ℕ) → length c ≡ n → length (kept_or_cleared same c n) ≡ n
length-kept_or_cleared true c n h = h
length-kept_or_cleared false c n h = length-replicate n 0

writes :
    (same : Bool) (m x r base : List ℕ) (k n : ℕ)
    → length x ≡ k
    → length base ≡ length m + (k + (n + length r))
    → (c : List ℕ) × (length c ≡ n)
      × (write_at (length m + k + n) r (
            if same
            then write_at (length m) x (write_at 0 m base)
            else write_at
                (length m + k)
                (replicate n 0)
                (write_at (length m) x (write_at 0 m base)))
          ≡ m ++ (x ++ (kept_or_cleared same c n ++ r)))
writes same m x r base k n sized whole =
    let (a, bcd, ea, la, lbcd) = split_at (length m) (k + (n + length r)) base whole in
    let (b, cd, eb, lb, lcd) = split_at k (n + length r) bcd lbcd in
    let (c, d, ec, lc, ld) = split_at n (length r) cd lcd in
    let cut : base ≡ a ++ (b ++ (c ++ d)) = ea ∙ ap (λ l. a ++ l) (eb ∙ ap (λ l. b ++ l) ec) in
    let first : write_at 0 m base ≡ m ++ (b ++ (c ++ d)) =
      rw cut (write_at-inside 0 [] m a (b ++ (c ++ d)) refl (sym la)) in
    let nonced : write_at (length m) x (write_at 0 m base) ≡ m ++ (x ++ (c ++ d)) =
      rw first (write_at-inside (length m) m x b (c ++ d) refl (sized ∙ sym lb)) in
    (
      c,
      lc,
      rw (nonced, nonce_part same (length m + k) n m x c d (omega (arith, sized)) lc)
          (write_last (length m + k + n) m x (kept_or_cleared same c n) r d
            (omega (arith, sized, length-kept_or_cleared same c n lc)) (sym ld)),
    )

-- The coinbase of a job is the first part that the pool sent, the extranonce, the second nonce and
-- the second part; where the job has a new name, the second nonce is all zeros. The parts are texts
-- of bytes, and the extranonce has its recorded size.
pub coinbase_of_lem :
    (fresh : ℕ → ℕ) (f : JobFields) (s : Stratum) (m r : List ℕ)
    → f.coinb1 ≡ bin2hex m
    → f.coinb2 ≡ bin2hex r
    → AreBytes m
    → AreBytes r
    → length s.xnonce1 ≡ s.xnonce1_size
    → (c : List ℕ) × (length c ≡ s.xnonce2_size)
      × (coinbase_of fresh f s
          ≡ m
            ++ (s.xnonce1
                ++ (kept_or_cleared (same_id s.job.job_id f.job_id) c s.xnonce2_size ++ r)))
unfolding coinbase_of
coinbase_of_lem fresh f s m r e1 e2 bm br sized =
    let n1 : length (bin2hex m) / 2 ≡ length m = omega (arith, length-bin2hex m) in
    let n2 : length (bin2hex r) / 2 ≡ length r = omega (arith, length-bin2hex r) in
    let size : ℕ = length m + s.xnonce1_size + s.xnonce2_size + length r in
    let base : List ℕ = resize fresh s.job.coinbase size in
    let whole : length base ≡ length m + (s.xnonce1_size + (s.xnonce2_size + length r)) =
      omega (arith, length-resize fresh s.job.coinbase size) in
    rw (e1, e2, n1, n2, hex2bin-bin2hex m bm, hex2bin-bin2hex r br)
      (writes (same_id s.job.job_id f.job_id) m s.xnonce1 r base s.xnonce1_size s.xnonce2_size sized
        whole)

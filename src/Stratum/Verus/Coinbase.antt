-- ===== src/Stratum/Verus/Coinbase.antt =====
-- The coinbase of a job notification.
use mathlib.Core.List.{append_assoc}
use ccminer.Common.{
  ℕ, ◌+◌, ◌/◌, ◌≡◌, refl, ap, sym, ◌∙◌, Bool, true, false, List, [], ◌++◌, arith, length,
  length-append, length-replicate, replicate, if◌then◌else◌,
}
use ccminer.Common.Memory.{
  write_at, write_at-inside, write_at-end, length-write_at, resize, length-resize, split_at,
}
use ccminer.Hex.{bin2hex, hex2bin}
use ccminer.Hex.RoundTrip.{AreBytes, hex2bin-bin2hex, length-bin2hex}
use ccminer.Stratum.{Stratum}
use ccminer.Stratum.Verus.{Fields, same_id, next_coinbase}

-- The four parts of a coinbase of the two given texts.
module _ (m r : List ℕ) (x : List ℕ) (n : ℕ) where
  abbrev laid_out : List ℕ → List ℕ
  laid_out tail = m ++ (r ++ (x ++ tail))

  write_parts :
      (a b c d : List ℕ)
      → length a ≡ length m
      → length b ≡ length r
      → write_at (length m) r (write_at 0 m (a ++ (b ++ (c ++ d)))) ≡ m ++ (r ++ (c ++ d))
  write_parts a b c d ha hb =
      rw (write_at-inside 0 [] m a (b ++ (c ++ d)) refl (sym ha))
        (write_at-inside (length m) m r b (c ++ d) refl (sym hb))

  write_first :
      (c tail : List ℕ)
      → length c ≡ length x
      → write_at (length m + length r) x (m ++ (r ++ (c ++ tail))) ≡ laid_out tail
  write_first c tail h = rw (← append_assoc m r (c ++ tail)) (
      write_at-inside (length m + length r) (m ++ r) x c tail (sym (length-append m r)) (sym h)
      ∙ append_assoc m r (x ++ tail))

  write_second :
      (c d : List ℕ)
      → length c ≡ length x
      → length d ≡ n
      → write_at (length m + length r + length x) (replicate n 0) (m ++ (r ++ (c ++ d)))
        ≡ m ++ (r ++ (c ++ replicate n 0))
  write_second c d h k =
      let front : List ℕ = m ++ (r ++ c) in
      let at : length m + length r + length x ≡ length front =
        omega (arith, length-append m (r ++ c), length-append r c) in
      let regroup =
        λ (t : List ℕ). append_assoc m (r ++ c) t ∙ ap (λ l. m ++ l) (append_assoc r c t) in
      rw (← regroup d) (
        write_at-end (length m + length r + length x) front (replicate n 0) d at
          (length-replicate n 0 ∙ sym k)
        ∙ regroup (replicate n 0))

write_both :
    (same : Bool) (m r x c d : List ℕ) (k n : ℕ)
    → length x ≡ k
    → length c ≡ length x
    → length d ≡ n
    → (parts : List ℕ) → parts ≡ m ++ (r ++ (c ++ d))
    → (tail : List ℕ) × (write_at
          (length m + length r)
          x
          (if same then parts else write_at (length m + length r + k) (replicate n 0) parts)
        ≡ m ++ (r ++ (x ++ tail)))
      × (length tail ≡ n)
      × (same ≡ false → tail ≡ replicate n 0)
write_both true m r x c d k n sized fits ld parts e =
    (d, rw e (write_first m r x n c d fits), ld, λ h. cc)
write_both false m r x c d k n sized fits ld parts e = (
  replicate n 0,
  rw (e, ← sized, write_second m r x n c d fits ld) (write_first m r x n c (replicate n 0) fits),
  length-replicate n 0,
  λ _. refl,
)

-- The writes of one notification, on a buffer of the right size.
layout :
    (same : Bool) (m r x base : List ℕ) (k n : ℕ)
    → length x ≡ k
    → length base ≡ length m + (length r + (k + n))
    → (tail : List ℕ) × (write_at (length m + length r) x (
          if same
          then write_at (length m) r (write_at 0 m base)
          else write_at
              (length m + length r + k)
              (replicate n 0)
              (write_at (length m) r (write_at 0 m base)))
        ≡ m ++ (r ++ (x ++ tail)))
      × (length tail ≡ n)
      × (same ≡ false → tail ≡ replicate n 0)
layout same m r x base k n sized whole =
    let (a, bcd, ea, la, lbcd) = split_at (length m) (length r + (k + n)) base whole in
    let (b, cd, eb, lb, lcd) = split_at (length r) (k + n) bcd lbcd in
    let (c, d, ec, lc, ld) = split_at k n cd lcd in
    let cut : base ≡ a ++ (b ++ (c ++ d)) = ea ∙ ap (λ l. a ++ l) (eb ∙ ap (λ l. b ++ l) ec) in
    let parts : write_at (length m) r (write_at 0 m base) ≡ m ++ (r ++ (c ++ d)) =
      ap (λ l. write_at (length m) r (write_at 0 m l)) cut ∙ write_parts m r x n a b c d la lb in
    let fits : length c ≡ length x = omega arith in
    write_both same m r x c d k n sized fits ld (write_at (length m) r (write_at 0 m base)) parts

module _ (fresh : ℕ → ℕ) (f : Fields) (s : Stratum) (m r : List ℕ) where
  -- Where the two parts that the pool sent are hex texts of bytes and the extranonce has its recorded
  -- size, the coinbase of a job is the two parts, the extranonce and a second nonce of its size,
  -- which is all zeros where the job has a new name.
  pub next_coinbase_lem :
      f.coinb1 ≡ bin2hex m
      → f.coinb2 ≡ bin2hex r
      → AreBytes m
      → AreBytes r
      → length s.xnonce1 ≡ s.xnonce1_size
      → (tail : List ℕ) × (next_coinbase fresh f s ≡ m ++ (r ++ (s.xnonce1 ++ tail)))
        × (length tail ≡ s.xnonce2_size)
        × (same_id s.job.job_id f.job_id ≡ false → tail ≡ replicate s.xnonce2_size 0)
  unfolding next_coinbase
  next_coinbase_lem e1 e2 bm br sized =
      let n1 : length (bin2hex m) / 2 ≡ length m = omega (arith, length-bin2hex m) in
      let n2 : length (bin2hex r) / 2 ≡ length r = omega (arith, length-bin2hex r) in
      let base : List ℕ =
        resize fresh s.job.coinbase (length m + length r + s.xnonce1_size + s.xnonce2_size) in
      let whole : length base ≡ length m + (length r + (s.xnonce1_size + s.xnonce2_size)) = omega (
        arith,
        length-resize fresh s.job.coinbase (length m + length r + s.xnonce1_size + s.xnonce2_size),
      ) in
      rw (e1, e2, n1, n2, hex2bin-bin2hex m bm, hex2bin-bin2hex r br)
        (layout (same_id s.job.job_id f.job_id) m r s.xnonce1 base s.xnonce1_size s.xnonce2_size
          sized whole)

-- A write of `k` bytes at the place `i`.
placed :
    (i k n : ℕ) (base x : List ℕ)
    → length base ≡ i + (k + n)
    → length x ≡ k
    → (front : List ℕ) × (tail : List ℕ) × (write_at i x base ≡ front ++ (x ++ tail))
      × (length front ≡ i)
      × (length tail ≡ n)
placed i k n base x whole sized =
    let (a, bc, ea, la, lbc) = split_at i (k + n) base whole in
    let (b, c, eb, lb, lc) = split_at k n bc lbc in
    (a, c, rw (ea, eb) (write_at-inside i a x b c (sym la) (sized ∙ sym lb)), la, lc)

-- The writes before that of the extranonce keep the buffer's size.
parts_size :
    (same : Bool) (fresh : ℕ → ℕ) (a b zeros old : List ℕ) (k n : ℕ)
    → length (
        if same
        then write_at 32 b (write_at 0 a (resize fresh old (64 + k + n)))
        else write_at (64 + k) zeros (write_at 32 b (write_at 0 a (resize fresh old (64 + k + n)))))
      ≡ 64 + (k + n)
parts_size true fresh a b zeros old k n = omega (
  arith,
  length-write_at 32 b (write_at 0 a (resize fresh old (64 + k + n))),
  length-write_at 0 a (resize fresh old (64 + k + n)),
  length-resize fresh old (64 + k + n),
)
parts_size false fresh a b zeros old k n = omega (
  arith,
  length-write_at (64 + k) zeros (write_at 32 b (write_at 0 a (resize fresh old (64 + k + n)))),
  length-write_at 32 b (write_at 0 a (resize fresh old (64 + k + n))),
  length-write_at 0 a (resize fresh old (64 + k + n)),
  length-resize fresh old (64 + k + n),
)

-- Where the extranonce stands in the coinbase of a job whose two parts have 32 bytes.
pub coinbase_placed :
    (fresh : ℕ → ℕ) (f : Fields) (s : Stratum)
    → length f.coinb1 ≡ 64
    → length f.coinb2 ≡ 64
    → length s.xnonce1 ≡ s.xnonce1_size
    → (front : List ℕ) × (tail : List ℕ) × (next_coinbase fresh f s ≡ front ++ (s.xnonce1 ++ tail))
      × (length front ≡ 64)
      × (length tail ≡ s.xnonce2_size)
unfolding next_coinbase
coinbase_placed fresh f s h1 h2 sized =
    rw (h1, h2)
      (placed 64 s.xnonce1_size s.xnonce2_size _ s.xnonce1
        (parts_size (same_id s.job.job_id f.job_id) fresh (hex2bin f.coinb1 32).0
          (hex2bin f.coinb2 32).0 (replicate s.xnonce2_size 0) s.job.coinbase s.xnonce1_size
          s.xnonce2_size)
        sized)

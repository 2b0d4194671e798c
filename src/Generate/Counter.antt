-- ===== src/Generate/Counter.antt =====
-- The second nonce as a counter.
use native.Mathlib.Nat.{pow-suc}
use ccminer.Common.{
  ℕ, zero, suc, ◌+◌, ◌*◌, ◌%◌, ◌^◌, ◌≤◌, ◌<◌, ◌≡◌, refl, ap, sym, ◌∙◌, true, false, List, [], ◌∷◌,
  arith, ◌==◌, if◌then◌else◌, length, take, drop, ◌⊎◌, Bool-cases, inl, inr, length-take,
  length-drop,
}
use ccminer.Common.Memory.{overlay, write_at}
use ccminer.Hex.RoundTrip.{AreBytes}
use ccminer.Generate.{increment, second_nonce, next_nonce}
use ccminer.Stratum.{Stratum}

-- The number of bytes, the least significant first.
unfoldable pub number : List ℕ → ℕ
number [] = 0
number (b ∷ bs) = b + 256 * number bs

length-increment : (bs : List ℕ) → length (increment bs) ≡ length bs
unfolding increment
length-increment [] = refl
length-increment (b ∷ bs) = ground (arith, length-increment bs)

number-lt : (bs : List ℕ) → AreBytes bs → number bs < 256 ^ length bs
unfolding number
number-lt [] h = omega arith
number-lt (b ∷ bs) h =
    rw (pow-suc 256 (length bs)) (digit (256 ^ length bs) (number bs) b h.0 (number-lt bs h.1))
  where
    digit : (p n b : ℕ) → b < 256 → n < p → b + 256 * n < p * 256
    digit p n b h k = omega arith

AreBytes-increment : (bs : List ℕ) → AreBytes bs → AreBytes (increment bs)
unfolding increment
AreBytes-increment [] h = tt
AreBytes-increment (b ∷ bs) h = ground (arith, AreBytes-increment bs)

-- What the counter loses: nothing, or its whole range.
Lost : List ℕ → Type 0
Lost bs = (x : ℕ) × (number (increment bs) + x ≡ number bs + 1) × ((x ≡ 0) ⊎ (x ≡ 256 ^ length bs))

increment-Lost : (bs : List ℕ) → AreBytes bs → Lost bs
unfolding increment number Lost
increment-Lost [] h = (1, refl, inr refl)
increment-Lost (b ∷ bs) h = elim (Bool-cases ((b + 1) % 256 == 0)) [
  | inl wraps ↦
      let (x, e, cases) = increment-Lost bs h.1 in
      rw wraps (
        256 * x,
        carried b (number (increment bs)) (number bs) x h.0 wraps e,
        rw (pow-suc 256 (length bs)) (range x (256 ^ length bs) cases),
      )
  | inr stays ↦ rw stays (0, plain b (number bs) h.0 stays, inl refl)
]
  where
    carried :
        (b n m x : ℕ)
        → b < 256
        → ((b + 1) % 256 == 0) ≡ true
        → n + x ≡ m + 1
        → 0 + 256 * n + 256 * x ≡ b + 256 * m + 1
    carried b n m x h w e = ground arith

    plain :
        (b m : ℕ)
        → b < 256
        → ((b + 1) % 256 == 0) ≡ false
        → (b + 1) % 256 + 256 * m + 0 ≡ b + 256 * m + 1
    plain b m h w = ground arith

    range : (x p : ℕ) → (x ≡ 0) ⊎ (x ≡ p) → (256 * x ≡ 0) ⊎ (256 * x ≡ p * 256)
    range x p (inl e) = inl (omega arith)
    range x p (inr e) = inr (omega arith)

-- The number after `n`, in a range of `p` numbers.
abbrev pub after : ℕ → ℕ → ℕ
after n p = if n + 1 == p then 0 else n + 1

pub number-increment :
    (bs : List ℕ) → AreBytes bs → number (increment bs) ≡ after (number bs) (256 ^ length bs)
unfolding Lost
number-increment bs h =
    let (x, e, cases) = increment-Lost bs h in
    settle (number (increment bs)) (number bs) x (256 ^ length bs) (number-lt bs h)
      (rw (← length-increment bs) (number-lt (increment bs) (AreBytes-increment bs h))) e cases
  where
    settle : (n m x p : ℕ) → m < p → n < p → n + x ≡ m + 1 → (x ≡ 0) ⊎ (x ≡ p) → n ≡ after m p
    settle n m x p hm hn e (inl z) = ground arith
    settle n m x p hm hn e (inr z) = ground arith

-- The bytes written at a place are those that are read there.
reread :
    (i : ℕ) (new old : List ℕ)
    → i + length new ≤ length old
    → take (length new) (drop i (write_at i new old)) ≡ new
unfolding write_at overlay
reread zero [] old h = refl
reread zero (b ∷ new) [] h = absurd (omega arith)
reread zero (b ∷ new) (c ∷ old) h = ap (◌∷◌ b) (reread zero new old (omega arith))
reread (suc i) new [] h = absurd (omega arith)
reread (suc i) new (c ∷ old) h = reread i new old (omega arith)

-- The second nonce lies within the coinbase.
abbrev pub Inside : Stratum → Type 0
Inside s = s.job.xnonce2 + s.xnonce2_size ≤ length s.job.coinbase

pub length-second_nonce : (s : Stratum) → Inside s → length (second_nonce s) ≡ s.xnonce2_size
length-second_nonce s h = omega (
  arith,
  length-take s.xnonce2_size (drop s.job.xnonce2 s.job.coinbase),
  length-drop s.job.xnonce2 s.job.coinbase,
)

pub second_nonce-next_nonce :
    (s : Stratum) → Inside s → second_nonce (next_nonce s) ≡ increment (second_nonce s)
unfolding next_nonce
second_nonce-next_nonce s h =
    let n : length (increment (second_nonce s)) ≡ s.xnonce2_size =
      length-increment (second_nonce s) ∙ length-second_nonce s h in
    sym (ap (λ k. take k (drop s.job.xnonce2 (next_nonce s).job.coinbase)) n)
    ∙ reread s.job.xnonce2 (increment (second_nonce s)) s.job.coinbase (omega (arith, n))

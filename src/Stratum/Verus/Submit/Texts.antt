-- ===== src/Stratum/Verus/Submit/Texts.antt =====
-- What a pool reads from a submitted share.
use ccminer.Common.{
  ℕ, zero, suc, ◌+◌, ◌-◌, ◌*◌, ◌≤◌, ◌≡◌, refl, ◌∙◌, true, List, [], ◌∷◌, arith, length, take, drop,
  length-take, length-drop,
}
use ccminer.Common.Memory.{overlay, write_at, length-write_at}
use ccminer.Hex.{cbin2hex, bin2hex, hex2bin}
use ccminer.Hex.RoundTrip.{AreBytes, hex2bin-bin2hex}
use ccminer.Stratum.Verus.Submit.{word_bytes, memory_of, nonce_text, solution_text}
use ccminer.Work.{Work}

-- The digits of bytes, written over digits, are the digits of the bytes written over the bytes.
overlay-cbin2hex :
    (new old : List ℕ) → overlay (cbin2hex new) (cbin2hex old) ≡ cbin2hex (overlay new old)
unfolding cbin2hex overlay
overlay-cbin2hex [] old = refl
overlay-cbin2hex (b ∷ new) [] = refl
overlay-cbin2hex (b ∷ new) (c ∷ old) = cc (overlay-cbin2hex new old)

abbrev double : ℕ → ℕ
double zero = 0
double (suc i) = suc (suc (double i))

write_at-cbin2hex :
    (i : ℕ) (new old : List ℕ)
    → write_at (double i) (cbin2hex new) (cbin2hex old) ≡ cbin2hex (write_at i new old)
unfolding cbin2hex write_at
write_at-cbin2hex zero new old = overlay-cbin2hex new old
write_at-cbin2hex (suc i) new [] = refl
write_at-cbin2hex (suc i) new (c ∷ old) = cc (write_at-cbin2hex i new old)

AreBytes-take : (n : ℕ) (bs : List ℕ) → AreBytes bs → AreBytes (take n bs)
AreBytes-take zero bs h = tt
AreBytes-take (suc n) [] h = tt
AreBytes-take (suc n) (b ∷ bs) h = (h.0, AreBytes-take n bs h.1)

AreBytes-drop : (n : ℕ) (bs : List ℕ) → AreBytes bs → AreBytes (drop n bs)
AreBytes-drop zero bs h = h
AreBytes-drop (suc n) [] h = tt
AreBytes-drop (suc n) (b ∷ bs) h = AreBytes-drop n bs h.1

AreBytes-overlay : (new old : List ℕ) → AreBytes new → AreBytes old → AreBytes (overlay new old)
unfolding overlay
AreBytes-overlay [] old hn ho = ho
AreBytes-overlay (b ∷ new) [] hn ho = tt
AreBytes-overlay (b ∷ new) (c ∷ old) hn ho = (hn.0, AreBytes-overlay new old hn.1 ho.1)

AreBytes-write_at :
    (i : ℕ) (new old : List ℕ) → AreBytes new → AreBytes old → AreBytes (write_at i new old)
unfolding write_at
AreBytes-write_at zero new old hn ho = AreBytes-overlay new old hn ho
AreBytes-write_at (suc i) new [] hn ho = tt
AreBytes-write_at (suc i) new (c ∷ old) hn ho = (ho.0, AreBytes-write_at i new old hn ho.1)

AreBytes-memory_of : (words : ℕ → ℕ) (i n : ℕ) → AreBytes (memory_of words i n)
unfolding memory_of word_bytes
AreBytes-memory_of words i zero = tt
AreBytes-memory_of words i (suc n) =
    (omega arith, (omega arith, (omega arith, (omega arith, AreBytes-memory_of words (i + 1) n))))

length-memory_of : (words : ℕ → ℕ) (i n : ℕ) → length (memory_of words i n) ≡ 4 * n
unfolding memory_of word_bytes
length-memory_of words i zero = refl
length-memory_of words i (suc n) = omega (arith, length-memory_of words (i + 1) n)

-- The text of bytes, as hex2bin reads it into a buffer of their number.
reads : (bs : List ℕ) (n : ℕ) → AreBytes bs → length bs ≡ n → hex2bin (cbin2hex bs) n ≡ (bs, true)
unfolding bin2hex
reads bs n h e = rw (← e) (hex2bin-bin2hex bs h)

-- What a pool decodes from a share: the nonce is what follows the pool's own part in the 32 bytes of
-- the work's nonce space, and the solution is the scanned one with the 64 bytes of the job's
-- solution put back. The pool's part is no longer than the space, and the buffers hold bytes in
-- their sizes.
pub share_texts_lem :
    (k : ℕ) (work : Work)
    → k ≤ 32
    → length work.extra ≡ 1388
    → AreBytes work.extra
    → AreBytes work.solution
    → (hex2bin (nonce_text k work) (32 - k) ≡ (drop k (memory_of work.words 27 8), true))
      × (hex2bin (solution_text work) 1347
          ≡ (write_at 11 (take 64 (drop 8 work.solution)) (take 1347 work.extra), true))
unfolding nonce_text solution_text bin2hex
share_texts_lem k work hk le be bs =
    let space : List ℕ = memory_of work.words 27 8 in
    let patch : List ℕ = take 64 (drop 8 work.solution) in
    let scanned : List ℕ = take 1347 work.extra in
    (
      reads (drop k space) (32 - k) (AreBytes-drop k space (AreBytes-memory_of work.words 27 8))
          (omega (arith, length-drop k space, length-memory_of work.words 27 8)),
      rw (write_at-cbin2hex 11 patch scanned) (
          reads (write_at 11 patch scanned) 1347
            (AreBytes-write_at 11 patch scanned
              (AreBytes-take 64 (drop 8 work.solution) (AreBytes-drop 8 work.solution bs))
              (AreBytes-take 1347 work.extra be))
            (length-write_at 11 patch scanned ∙ omega (arith, length-take 1347 work.extra))),
    )

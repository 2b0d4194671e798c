-- ===== src/Stratum/Verus/SetTarget.antt =====
-- The target of a pool becomes the compact form of its number.
use mathlib.Core.List.{append_assoc, append-nil}
use native.Mathlib.Nat.{zero-add}
use ccminer.Common.{
  ℕ, zero, suc, ◌+◌, ◌-◌, ◌*◌, ◌^◌, ◌≤◌, ◌<◌, ◌≡◌, refl, ap, sym, ◌∙◌, subst, bit_or, true, false,
  none, some, List, [], ◌∷◌, ◌++◌, arith, ltb, length, length-append, length-replicate, replicate,
  get_or, ◌==◌, if◌then◌else◌, inl, inr, Bool-cases,
}
use ccminer.Common.Memory.{overlay, overlay-all, get_or-append}
use ccminer.Float.{Arith}
use ccminer.Hex.{hex2bin, bin2hex}
use ccminer.Hex.RoundTrip.{AreBytes, hex2bin-bin2hex}
use ccminer.Stratum.{Stratum, Json, text}
use ccminer.Stratum.Verus.{
  Filled, fill_target, target_be, exponent_of, target_bits, set_start, set_target_text, target_of,
  verus_stratum_set_target, target_to_diff_verus, with_result,
}
use ccminer.Stratum.Verus.Compact.{be_value, be_value-leading, be_value-zeros}

replicate-push : (n : ℕ) (bs : List ℕ) → replicate n 0 ++ 0 ∷ bs ≡ 0 ∷ (replicate n 0 ++ bs)
replicate-push zero bs = refl
replicate-push (suc n) bs = ap (◌∷◌ 0) (replicate-push n bs)

abbrev empty : List ℕ → Filled
empty tail = record { bits_start = none; tail = tail }

fill-zeros :
    (n i : ℕ) (tail bs : List ℕ)
    → fill_target 0 i (empty tail) (replicate n 0 ++ bs)
      ≡ fill_target 0 (i + n) (empty (replicate n 0 ++ tail)) bs
unfolding fill_target
fill-zeros zero i tail bs = let e : i + 0 ≡ i = omega arith in rw e refl
fill-zeros (suc n) i tail bs =
    let e : i + 1 + n ≡ i + suc n = omega arith in
    fill-zeros n (i + 1) (0 ∷ tail) bs ∙ rw (e, replicate-push n tail) refl

-- Once the start is known the loop only puts bytes in front.
fill_rest :
    (filled i start : ℕ) (tail bs : List ℕ)
    → (front : List ℕ) × (fill_target filled i (record { bits_start = some start; tail = tail }) bs
        ≡ record { bits_start = some start; tail = front ++ tail })
      × (length front ≤ length bs)
unfolding fill_target
fill_rest filled i start tail [] = ([], refl, omega arith)
fill_rest filled i start tail (b ∷ bs) = elim (Bool-cases (filled == 8)) [
  | inl stop ↦ ([], rw stop refl, omega arith)
  | inr more ↦
      let (front, e, le) =
        fill_rest (if b == 0 then filled else filled + 1) (i + 1) start (b ∷ tail) bs in
      (
        front ++ b ∷ [],
        rw more (e ∙ rw (append_assoc front (b ∷ []) tail) refl),
        omega (arith, length-append front (b ∷ [])),
      )
]

abbrev pub bytes_of : ℕ → ℕ → ℕ → ℕ → List ℕ → List ℕ
bytes_of start a b c rest = replicate start 0 ++ a ∷ b ∷ c ∷ rest

count : ℕ → ℕ → ℕ
count filled b = if b == 0 then filled else filled + 1

fill_step :
    (filled i start b : ℕ) (tail bs : List ℕ)
    → filled < 8
    → fill_target filled i (record { bits_start = some start; tail = tail }) (b ∷ bs)
      ≡ fill_target
          (count filled b)
          (i + 1)
          (record { bits_start = some start; tail = b ∷ tail })
          bs
unfolding fill_target count
fill_step filled i start b tail bs h = let e : (filled == 8) ≡ false = ground arith in rw e refl

fill_first :
    (i a : ℕ) (tail bs : List ℕ)
    → 0 < a
    → fill_target 0 i (empty tail) (a ∷ bs)
      ≡ fill_target 1 (i + 1) (record { bits_start = some i; tail = a ∷ tail }) bs
unfolding fill_target
fill_first i a tail bs h = let e : (a == 0) ≡ false = ground arith in rw e refl

count-le : (filled b : ℕ) → count filled b ≤ filled + 1
unfolding count
count-le filled b = ground arith

fill_all :
    (start a b c : ℕ) (rest : List ℕ)
    → 0 < a
    → (front : List ℕ) × (fill_target 0 0 (empty []) (bytes_of start a b c rest)
        ≡ record { bits_start = some start; tail = front ++ c ∷ b ∷ a ∷ (replicate start 0 ++ []) })
      × (length front ≤ length rest)
fill_all start a b c rest h =
    let n : ℕ = count 1 b in
    let (front, e, le) =
      fill_rest (count n c) (start + 1 + 1 + 1) start (c ∷ b ∷ a ∷ (replicate start 0 ++ []))
        rest in
    (
      front,
      fill-zeros start 0 [] (a ∷ b ∷ c ∷ rest)
          ∙ rw (zero-add start) (fill_first start a (replicate start 0 ++ []) (b ∷ c ∷ rest) h)
          ∙ fill_step 1 (start + 1) start b (a ∷ (replicate start 0 ++ [])) (c ∷ rest) (omega arith)
          ∙ fill_step n (start + 1 + 1) start c (b ∷ a ∷ (replicate start 0 ++ [])) rest
              (omega (arith, count-le 1 b))
          ∙ e,
      le,
    )

-- The three bytes that the coefficient is copied from.
tail_reads :
    (start a b c : ℕ) (front zeros : List ℕ)
    → length zeros ≡ start
    → start + 3 + length front ≤ 32
    → let be = target_be (record { bits_start = some start; tail = front ++ c ∷ b ∷ a ∷ zeros }) in
      (get_or be (29 - start) 0 ≡ c)
      × (get_or be (30 - start) 0 ≡ b)
      × (get_or be (31 - start) 0 ≡ a)
unfolding target_be
tail_reads start a b c front zeros z h =
    let last : List ℕ = c ∷ b ∷ a ∷ zeros in
    let pad : List ℕ = replicate (32 - length (front ++ last)) 0 in
    let n : ℕ = length (pad ++ front) in
    let padded : length pad ≡ 32 - length (front ++ last) = length-replicate _ 0 in
    let sized : n ≡ 29 - start =
      omega (arith, padded, length-append pad front, length-append front last) in
    let regroup : pad ++ (front ++ last) ≡ (pad ++ front) ++ last =
      sym (append_assoc pad front last) in
    let i0 : 29 - start ≡ n + 0 = omega (arith, sized) in
    let i1 : 30 - start ≡ n + 1 = omega (arith, sized) in
    let i2 : 31 - start ≡ n + 2 = omega (arith, sized) in
    (
      rw (regroup, i0) (get_or-append (pad ++ front) last 0 0),
      rw (regroup, i1) (get_or-append (pad ++ front) last 1 0),
      rw (regroup, i2) (get_or-append (pad ++ front) last 2 0),
    )

exponent_lem : (start : ℕ) → start ≤ 29 → exponent_of start ≡ 32 - start
unfolding exponent_of
exponent_lem start h = omega arith

AreBytes-drop : (n : ℕ) (bs : List ℕ) → AreBytes (replicate n 0 ++ bs) → AreBytes bs
AreBytes-drop zero bs h = h
AreBytes-drop (suc n) bs h = AreBytes-drop n bs h.1

abbrev zeros : ℕ → List ℕ
zeros n = replicate n 0 ++ []

length-zeros : (n : ℕ) → length (zeros n) ≡ n
length-zeros n = rw append-nil (length-replicate n 0)

module _ (fp : Arith) (junk : ℕ) where
  -- The bits that a target with three leading bytes gets.
  abbrev compact : ℕ → ℕ → ℕ → ℕ → ℕ
  compact start a b c = c + 256 * b + 65536 * a + 2 ^ 24 * bit_or junk (32 - start)

  bits_lem :
      (start a b c : ℕ) (front : List ℕ)
      → start + 3 + length front ≤ 32
      → let t : Filled = record {
        bits_start = some start;
        tail = front ++ c ∷ b ∷ a ∷ zeros start;
      } in
        target_bits junk (32 - start) (target_be t) ≡ compact start a b c
  unfolding target_bits
  bits_lem start a b c front h =
      let (r0, r1, r2) = tail_reads start a b c front (zeros start) (length-zeros start) h in
      let e0 : 32 - start - 3 ≡ 29 - start = omega arith in
      let e1 : 32 - start - 2 ≡ 30 - start = omega arith in
      let e2 : 32 - start - 1 ≡ 31 - start = omega arith in rw (e0, e1, e2, r0, r1, r2) refl

  set_start_lem :
      (start a b c : ℕ) (front : List ℕ) (s : Stratum)
      → start + 3 + length front ≤ 32
      → let t : Filled = record {
        bits_start = some start;
        tail = front ++ c ∷ b ∷ a ∷ zeros start;
      } in
        set_start fp junk t (some start) s
        ≡ some (record s {
          job = record (s.job) { extra = overlay (target_be t) s.job.extra };
          next_diff = target_to_diff_verus fp (compact start a b c);
        })
  unfolding set_start
  set_start_lem start a b c front s h =
      let e : exponent_of start ≡ 32 - start = exponent_lem start (omega arith) in
      let big : ltb (32 - start) 3 ≡ false = ground arith in
      rw (e, big, bits_lem start a b c front h) refl

  target_of-text :
      (stack target : List ℕ) (s : Stratum)
      → 0 < length target
      → target_of fp junk stack (some (bin2hex target)) s
        ≡ set_target_text fp junk stack (bin2hex target) s
  unfolding target_of bin2hex
  target_of-text stack [] s h = absurd (omega arith)
  target_of-text stack (x ∷ xs) s h = refl

  set_target_text-bin2hex :
      (stack target : List ℕ) (s : Stratum)
      → AreBytes target
      → length target ≡ 32
      → length stack ≡ 32
      → set_target_text fp junk stack (bin2hex target) s ≡ (
          let t = fill_target 0 0 (empty []) target in
          with_result (set_start fp junk t t.bits_start s))
  unfolding set_target_text
  set_target_text-bin2hex stack target s bytes size room =
      let read : hex2bin (bin2hex target) 32 ≡ (target, true) =
        subst (λ n. hex2bin (bin2hex target) n ≡ (target, true)) size
          (hex2bin-bin2hex target bytes) in
      rw (read, overlay-all target stack (omega arith)) refl

  -- A target whose first byte other than 0 is among the first thirty sets the difficulty of its
  -- compact form: three bytes and their place, which bound the target's number on both sides. The
  -- exponent's byte is or-ed over `junk`, the byte that the source does not initialise.
  pub set_target_compact :
      (start a b c : ℕ) (rest stack : List ℕ) (params : List Json) (s : Stratum)
      → 0 < a
      → AreBytes (bytes_of start a b c rest)
      → length (bytes_of start a b c rest) ≡ 32
      → length stack ≡ 32
      → let target = bytes_of start a b c rest in
        let coefficient = c + 256 * b + 65536 * a in
        (t : Stratum) × (verus_stratum_set_target fp junk stack (text (bin2hex target) ∷ params) s
          ≡ some (t, true))
        × (t.next_diff ≡ target_to_diff_verus fp (coefficient + 2 ^ 24 * bit_or junk (32 - start)))
        × (coefficient * 256 ^ (29 - start) ≤ be_value target)
        × (be_value target < (coefficient + 1) * 256 ^ (29 - start))
  set_target_compact start a b c rest stack params s h bytes size room =
      let target : List ℕ = bytes_of start a b c rest in
      let (front, filled, le) = fill_all start a b c rest h in
      let sized : start + 3 + length rest ≡ 32 = omega (
        arith,
        length-append (replicate start 0) (a ∷ b ∷ c ∷ rest),
        length-replicate {0} {A = ℕ} start 0,
      ) in
      let below : 29 - start ≡ length rest = omega arith in
      let bounds =
        be_value-leading a b c rest (AreBytes-drop start (a ∷ b ∷ c ∷ rest) bytes).1.1.1 in
      (
        record s {
          job = record (s.job) {
            extra =
                overlay
                  (target_be
                    (record { bits_start = some start; tail = front ++ c ∷ b ∷ a ∷ zeros start }))
                  s.job.extra;
          };
          next_diff = target_to_diff_verus fp (compact start a b c);
        },
        unfold verus_stratum_set_target in
            (target_of-text stack target s (omega arith)
              ∙ set_target_text-bin2hex stack target s bytes size room
              ∙ rw filled (ap with_result (set_start_lem start a b c front s (omega arith)))),
        refl,
        rw (below, be_value-zeros start (a ∷ b ∷ c ∷ rest)) bounds.0,
        rw (below, be_value-zeros start (a ∷ b ∷ c ∷ rest)) bounds.1,
      )

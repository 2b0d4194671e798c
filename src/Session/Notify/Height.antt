-- ===== src/Session/Notify/Height.antt =====
-- getblocheight reads the height that a coinbase pushes.
use mathlib.Core.List.{append_assoc}
use native.Mathlib.Nat.{zero-add, suc-add}
use ccminer.Common.{
  ℕ, zero, suc, ◌+◌, ◌-◌, ◌*◌, ◌^◌, ◌≤◌, ◌≡◌, refl, ap, sym, ◌∙◌, Bool, true, false, not, ◌&&◌,
  some, List, [], ◌∷◌, ◌++◌, arith, ◌==◌, length, length-append, get_elem?,
}
use ccminer.Session.Notify.{skip_while, le16_at, top_of, tagged_height, getblocheight}

elem_at :
    (front rest : List ℕ) (i : ℕ) → get_elem? (front ++ rest) (length front + i) ≡ get_elem? rest i
elem_at [] rest i = rw zero-add refl
elem_at (c ∷ front) rest i = rw suc-add (elem_at front rest i)

-- Each byte passes the test.
abbrev pub passes : (ℕ → Bool) → List ℕ → Bool
passes test [] = true
passes test (c ∷ s) = test c && passes test s

elem_head :
    (front : List ℕ) (c : ℕ) (rest : List ℕ) → get_elem? (front ++ c ∷ rest) (length front) ≡ some c
elem_head [] c rest = refl
elem_head (d ∷ front) c rest = elem_head front c rest

module _ (test : ℕ → Bool) (c : ℕ) (rest coinbase : List ℕ) (stop : test c ≡ false) where
  skip_while_lem :
      (left : ℕ) (front s : List ℕ) (i : ℕ)
      → coinbase ≡ front ++ (s ++ c ∷ rest)
      → i ≡ length front
      → passes test s ≡ true
      → length s ≤ left
      → skip_while left test coinbase i ≡ some (i + length s)
  unfolding skip_while
  skip_while_lem zero front [] i e at ok h =
      let here : get_elem? coinbase i ≡ some c = rw (e, at) (elem_head front c rest) in
      rw here (ap some (omega arith))
  skip_while_lem (suc left) front [] i e at ok h =
      let here : get_elem? coinbase i ≡ some c = rw (e, at) (elem_head front c rest) in
      rw (here, stop) (ap some (omega arith))
  skip_while_lem zero front (d ∷ s) i e at ok h = absurd (omega arith)
  skip_while_lem (suc left) front (d ∷ s) i e at ok h =
      let here : get_elem? coinbase i ≡ some d = rw (e, at) (elem_head front d (s ++ c ∷ rest)) in
      let pass : test d ≡ true = ground arith in
      let later : skip_while left test coinbase (i + 1) ≡ some (i + 1 + length s) =
        skip_while_lem left (front ++ d ∷ []) s (i + 1)
          (e ∙ sym (append_assoc front (d ∷ []) (s ++ c ∷ rest)))
          (omega (arith, length-append front (d ∷ []))) (ground arith) (omega arith) in
      rw (here, pass) (later ∙ ap some (omega arith))

-- The index of a byte from the end of `front` on.
byte_at :
    (front rest coinbase : List ℕ) (i n k : ℕ)
    → coinbase ≡ front ++ rest
    → length front ≡ n
    → i ≡ n + k
    → get_elem? coinbase i ≡ get_elem? rest k
byte_at front rest coinbase i n k e len at = rw (e, at, ← len) (elem_at front rest k)

-- Where a coinbase has the index 0xffffffff of its outpoint after its 32nd byte, and the script
-- after it starts with a push of three bytes, getblocheight gives the number in those three bytes;
-- the index ends before the 160th byte, and no byte before it nor the script's size is 0xff.
pub getblocheight_lem :
    (a z : List ℕ) (n h0 h1 h2 : ℕ) (rest : List ℕ)
    → length a ≡ 32
    → passes (λ b. not (b == 255)) z ≡ true
    → length z + 4 ≤ 128
    → (n == 255) ≡ false
    → getblocheight (a ++ (z ++ 255 ∷ 255 ∷ 255 ∷ 255 ∷ n ∷ 3 ∷ h0 ∷ h1 ∷ h2 ∷ rest))
      ≡ some (h0 + 256 * h1 + 2 ^ 16 * h2)
unfolding getblocheight tagged_height le16_at top_of
getblocheight_lem a z n h0 h1 h2 rest la hz fits hn =
    let tail : List ℕ = 255 ∷ 255 ∷ 255 ∷ 255 ∷ n ∷ 3 ∷ h0 ∷ h1 ∷ h2 ∷ rest in
    let cb : List ℕ = a ++ (z ++ tail) in
    let t : ℕ = 32 + length z in
    let cut : cb ≡ (a ++ z) ++ tail = sym (append_assoc a z tail) in
    let len : length (a ++ z) ≡ t = omega (arith, length-append a z) in
    let tag : skip_while 128 (λ b. not (b == 255)) cb 32 ≡ some t =
      skip_while_lem (λ b. not (b == 255)) 255 (255 ∷ 255 ∷ 255 ∷ n ∷ 3 ∷ h0 ∷ h1 ∷ h2 ∷ rest) cb
        refl 128 a z 32 refl (sym la) hz (omega arith) in
    let end : skip_while (160 - t) (λ b. b == 255) cb t ≡ some (t + 4) =
      skip_while_lem (λ b. b == 255) n (3 ∷ h0 ∷ h1 ∷ h2 ∷ rest) cb hn (160 - t) (a ++ z)
        (255 ∷ 255 ∷ 255 ∷ 255 ∷ []) t cut (sym len) refl (omega arith) in
    let at = λ (i k : ℕ) (e : i ≡ t + k). byte_at (a ++ z) tail cb i t k cut len e in
    let last : get_elem? cb (t + 4 - 1) ≡ some 255 = at (t + 4 - 1) 3 (omega arith) in
    let before : get_elem? cb (t + 4 - 2) ≡ some 255 = at (t + 4 - 2) 2 (omega arith) in
    let push : get_elem? cb (t + 4 + 1) ≡ some 3 = at (t + 4 + 1) 5 (omega arith) in
    let low : get_elem? cb (t + 4 + 2) ≡ some h0 = at (t + 4 + 2) 6 (omega arith) in
    let mid : get_elem? cb (t + 4 + 2 + 1) ≡ some h1 = at (t + 4 + 2 + 1) 7 (omega arith) in
    let top : get_elem? cb (t + 4 + 4) ≡ some h2 = at (t + 4 + 4) 8 (omega arith) in
    rw (tag, end, last, before, push, low, mid, top) refl

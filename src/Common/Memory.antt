-- ===== src/Common/Memory.antt =====
-- Buffers of bytes, as lists.
use native.Mathlib.Nat.{zero-add, suc-add}
use ccminer.Common.{
  ℕ, zero, suc, ◌+◌, ◌≤◌, ◌<◌, ◌≡◌, refl, ap, sym, List, [], ◌∷◌, ◌++◌, arith, length, take, drop,
  get_or, take-append-drop, length-take, length-drop,
}

-- `memcpy(buffer, bytes, length bytes)`, as far as the buffer reaches.
unfoldable pub overlay : List ℕ → List ℕ → List ℕ
overlay [] buffer = buffer
overlay (b ∷ bytes) [] = []
overlay (b ∷ bytes) (c ∷ buffer) = b ∷ overlay bytes buffer

-- `memcpy(buffer + i, bytes, length bytes)`
unfoldable pub write_at : ℕ → List ℕ → List ℕ → List ℕ
unfolding overlay
write_at zero bytes buffer = overlay bytes buffer
write_at (suc i) bytes [] = []
write_at (suc i) bytes (c ∷ buffer) = c ∷ write_at i bytes buffer

-- `realloc(buffer, n)`; the bytes that are new have the value of `fresh`.
unfoldable pub resize : (ℕ → ℕ) → List ℕ → ℕ → List ℕ
resize fresh buffer zero = []
resize fresh [] (suc n) = fresh n ∷ resize fresh [] n
resize fresh (c ∷ buffer) (suc n) = c ∷ resize fresh buffer n

pub length-resize : (fresh : ℕ → ℕ) (buffer : List ℕ) (n : ℕ) → length (resize fresh buffer n) ≡ n
unfolding resize
length-resize fresh buffer zero = refl
length-resize fresh [] (suc n) = ap suc (length-resize fresh [] n)
length-resize fresh (c ∷ buffer) (suc n) = ap suc (length-resize fresh buffer n)

pub length-overlay : (bytes buffer : List ℕ) → length (overlay bytes buffer) ≡ length buffer
unfolding overlay
length-overlay [] buffer = refl
length-overlay (b ∷ bytes) [] = refl
length-overlay (b ∷ bytes) (c ∷ buffer) = ap suc (length-overlay bytes buffer)

pub length-write_at :
    (i : ℕ) (bytes buffer : List ℕ) → length (write_at i bytes buffer) ≡ length buffer
unfolding write_at
length-write_at zero bytes buffer = length-overlay bytes buffer
length-write_at (suc i) bytes [] = refl
length-write_at (suc i) bytes (c ∷ buffer) = ap suc (length-write_at i bytes buffer)

pub overlay-all :
    (bytes buffer : List ℕ) → length bytes ≡ length buffer → overlay bytes buffer ≡ bytes
unfolding overlay
overlay-all [] [] h = refl
overlay-all [] (c ∷ buffer) h = absurd (omega arith)
overlay-all (b ∷ bytes) [] h = absurd (omega arith)
overlay-all (b ∷ bytes) (c ∷ buffer) h = ap (◌∷◌ b) (overlay-all bytes buffer (omega arith))

pub get_or-append :
    (front rest : List ℕ) (i d : ℕ) → get_or (front ++ rest) (length front + i) d ≡ get_or rest i d
get_or-append [] rest i d = rw zero-add refl
get_or-append (c ∷ front) rest i d = rw suc-add (get_or-append front rest i d)

overlay-front :
    (bytes old rest : List ℕ)
    → length bytes ≡ length old
    → overlay bytes (old ++ rest) ≡ bytes ++ rest
unfolding overlay
overlay-front [] [] rest h = refl
overlay-front [] (c ∷ old) rest h = absurd (omega arith)
overlay-front (b ∷ bytes) [] rest h = absurd (omega arith)
overlay-front (b ∷ bytes) (c ∷ old) rest h = ap (◌∷◌ b) (overlay-front bytes old rest (omega arith))

-- A write inside a buffer replaces the bytes there.
pub write_at-inside :
    (i : ℕ) (front bytes old rest : List ℕ)
    → i ≡ length front
    → length bytes ≡ length old
    → write_at i bytes (front ++ (old ++ rest)) ≡ front ++ (bytes ++ rest)
unfolding write_at
write_at-inside zero [] bytes old rest e h = overlay-front bytes old rest h
write_at-inside zero (c ∷ front) bytes old rest e h = absurd (omega arith)
write_at-inside (suc i) [] bytes old rest e h = absurd (omega arith)
write_at-inside (suc i) (c ∷ front) bytes old rest e h =
    ap (◌∷◌ c) (write_at-inside i front bytes old rest (omega arith) h)

-- A buffer of a known size falls into two parts.
pub split_at :
    (n m : ℕ) (buffer : List ℕ)
    → length buffer ≡ n + m
    → (a : List ℕ) × (b : List ℕ) × (buffer ≡ a ++ b) × (length a ≡ n) × (length b ≡ m)
split_at n m buffer h = (
  take n buffer,
  drop n buffer,
  sym (take-append-drop n buffer),
  omega (arith, length-take n buffer),
  omega (arith, length-drop n buffer),
)

-- A write of the last bytes of a buffer.
pub write_at-end :
    (i : ℕ) (front bytes old : List ℕ)
    → i ≡ length front
    → length bytes ≡ length old
    → write_at i bytes (front ++ old) ≡ front ++ bytes
unfolding write_at
write_at-end zero [] bytes old e h = overlay-all bytes old h
write_at-end zero (c ∷ front) bytes old e h = absurd (omega arith)
write_at-end (suc i) [] bytes old e h = absurd (omega arith)
write_at-end (suc i) (c ∷ front) bytes old e h =
    ap (◌∷◌ c) (write_at-end i front bytes old (omega arith) h)

-- The bytes that are written can be read.
overlay-get :
    (bytes buffer : List ℕ) (j d : ℕ)
    → length bytes ≤ length buffer
    → j < length bytes
    → get_or (overlay bytes buffer) j d ≡ get_or bytes j d
unfolding overlay
overlay-get [] buffer j d h k = absurd (omega arith)
overlay-get (b ∷ bytes) [] j d h k = absurd (omega arith)
overlay-get (b ∷ bytes) (c ∷ buffer) zero d h k = refl
overlay-get (b ∷ bytes) (c ∷ buffer) (suc j) d h k =
    overlay-get bytes buffer j d (omega arith) (omega arith)

pub write_at-get :
    (i : ℕ) (bytes buffer : List ℕ) (j d : ℕ)
    → i + length bytes ≤ length buffer
    → j < length bytes
    → get_or (write_at i bytes buffer) (i + j) d ≡ get_or bytes j d
unfolding write_at
write_at-get zero bytes buffer j d h k = rw zero-add (overlay-get bytes buffer j d (omega arith) k)
write_at-get (suc i) bytes [] j d h k = absurd (omega arith)
write_at-get (suc i) bytes (c ∷ buffer) j d h k =
    rw suc-add (write_at-get i bytes buffer j d (omega arith) k)

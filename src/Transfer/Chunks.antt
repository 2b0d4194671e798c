-- ===== src/Transfer/Chunks.antt =====
-- util.cpp: what a sequence of calls of the callbacks moves.
use native.Mathlib.Nat.{zero-add, suc-add, mod-eq_of_lt}
use mathlib.Core.List.{append_assoc, append-nil}
use ccminer.Common.{
  ℕ, ◌+◌, ◌-◌, ◌%◌, ◌^◌, ◌≤◌, ◌<◌, ◌≡◌, refl, sym, subst, ap, ◌∙◌, true, Bool-cases, inl, inr, List,
  [], ◌∷◌, ◌++◌, min, arith, ltb, length, take, drop, length-drop, length-append,
}
use ccminer.Common.Memory.{write_at, resize, write_at-inside, write_at-end, split_at, length-resize}
use ccminer.Common.Slices.{take-all, drop-all, take-add, drop-add}
use ccminer.Transfer.{DataBuffer, all_data_cb, UploadBuffer, minus64, upload_data_cb}

-- The buffer holds the text, with a NUL behind it once anything has arrived.
pub data Holds : DataBuffer → List ℕ → Type 0 where
  nothing : Holds (record { buf = []; len = 0 }) []
  text : (s : List ℕ) → Holds (record { buf = s ++ (0 ∷ []); len = length s }) s

resize-append :
    (fresh : ℕ → ℕ) (a b : List ℕ) (n : ℕ)
    → resize fresh (a ++ b) (length a + n) ≡ a ++ resize fresh b n
unfolding resize
resize-append fresh [] b n = rw zero-add refl
resize-append fresh (c ∷ a) b n = rw suc-add (ap (◌∷◌ c) (resize-append fresh a b n))

-- The bytes that arrive stand behind the text, whatever the memory held.
stored :
    (fresh : ℕ → ℕ) (bytes s rest : List ℕ)
    → write_at
        (length s + length bytes)
        (0 ∷ [])
        (write_at (length s) bytes (resize fresh (s ++ rest) (length s + length bytes + 1)))
      ≡ (s ++ bytes) ++ (0 ∷ [])
stored fresh bytes s rest =
    let k = length bytes in
    let grown = resize fresh rest (k + 1) in
    let (old, last, parts, front, back) = split_at k 1 grown (length-resize fresh rest (k + 1)) in
    let sized : resize fresh (s ++ rest) (length s + k + 1) ≡ s ++ (old ++ last) =
      ap (resize fresh (s ++ rest)) (omega arith)
      ∙ resize-append fresh s rest (k + 1)
      ∙ ap (λ r. s ++ r) parts in
    let copied : write_at (length s) bytes (s ++ (old ++ last)) ≡ (s ++ bytes) ++ last =
      write_at-inside (length s) s bytes old last refl (sym front)
      ∙ sym (append_assoc s bytes last) in
    rw (sized, copied)
      (write_at-end (length s + k) (s ++ bytes) (0 ∷ []) last (sym (length-append s bytes))
        (sym back))

-- The callback's state after the chunks have arrived.
pub receive : (ℕ → ℕ) → List (List ℕ) → DataBuffer → DataBuffer
receive fresh [] db = db
receive fresh (bytes ∷ chunks) db = receive fresh chunks (all_data_cb true fresh bytes db).0

pub joined : List (List ℕ) → List ℕ
joined [] = []
joined (bytes ∷ chunks) = bytes ++ joined chunks

-- What libcurl is given when it asks for the numbers of bytes in turn.
pub sent : List ℕ → UploadBuffer → List ℕ
sent [] ub = []
sent (asked ∷ more) ub = (upload_data_cb asked ub).1 ++ sent more (upload_data_cb asked ub).0

pub total : List ℕ → ℕ
total [] = 0
total (n ∷ ns) = n + total ns

abbrev pub AreAsked : List ℕ → Type 0
AreAsked [] = Unit
AreAsked (n ∷ ns) = (n < 2 ^ 32) × AreAsked ns

dropped :
    (asked : ℕ) (ub : UploadBuffer)
    → drop (min (ub.pos + asked) (length ub.buf)) ub.buf ≡ drop asked (drop ub.pos ub.buf)
dropped asked ub = elim (Bool-cases (ltb (ub.pos + asked) (length ub.buf))) [
  | inl within ↦ ap (λ n. drop n ub.buf) (ground arith) ∙ drop-add ub.pos asked ub.buf
  | inr past ↦
      ap (λ n. drop n ub.buf) (ground arith)
      ∙ drop-all (length ub.buf) ub.buf (omega arith)
      ∙ sym (drop-all (ub.pos + asked) ub.buf (ground arith))
      ∙ drop-add ub.pos asked ub.buf
]

-- One call gives the bytes from the place on, as many as are asked for and left.
upload_data_cb_lem :
    (asked : ℕ) (ub : UploadBuffer)
    → asked < 2 ^ 32
    → ub.pos ≤ length ub.buf
    → length ub.buf < 2 ^ 32
    → ((upload_data_cb asked ub).1 ≡ take asked (drop ub.pos ub.buf))
      × ((upload_data_cb asked ub).0 ≡ record ub { pos = min (ub.pos + asked) (length ub.buf) })
unfolding upload_data_cb minus64
upload_data_cb_lem asked ub few inside fits =
    let room : minus64 (length ub.buf) ub.pos ≡ length ub.buf - ub.pos = omega arith in
    let left : length (drop ub.pos ub.buf) ≡ length ub.buf - ub.pos = length-drop ub.pos ub.buf in
    let short_mod : (length ub.buf - ub.pos) % 2 ^ 32 ≡ length ub.buf - ub.pos = omega arith in
    elim (Bool-cases (ltb (length ub.buf - ub.pos) asked)) [
      | inl most ↦
          rw (room, mod-eq_of_lt few, most, short_mod)
            (
              take-all (length ub.buf - ub.pos) (drop ub.pos ub.buf) (omega arith)
                  ∙ sym (take-all asked (drop ub.pos ub.buf) (ground arith)),
              ap (λ n. record ub { pos = n }) (ground arith),
            )
      | inr few_left ↦
          rw (room, mod-eq_of_lt few, few_left)
            (refl, ap (λ n. record ub { pos = n }) (ground arith))
    ]

-- However libcurl cuts its requests, each below 2^32 bytes, it gets a text that is shorter than that
-- from the place on, as far as it asks.
pub sent_lem :
    (ns : List ℕ) (ub : UploadBuffer)
    → AreAsked ns
    → ub.pos ≤ length ub.buf
    → length ub.buf < 2 ^ 32
    → sent ns ub ≡ take (total ns) (drop ub.pos ub.buf)
unfolding sent total
sent_lem [] ub h inside fits = refl
sent_lem (asked ∷ more) ub h inside fits =
    let (given, moved) = upload_data_cb_lem asked ub h.0 inside fits in
    let later =
      sent_lem more (record ub { pos = min (ub.pos + asked) (length ub.buf) }) h.1 (omega arith)
        fits in
    rw (given, moved)
      (ap (λ rest. take asked (drop ub.pos ub.buf) ++ rest)
          (later ∙ ap (take (total more)) (dropped asked ub))
        ∙ sym (take-add asked (total more) (drop ub.pos ub.buf)))

text-Holds :
    (buf : List ℕ) (len : ℕ) (s : List ℕ)
    → buf ≡ s ++ (0 ∷ [])
    → len ≡ length s
    → Holds (record { buf = buf; len = len }) s
text-Holds buf len s e f = rw (e, f) (text s)

all_data_cb-Holds :
    (fresh : ℕ → ℕ) (bytes s : List ℕ) (db : DataBuffer)
    → Holds db s
    → Holds (all_data_cb true fresh bytes db).0 (s ++ bytes)
unfolding all_data_cb
all_data_cb-Holds fresh bytes s db nothing =
    text-Holds _ _ bytes (stored fresh bytes [] []) (zero-add (length bytes))
all_data_cb-Holds fresh bytes s db (text t) =
    text-Holds _ _ (s ++ bytes) (stored fresh bytes s (0 ∷ [])) (sym (length-append s bytes))

-- However the answer is cut into chunks, and whatever new memory holds, the buffer holds the text
-- before, the chunks in their order and then a NUL.
pub receive-Holds :
    (fresh : ℕ → ℕ) (chunks : List (List ℕ)) (s : List ℕ) (db : DataBuffer)
    → Holds db s
    → Holds (receive fresh chunks db) (s ++ joined chunks)
unfolding receive joined
receive-Holds fresh [] s db holds = subst (Holds db) (sym (append-nil s)) holds
receive-Holds fresh (bytes ∷ chunks) s db holds =
    subst (Holds (receive fresh chunks (all_data_cb true fresh bytes db).0))
      (append_assoc s bytes (joined chunks))
      (receive-Holds fresh chunks (s ++ bytes) _ (all_data_cb-Holds fresh bytes s db holds))

-- ===== src/Transfer.antt =====
-- util.cpp: the callbacks by which libcurl moves the bytes of a request and of its answer.
pub mod Chunks
use ccminer.Common.{
  ℕ, zero, suc, ◌+◌, ◌-◌, ◌*◌, ◌%◌, ◌^◌, Bool, true, false, List, [], ◌∷◌, ◌++◌, leb, ltb, ◌==◌,
  if◌then◌else◌, length, take, drop,
}
use ccminer.Common.Memory.{write_at, resize, overlay}
use ccminer.Common.Int.{ℤ, pos, negsuc, pos_part, neg_part}

-- `struct data_buffer`: the memory and the length of what it holds.
pub record DataBuffer : Type 0 where
  pub buf : List ℕ
  pub len : ℕ

-- `memset(db, 0, sizeof(*db))`, after the memory is freed.
unfoldable pub databuf_free : DataBuffer → DataBuffer
databuf_free db = record { buf = []; len = 0 }

-- Does realloc succeed, what does new memory hold, and the bytes that have arrived. The result is
-- the number of bytes taken.
unfoldable pub all_data_cb : Bool → (ℕ → ℕ) → List ℕ → DataBuffer → DataBuffer × ℕ
all_data_cb false fresh bytes db = (db, 0)
all_data_cb true fresh bytes db =
    let newlen = db.len + length bytes in
    (
      record {
        buf = write_at newlen (0 ∷ []) (write_at db.len bytes (resize fresh db.buf (newlen + 1)));
        len = newlen;
      },
      length bytes,
    )

-- `struct upload_buffer`: the text, whose length is `len`, and the place of the next byte.
pub record UploadBuffer : Type 0 where
  pub buf : List ℕ
  pub pos : ℕ

-- A difference of two `size_t`.
unfoldable pub minus64 : ℕ → ℕ → ℕ
minus64 a b = (a + 2 ^ 64 - b % 2 ^ 64) % 2 ^ 64

-- `asked` is size * nmemb. The result has the bytes that are given to libcurl. Past the end of the
-- text, where only a seek leads, the code reads foreign memory.
unfoldable pub upload_data_cb : ℕ → UploadBuffer → UploadBuffer × List ℕ
unfolding minus64
upload_data_cb asked ub =
    let room = minus64 (length ub.buf) ub.pos in
    let len = if ltb room (asked % 2 ^ 32) then room % 2 ^ 32 else asked % 2 ^ 32 in
    (record ub { pos = ub.pos + len }, take len (drop ub.pos ub.buf))

-- `(size_t) offset`
unfoldable pub size_of : ℤ → ℕ
size_of offset = (pos_part offset + 2 ^ 64 - neg_part offset % 2 ^ 64) % 2 ^ 64

-- SEEK_SET is 0, SEEK_CUR is 1 and SEEK_END is 2. The result is CURL_SEEKFUNC_OK or _FAIL.
unfoldable pub seek_data_cb : ℤ → ℕ → UploadBuffer → UploadBuffer × ℕ
unfolding size_of
seek_data_cb offset origin ub =
    if origin == 0
    then (record ub { pos = size_of offset }, 0)
    else if origin == 1
    then (record ub { pos = (ub.pos + size_of offset) % 2 ^ 64 }, 0)
    else if origin == 2
    then (record ub { pos = (length ub.buf + size_of offset) % 2 ^ 64 }, 0)
    else (ub, 1)

-- ===== src/Buffer.antt =====
-- buffer.c and the inline functions of buffer.h: a growing byte string with a terminating 0.
-- `ptr` is the list of the allocated bytes ([] stands for NULL), so `size` is its length.
-- A `buffer *` that is not NULL is a value of the record; where the source takes NULL as well, an
-- `Option`. A pair `(const char *s, size_t s_len)` is the list of the bytes that it covers.
pub mod Holds
pub mod Append
pub mod Hex
pub mod Encode
pub mod Url
pub mod Decimal
pub mod Compare
pub mod Whole
pub mod Equal
pub mod Path
pub mod Number
pub mod Edit
use lighttpd_multithread.Base.{
  ℕ, suc, ◌+◌, ◌-◌, ◌%◌, ◌*◌, Bool, true, false, not, Option, none, some, [], ◌∷◌, ltb, leb, ◌==◌,
  if◌then◌else◌, length, take, Outcome, ok, force_assert, ◌>>=◌, ◌>>◌,
}
use lighttpd_multithread.Base.Memory.{Bytes, size_mod, Allocator, memcpy}

pub record Buffer : Type 0 where
  pub ptr : Bytes
  pub used : ℕ

abbrev pub size : Buffer → ℕ
size b = length b.ptr

unfoldable pub buffer_init : Buffer
buffer_init = record { ptr = []; used = 0 }

unfoldable pub buffer_is_empty : Buffer → Bool
buffer_is_empty b = b.used == 0

unfoldable pub buffer_string_is_empty : Buffer → Bool
buffer_string_is_empty b = ltb b.used 2

unfoldable pub buffer_string_length : Buffer → ℕ
buffer_string_length b = if not (b.used == 0) then b.used - 1 else 0

unfoldable pub buffer_string_space : Buffer → ℕ
buffer_string_space b =
    if size b == 0 then 0 else if b.used == 0 then size b - 1 else size b - b.used

-- The bytes `CONST_BUF_LEN(b)` covers: `buffer_string_length(b)` bytes from `b->ptr`.
abbrev pub string_bytes : Buffer → Bytes
string_bytes b = take (buffer_string_length b) b.ptr

-- `ptr[i] = v`.
pub store : Bytes → ℕ → ℕ → Outcome Bytes
store mem i v = memcpy mem i (v ∷ [])

-- settings.h: buffers of up to 4 kB are kept for reuse.
abbrev buffer_max_reuse_size : ℕ
buffer_max_reuse_size = 4096

pub buffer_reset : Buffer → Outcome Buffer
unfolding store
buffer_reset b =
    if ltb buffer_max_reuse_size (size b)
    then ok (record { ptr = []; used = 0 })
    else if ltb 0 (size b)
    then (do p ← store b.ptr 0 0; ok (record { ptr = p; used = 0 }))
    else ok (record b { used = 0 })

-- The pair is `b` and `src` after the call; the first buffer may be NULL, and so may the second.
pub buffer_move : Option Buffer → Option Buffer → Outcome (Option Buffer × Option Buffer)
unfolding buffer_reset
buffer_move none none = ok (none, none)
buffer_move none (some src) = do s ← buffer_reset src; ok (none, some s)
buffer_move (some b) none = do t ← buffer_reset b; ok (some t, none)
buffer_move (some b) (some src) = do t ← buffer_reset b; ok (some src, some t)

abbrev buffer_piece_size : ℕ
buffer_piece_size = 64

-- The sum wraps at 2 ^ 64.
pub buffer_align_size : ℕ → ℕ
buffer_align_size n =
    let align = buffer_piece_size - n % buffer_piece_size in
    if ltb ((n + align) % size_mod) n then n else (n + align) % size_mod

-- `ptr + (used - 1)`, where `buffer_string_prepare_append` says to write.
abbrev pub end_of_string : Buffer → ℕ
end_of_string b = b.used - 1

pub buffer_commit : Buffer → ℕ → Outcome Buffer
unfolding store
buffer_commit b n = do
  force_assert (ltb 0 (size b))
  let used = if b.used == 0 then 1 else b.used
  let sum = (used + n) % size_mod
  force_assert (if ltb 0 n then ltb used sum else true)
  force_assert (if ltb 0 n then leb sum (size b) else true)
  let used' = if ltb 0 n then sum else used
  p ← store b.ptr (used' - 1) 0
  ok (record { ptr = p; used = used' })

module _ (heap : Allocator) where
  pub buffer_alloc : Buffer → ℕ → Buffer
  buffer_alloc b n =
      let n' = if n == 0 then 1 else n in
      if leb n' (size b) then b else record { ptr = heap.malloc (buffer_align_size n'); used = 0 }

  pub buffer_realloc : Buffer → ℕ → Buffer
  buffer_realloc b n =
      let n' = if n == 0 then 1 else n in
      if leb n' (size b) then b else record b { ptr = heap.realloc b.ptr (buffer_align_size n') }

  pub buffer_string_prepare_copy : Buffer → ℕ → Outcome Buffer
  unfolding store
  buffer_string_prepare_copy b n = do
    force_assert (ltb n ((n + 1) % size_mod))
    let b' = buffer_alloc b ((n + 1) % size_mod)
    p ← store b'.ptr 0 0
    ok (record { ptr = p; used = 1 })

  pub buffer_string_prepare_append : Buffer → ℕ → Outcome Buffer
  unfolding buffer_string_is_empty
  buffer_string_prepare_append b n =
      if buffer_string_is_empty b then buffer_string_prepare_copy b n else (do
        let req_size = (b.used + n) % size_mod
        force_assert (leb b.used req_size)
        ok (buffer_realloc b req_size))

  pub buffer_string_set_length : Buffer → ℕ → Outcome Buffer
  unfolding store
  buffer_string_set_length b len = do
    force_assert (ltb len ((len + 1) % size_mod))
    let b' = buffer_realloc b ((len + 1) % size_mod)
    p ← store b'.ptr len 0
    ok (record { ptr = p; used = (len + 1) % size_mod })

  pub buffer_copy_string_len : Buffer → Bytes → Outcome Buffer
  buffer_copy_string_len b s = do
    b' ← buffer_string_prepare_copy b (length s)
    p ← (if length s == 0 then ok b'.ptr else memcpy b'.ptr 0 s)
    buffer_commit (record b' { ptr = p }) (length s)

  pub buffer_append_string_len : Buffer → Bytes → Outcome Buffer
  buffer_append_string_len b s = do
    b' ← buffer_string_prepare_append b (length s)
    let rest = do
      p ← memcpy b'.ptr (end_of_string b') s
      buffer_commit (record b' { ptr = p }) (length s)
    if length s == 0 then ok b' else rest

  -- `none` is a `src` of NULL.
  pub buffer_copy_buffer : Buffer → Option Buffer → Outcome Buffer
  buffer_copy_buffer b none = do b' ← buffer_string_prepare_copy b 0; ok (record b' { used = 0 })
  buffer_copy_buffer b (some src) =
      if src.used == 0
      then (do b' ← buffer_string_prepare_copy b 0; ok (record b' { used = 0 }))
      else buffer_copy_string_len b (string_bytes src)

  pub buffer_append_string_buffer : Buffer → Option Buffer → Outcome Buffer
  buffer_append_string_buffer b none = buffer_append_string_len b []
  buffer_append_string_buffer b (some src) = buffer_append_string_len b (string_bytes src)

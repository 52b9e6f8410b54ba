-- ===== src/HttpChunk.antt =====
-- http_chunk.c: the body of a response, put into the write queue, in the chunked encoding where the
-- response uses it.
pub mod Decode
pub mod Length
pub mod Append
pub mod Ranges
pub mod Whole
use lighttpd_multithread.Base.{
  ℕ, ◌+◌, ◌-◌, ◌*◌, Bool, true, false, not, ◌&&◌, ◌||◌, Option, none, some, List, [], ◌∷◌, ltb, leb,
  ◌==◌, if◌then◌else◌, length, Outcome, ok, ◌>>=◌,
}
use lighttpd_multithread.Base.Memory.{Bytes, Allocator}
use lighttpd_multithread.Buffer.{
  Buffer, buffer_string_set_length, buffer_append_string_len, string_bytes,
}
use lighttpd_multithread.Buffer.Number.{buffer_append_uint_hex}
use lighttpd_multithread.Chunk.{
  Chunkqueue, chunkqueue_append_buffer, chunkqueue_append_mem, chunkqueue_append_file_fd,
}
use lighttpd_multithread.Chunk.Memory.{last_chunk}
use lighttpd_multithread.Chunk.Tempfile.{
  FileSystem, Tempdirs, Ended, appended, refused, unfinished, is_temp_file,
  chunkqueue_append_mem_to_tempfile,
}

-- What these routines use of a connection. `chunked` is the flag of `transfer_encoding`, `buf_min`
-- that of `stream_response_body`.
pub record Body : Type 0 where
  pub write_queue : Chunkqueue
  pub tmp_chunk_len : Buffer
  pub chunked : Bool
  pub buf_min : Bool

-- A body's data, in a buffer (which may be handed over) or as plain memory.
pub data Piece : Type 0 where
  in_buffer : Buffer → Piece
  in_memory : Bytes → Piece

abbrev pub piece_bytes : Piece → Bytes
piece_bytes (in_buffer b) = string_bytes b
piece_bytes (in_memory mem) = mem

abbrev pub crlf : Bytes
crlf = b'\r' ∷ b'\n' ∷ []

abbrev pub last_chunk_crlf : Bytes
last_chunk_crlf = b'0' ∷ b'\r' ∷ b'\n' ∷ b'\r' ∷ b'\n' ∷ []

abbrev pub with_queue : Body → Chunkqueue → Body
with_queue con q = record con { write_queue = q }

module _ (heap : Allocator) where
  -- The length of a chunk in hexadecimal, with its line end.
  pub chunk_len : Buffer → ℕ → Outcome Buffer
  chunk_len b len = do
    b' ← buffer_string_set_length heap b 0
    b'' ← buffer_append_uint_hex heap b' len
    buffer_append_string_len heap b'' crlf

  pub http_chunk_append_len : Body → ℕ → Outcome Body
  unfolding chunk_len
  http_chunk_append_len con len = do
    b ← chunk_len con.tmp_chunk_len len
    (q, rest) ← chunkqueue_append_buffer con.write_queue b
    ok (record con { write_queue = q; tmp_chunk_len = rest })

  -- Around the data of a chunk, where the body is chunked.
  pub before_data : Body → ℕ → Outcome Body
  unfolding http_chunk_append_len
  before_data con len = if con.chunked then http_chunk_append_len con len else ok con

  pub after_data : Body → Outcome Body
  after_data con =
      let add = (do q ← chunkqueue_append_mem heap con.write_queue crlf; ok (with_queue con q)) in
      if con.chunked then add else ok con

  pub http_chunk_append_file_fd_range : Body → Buffer → (fd offset len : ℕ) → Outcome Body
  unfolding before_data after_data
  http_chunk_append_file_fd_range con fn fd offset len = do
    c ← before_data con len
    q ← chunkqueue_append_file_fd heap c.write_queue fn fd offset len
    after_data (with_queue c q)

  -- `http_chunk_append_file_open_fstat` gives a descriptor and `st_size`, or -1. A `len` of -1 is
  -- `none`. The flag is false where the source returns -1.
  pub http_chunk_append_file_range :
      Body → Buffer → Option (ℕ × ℕ) → ℕ → Option ℕ → Outcome (Body × Bool)
  unfolding http_chunk_append_file_fd_range
  http_chunk_append_file_range con fn none offset len = ok (con, false)
  http_chunk_append_file_range con fn (some (fd, st_size)) offset none =
      let add = (do
        c ← http_chunk_append_file_fd_range con fn fd offset (st_size - offset)
        ok (c, true)) in
      if leb st_size offset then ok (con, offset == st_size) else add
  http_chunk_append_file_range con fn (some (fd, st_size)) offset (some len) =
      let add = (do c ← http_chunk_append_file_fd_range con fn fd offset len; ok (c, true)) in
      if ltb st_size (offset + len) then ok (con, false) else add

  pub http_chunk_append_file : Body → Buffer → Option (ℕ × ℕ) → Outcome (Body × Bool)
  unfolding http_chunk_append_file_fd_range
  http_chunk_append_file con fn none = ok (con, false)
  http_chunk_append_file con fn (some (fd, st_size)) =
      let add = (do c ← http_chunk_append_file_fd_range con fn fd 0 st_size; ok (c, true)) in
      if not (st_size == 0) then add else ok (con, true)

  pub append_piece : Chunkqueue → Piece → Outcome (Chunkqueue × Piece)
  append_piece q (in_buffer b) = do
    (q', rest) ← chunkqueue_append_buffer q b
    ok (q', in_buffer rest)
  append_piece q (in_memory mem) = do q' ← chunkqueue_append_mem heap q mem; ok (q', in_memory mem)

  -- The data of one chunk, kept in memory.
  pub append_in_memory : Body → Piece → Outcome (Body × Piece)
  unfolding before_data append_piece after_data
  append_in_memory con piece = do
    c ← before_data con (length (piece_bytes piece))
    (q, rest) ← append_piece c.write_queue piece
    d ← after_data (with_queue c q)
    ok (d, rest)

  pub http_chunk_close : Body → Outcome Body
  http_chunk_close con =
      let add = (do
        q ← chunkqueue_append_mem heap con.write_queue last_chunk_crlf
        ok (with_queue con q)) in
      if con.chunked then add else ok con

module _ (heap : Allocator) (fs : FileSystem) (conf : Tempdirs) (fuel : ℕ) where
  abbrev Put : Type 0
  Put = Outcome (Ended × fs.State × Body)

  -- Bytes to the temporary file, where all before them went there.
  pub to_tempfile : Ended → fs.State → Body → Bytes → Put
  to_tempfile appended s con mem = do
    (e, s', q) ← chunkqueue_append_mem_to_tempfile heap fs conf fuel con.write_queue s mem
    ok (e, s', with_queue con q)
  to_tempfile refused s con mem = ok (refused, s, con)
  to_tempfile unfinished s con mem = ok (unfinished, s, con)

  pub http_chunk_append_to_tempfile : Body → fs.State → Bytes → Put
  unfolding to_tempfile
  http_chunk_append_to_tempfile con s mem = do
    b ←
        (if con.chunked
          then chunk_len heap con.tmp_chunk_len (length mem)
          else ok con.tmp_chunk_len)
    let c = record con { tmp_chunk_len = b }
    (e, t, d) ←
        (if con.chunked then to_tempfile appended s c (string_bytes b) else ok (appended, s, c))
    (e', t', d') ← to_tempfile e t d mem
    if con.chunked then to_tempfile e' t' d' crlf else ok (e', t', d')

  -- Whether the queue is in a file already, or would be too large for memory.
  pub use_tempfile : Body → ℕ → Bool
  use_tempfile con len =
      let q = con.write_queue in
      let limit = 1024 * (if con.buf_min then 128 else 64) in
      elim (last_chunk q.chunks) [ none ↦ false | some (before, c) ↦ is_temp_file c.type c.is_temp ]
      || ltb limit (q.bytes_in - q.bytes_out + len)

  pub http_chunk_append_data : Body → fs.State → Piece → Outcome (Ended × fs.State × Body × Piece)
  unfolding http_chunk_append_to_tempfile use_tempfile
  http_chunk_append_data con s piece =
      let mem = piece_bytes piece in
      let in_file = (do
        (e, s', c) ← http_chunk_append_to_tempfile con s mem
        ok (e, s', c, piece)) in
      let in_mem = (do (c, rest) ← append_in_memory heap con piece; ok (appended, s, c, rest)) in
      if length mem == 0
      then ok (appended, s, con, piece)
      else if use_tempfile con (length mem)
      then in_file
      else in_mem

  pub http_chunk_append_buffer :
      Body → fs.State → Buffer → Outcome (Ended × fs.State × Body × Piece)
  unfolding http_chunk_append_data
  http_chunk_append_buffer con s b = http_chunk_append_data con s (in_buffer b)

  pub http_chunk_append_mem : Body → fs.State → Bytes → Outcome (Ended × fs.State × Body × Piece)
  unfolding http_chunk_append_data
  http_chunk_append_mem con s mem = http_chunk_append_data con s (in_memory mem)

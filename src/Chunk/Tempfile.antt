-- ===== src/Chunk/Tempfile.antt =====
-- chunk.c: octets that are kept in temporary files.
pub mod Steal
use lighttpd_multithread.Base.{
  ℕ, zero, suc, ◌+◌, ◌-◌, ◌*◌, Bool, true, false, not, ◌&&◌, Option, none, some, List, [], ◌∷◌,
  ◌++◌, ltb, leb, ◌==◌, if◌then◌else◌, length, take, drop, Outcome, ok, aborted, fault, ◌>>=◌,
}
use lighttpd_multithread.Base.Memory.{Bytes, Allocator}
use lighttpd_multithread.Buffer.{
  Buffer, buffer_init, buffer_copy_buffer, buffer_copy_string_len, buffer_append_string_len,
  buffer_string_length, string_bytes,
}
use lighttpd_multithread.Buffer.Hex.{codes}
use lighttpd_multithread.Buffer.Encode.{byte_at}
use lighttpd_multithread.Chunk.{
  ChunkType, mem_chunk, file_chunk, Chunk, Chunkqueue, chunk_remaining_length,
  chunkqueue_get_unused_chunk, chunkqueue_append_chunk, chunkqueue_remove_empty_chunks,
}
use lighttpd_multithread.Chunk.Memory.{last_chunk}

-- What `write` returns, and where it returns -1, what `errno` is.
pub data Written : Type 0 where
  wrote : ℕ → Written
  interrupted no_space failed : Written

-- The system calls, over an unknown state. `mkstemp` gives a descriptor and the name that it wrote
-- over the template; the flags are whether `fcntl(O_APPEND)` and `close` return 0. `fstat_size` is `st_size`, where
-- `fstat` returns 0.
pub record FileSystem : Type 1 where
  pub State : Type 0
  pub mkstemp : State → Bytes → State × Option (ℕ × Bytes)
  pub set_append : State → ℕ → State × Bool
  pub write : State → ℕ → Bytes → State × Written
  pub close : State → ℕ → State × Bool
  pub open_rdonly : State → Bytes → State × Option ℕ
  pub fstat_size : State → ℕ → Option ℕ

-- The directories for temporary files (`none` is NULL), and the size from which a new one is begun. (The function
-- that gives a queue others of its own is not compiled.)
pub record Tempdirs : Type 0 where
  pub tempdirs : Option (List Buffer)
  pub upload_temp_file_size : ℕ

pub default_tempfile_size : ℕ
default_tempfile_size = 1024 * 1024

pub max_tempfile_size : ℕ
max_tempfile_size = 128 * 1024 * 1024

pub chunkqueue_set_tempdirs_default : List Buffer → ℕ → Tempdirs
chunkqueue_set_tempdirs_default dirs size = record {
  tempdirs = some dirs;
  upload_temp_file_size =
      if size == 0
      then default_tempfile_size
      else if ltb max_tempfile_size size
      then max_tempfile_size
      else size;
}

-- How `chunkqueue_append_mem_to_tempfile` ends: with 0, with -1, or not within the rounds given.
pub data Ended : Type 0 where
  appended refused unfinished : Ended

-- What a round of its loop says: how the loop ends, or what is left to write.
pub data Round : Type 0 where
  ends : Ended → Round
  goes_on : Bytes → Round

abbrev pub is_temp_file : ChunkType → Bool → Bool
is_temp_file mem_chunk is_temp = false
is_temp_file file_chunk is_temp = is_temp

abbrev pub directories : Option (List Buffer) → List Buffer
directories none = []
directories (some dirs) = dirs

abbrev pub is_set : Option (List Buffer) → Bool
is_set none = false
is_set (some dirs) = true

abbrev template_name : Bytes
template_name = codes "lighttpd-upload-XXXXXX"

-- `mkstemp` writes into the template.
abbrev pub with_name : Buffer → Bytes → Buffer
with_name b name = record b { ptr = name ++ drop (length name) b.ptr }

module _ (heap : Allocator) where
  -- `b->ptr[len - 1]`, where the string is not empty.
  pub buffer_append_slash : Buffer → Outcome Buffer
  buffer_append_slash b =
      let len = buffer_string_length b in
      let more = (do
        c ← byte_at b.ptr (len - 1)
        if not (c == b'/') then buffer_append_string_len heap b (b'/' ∷ []) else ok b) in
      if ltb 0 len then more else ok b

  pub template_in : Buffer → Buffer → Outcome Buffer
  unfolding buffer_append_slash
  template_in template dir = do
    b ← buffer_copy_buffer heap template (some dir)
    c ← buffer_append_slash b
    buffer_append_string_len heap c template_name

module _ (heap : Allocator) (fs : FileSystem) where
  -- `mkstemp` at a template.
  pub make_temp : fs.State → Buffer → fs.State × Buffer × Option ℕ
  make_temp s template =
      let (s', made) = fs.mkstemp s (string_bytes template) in
      elim made [
        | none ↦ (s', template, none)
        | some (fd, name) ↦ (s', with_name template name, some fd)
      ]

  -- The loop over the directories that are left, from `tempdir_idx` on.
  pub try_tempdirs :
      List Buffer → ℕ → Buffer → fs.State → Outcome (fs.State × Buffer × Option ℕ × ℕ)
  unfolding template_in make_temp
  try_tempdirs [] idx template s = ok (s, template, none, idx)
  try_tempdirs (d ∷ dirs) idx template s = do
    t ← template_in heap template d
    let (s', t', fd) = make_temp s t
    elim fd [ none ↦ try_tempdirs dirs (idx + 1) t' s' | some n ↦ ok (s', t', some n, idx) ]

  -- The new chunk, where there is a file for it; the flag is false where the source returns NULL.
  pub new_tempfile :
      Chunkqueue → fs.State → Buffer → Option ℕ → Outcome (fs.State × Chunkqueue × Bool)
  new_tempfile cq s template none = ok (s, cq, false)
  new_tempfile cq s template (some fd) =
      let (s', appends) = fs.set_append s fd in
      let (closed, _) = fs.close s' fd in
      let (c, q) = chunkqueue_get_unused_chunk cq in
      let add = (do
        name ← buffer_copy_buffer heap c.file_name (some template)
        q' ← chunkqueue_append_chunk q (record c {
          type = file_chunk;
          file_fd = some fd;
          is_temp = true;
          file_name = name;
          file_length = 0;
        })
        ok (s', q', true)) in
      if appends then add else ok (closed, cq, false)

  module _ (conf : Tempdirs) where
    pub chunkqueue_get_append_tempfile :
        Chunkqueue → fs.State → Outcome (fs.State × Chunkqueue × Bool)
    unfolding try_tempdirs new_tempfile
    chunkqueue_get_append_tempfile cq s = do
      template ← buffer_copy_string_len heap buffer_init (codes "/var/tmp/lighttpd-upload-XXXXXX")
      let dirs = directories conf.tempdirs
      let in_dirs = try_tempdirs (drop cq.tempdir_idx dirs) cq.tempdir_idx template s
      let (s', t, fd) = make_temp s template
      (s'', t', fd', idx) ←
          (if ltb 0 (length dirs) then in_dirs else ok (s', t, fd, cq.tempdir_idx))
      new_tempfile (record cq { tempdir_idx = idx }) s'' t' fd'

    -- The file of the last chunk `c` is closed; the flag is what `close` says.
    pub close_last : Chunkqueue → fs.State → List Chunk → Chunk → ℕ → fs.State × Chunkqueue × Bool
    close_last dest s before c fd =
        let (s', closed) = fs.close s fd in
        (s', record dest { chunks = before ++ (record c { file_fd = none } ∷ []) }, closed)

    -- Whether the last chunk is a temporary file that takes more: the chunks before it, the chunk
    -- and its descriptor.
    pub open_chunk : Chunkqueue → Option (List Chunk × Chunk × ℕ)
    open_chunk dest = elim (last_chunk dest.chunks) [
      | none ↦ none
      | some (before, c) ↦ elim c.file_fd [
        | none ↦ none
        | some fd ↦
            if is_temp_file c.type c.is_temp && c.offset == 0 then some (before, c, fd) else none
      ]
    ]

    -- The chunk to write to is the last one, or a new one. The flag is false for -1.
    pub open_last : Chunkqueue → fs.State → Outcome (fs.State × Chunkqueue × Bool)
    unfolding chunkqueue_get_append_tempfile open_chunk close_last
    open_last dest s = elim (open_chunk dest) [
      | none ↦ chunkqueue_get_append_tempfile dest s
      | some (before, c, fd) ↦
          let (s', q, closed) = close_last dest s before c fd in
          let fresh = (if closed then chunkqueue_get_append_tempfile q s' else ok (s', q, false)) in
          if leb conf.upload_temp_file_size c.file_length then fresh else ok (s, dest, true)
    ]

    -- `n` bytes were written to the last chunk.
    abbrev pub with_written : Chunkqueue → List Chunk → Chunk → ℕ → Chunkqueue
    with_written dest before c n = record dest {
      chunks = before ++ (record c { file_length = c.file_length + n } ∷ []);
      bytes_in = dest.bytes_in + n;
    }

    -- After an error of `write`. The flag is whether the source goes on.
    pub after_error :
        Chunkqueue
        → fs.State
        → List Chunk
        → Chunk
        → ℕ
        → Bool
        → Outcome (fs.State × Chunkqueue × Bool)
    unfolding close_last
    after_error dest s before c fd full = do
      let next = full && is_set conf.tempdirs
      let idx = if next then dest.tempdir_idx + 1 else dest.tempdir_idx
      let retry = next && ltb idx (length (directories conf.tempdirs))
      let q = record dest { tempdir_idx = idx }
      n ← chunk_remaining_length c
      let remove = do q' ← chunkqueue_remove_empty_chunks q; ok (s, q', retry)
      let (s', q', closed) = close_last q s before c fd
      if n == 0 then remove else ok (s', q', closed && retry)

    pub retry_write :
        Chunkqueue
        → fs.State
        → List Chunk
        → Chunk
        → ℕ
        → Bytes
        → Bool
        → Outcome (Round × fs.State × Chunkqueue)
    unfolding after_error
    retry_write dest s before c fd mem full = do
      (t, q, retry) ← after_error dest s before c fd full
      let next = if retry then goes_on mem else ends refused
      ok (next, t, q)

    -- `write`, and what its answer means.
    pub write_last :
        Chunkqueue
        → fs.State
        → List Chunk
        → Chunk
        → ℕ
        → Bytes
        → Outcome (Round × fs.State × Chunkqueue)
    unfolding retry_write
    write_last dest s before c fd mem =
        let (s', answer) = fs.write s fd mem in
        elim answer [
          | wrote n ↦ ok (
            if n == length mem then ends appended else goes_on (drop n mem),
            s',
            with_written dest before c n,
          )
          | interrupted ↦ ok (goes_on mem, s', dest)
          | no_space ↦ retry_write dest s' before c fd mem true
          | failed ↦ retry_write dest s' before c fd mem false
        ]

    pub round : Chunkqueue → fs.State → Bytes → Outcome (Round × fs.State × Chunkqueue)
    unfolding open_last write_last
    round dest s mem = do
      (s', q, there) ← open_last dest s
      let write_it : Outcome (Round × fs.State × Chunkqueue) = elim (open_chunk q) [
        | none ↦ fault
        | some (before, c, fd) ↦ write_last q s' before c fd mem
      ]
      if there then write_it else ok (ends refused, s', q)

    pub chunkqueue_append_mem_to_tempfile :
        ℕ → Chunkqueue → fs.State → Bytes → Outcome (Ended × fs.State × Chunkqueue)
    unfolding round
    chunkqueue_append_mem_to_tempfile zero dest s mem = ok (unfinished, s, dest)
    chunkqueue_append_mem_to_tempfile (suc fuel) dest s mem = do
      (r, s', q) ← round dest s mem
      elim r [
        | ends e ↦ ok (e, s', q)
        | goes_on rest ↦ chunkqueue_append_mem_to_tempfile fuel q s' rest
      ]

-- ===== src/Chunk.antt =====
-- chunk.c: queues of chunks, each of which is a string in memory or a range of a file.
-- The list that `first`, `next` and `last` make is a list of chunks. What a queue does with open
-- files and with their maps in memory (`close`, `unlink`, `munmap`) leaves nothing behind in it.
pub mod Contents
pub mod Unused
pub mod Append
pub mod Join
pub mod Steal
pub mod Written
pub mod Clean
pub mod Memory
pub mod Tempfile
use lighttpd_multithread.Base.{
  ℕ, zero, suc, ◌+◌, ◌-◌, ◌*◌, ◌%◌, Bool, true, false, not, ◌&&◌, ◌||◌, Option, none, some, List,
  [], ◌∷◌, ◌++◌, ltb, leb, ◌==◌, if◌then◌else◌, length, take, drop, Outcome, ok, aborted, fault,
  force_assert, ◌>>=◌, ◌>>◌,
}
use lighttpd_multithread.Base.Memory.{Bytes, size_mod, Allocator}
use lighttpd_multithread.Buffer.{
  Buffer, buffer_init, buffer_reset, buffer_move, buffer_string_length, buffer_string_is_empty,
  buffer_string_space, buffer_string_prepare_copy, buffer_string_prepare_append, buffer_commit,
  buffer_copy_string_len, buffer_copy_buffer, size,
}

pub data ChunkType : Type 0 where
  mem_chunk file_chunk : ChunkType

-- `file_fd` is `none` where the source has -1.
pub record Chunk : Type 0 where
  pub type : ChunkType
  pub mem : Buffer
  pub file_name : Buffer
  pub file_start : ℕ
  pub file_length : ℕ
  pub file_fd : Option ℕ
  pub is_temp : Bool
  pub offset : ℕ

pub record Chunkqueue : Type 0 where
  pub chunks : List Chunk
  pub unused : List Chunk
  pub unused_chunks : ℕ
  pub bytes_in : ℕ
  pub bytes_out : ℕ
  pub tempdir_idx : ℕ

abbrev pub chunkqueue_init : Chunkqueue
chunkqueue_init = record {
  chunks = [];
  unused = [];
  unused_chunks = 0;
  bytes_in = 0;
  bytes_out = 0;
  tempdir_idx = 0;
}

-- A chunk with nothing in it, and with its two buffers.
abbrev pub blank : Buffer → Buffer → Chunk
blank mem name = record {
  type = mem_chunk;
  mem = mem;
  file_name = name;
  file_start = 0;
  file_length = 0;
  file_fd = none;
  is_temp = false;
  offset = 0;
}

pub chunk_init : Chunk
chunk_init = blank buffer_init buffer_init

pub chunk_reset : Chunk → Outcome Chunk
chunk_reset c = do mem ← buffer_reset c.mem; name ← buffer_reset c.file_name; ok (blank mem name)

abbrev pub length_of : ChunkType → Buffer → ℕ → ℕ
length_of mem_chunk mem file_length = buffer_string_length mem
length_of file_chunk mem file_length = file_length

abbrev pub chunk_length : Chunk → ℕ
chunk_length c = length_of c.type c.mem c.file_length

pub chunk_remaining_length : Chunk → Outcome ℕ
chunk_remaining_length c = do
  force_assert (leb c.offset (chunk_length c))
  ok (chunk_length c - c.offset)

-- A chunk that is not kept is freed.
pub chunkqueue_push_unused_chunk : Chunkqueue → Chunk → Outcome Chunkqueue
chunkqueue_push_unused_chunk cq c =
    let keep = (do
      c' ← chunk_reset c
      ok (record cq { unused = c' ∷ cq.unused; unused_chunks = cq.unused_chunks + 1 })) in
    if ltb 4 cq.unused_chunks then ok cq else keep

take_unused : Chunkqueue → List Chunk → Chunk × Chunkqueue
take_unused cq [] = (chunk_init, cq)
take_unused cq (c ∷ rest) = (c, record cq { unused = rest; unused_chunks = cq.unused_chunks - 1 })

pub chunkqueue_get_unused_chunk : Chunkqueue → Chunk × Chunkqueue
unfolding take_unused
chunkqueue_get_unused_chunk cq = take_unused cq cq.unused

pub chunkqueue_prepend_chunk : Chunkqueue → Chunk → Outcome Chunkqueue
chunkqueue_prepend_chunk cq c = do
  n ← chunk_remaining_length c
  ok (record cq { chunks = c ∷ cq.chunks; bytes_in = cq.bytes_in + n })

pub chunkqueue_append_chunk : Chunkqueue → Chunk → Outcome Chunkqueue
chunkqueue_append_chunk cq c = do
  n ← chunk_remaining_length c
  ok (record cq { chunks = cq.chunks ++ (c ∷ []); bytes_in = cq.bytes_in + n })

-- The loop of `chunkqueue_reset`.
pub push_all_unused : Chunkqueue → List Chunk → Outcome Chunkqueue
push_all_unused cq [] = ok cq
push_all_unused cq (c ∷ cs) = do q ← chunkqueue_push_unused_chunk cq c; push_all_unused q cs

pub chunkqueue_reset : Chunkqueue → Outcome Chunkqueue
unfolding push_all_unused
chunkqueue_reset cq = do
  q ← push_all_unused (record cq { chunks = [] }) cq.chunks
  ok (record q { bytes_in = 0; bytes_out = 0; tempdir_idx = 0 })

-- Both buffers of the call are there.
abbrev pub not_null : Option Buffer → Outcome Buffer
not_null none = fault
not_null (some b) = ok b

-- A read of `n` bytes at `mem + off`.
pub bytes_at : Bytes → ℕ → ℕ → Outcome Bytes
bytes_at mem off n = if leb (off + n) (length mem) then ok (take n (drop off mem)) else fault

module _ (heap : Allocator) where
  -- `fd` is `none` for `chunkqueue_append_file`, which leaves the field as it is in an unused chunk.
  append_range : Chunkqueue → Buffer → Option ℕ → (offset len : ℕ) → Outcome Chunkqueue
  append_range cq fn fd offset len =
      let (c, q) = chunkqueue_get_unused_chunk cq in
      (do
        name ← buffer_copy_buffer heap c.file_name (some fn)
        chunkqueue_append_chunk q (record c {
          type = file_chunk;
          file_name = name;
          file_start = offset;
          file_length = len;
          file_fd = elim fd [ none ↦ c.file_fd | some n ↦ some n ];
          offset = 0;
        }))

  pub chunkqueue_append_file_fd : Chunkqueue → Buffer → (fd offset len : ℕ) → Outcome Chunkqueue
  unfolding append_range
  chunkqueue_append_file_fd cq fn fd offset len =
      if len == 0 then ok cq else append_range cq fn (some fd) offset len

  pub chunkqueue_append_file : Chunkqueue → Buffer → (offset len : ℕ) → Outcome Chunkqueue
  unfolding append_range
  chunkqueue_append_file cq fn offset len =
      if len == 0 then ok cq else append_range cq fn none offset len

  pub chunkqueue_append_mem : Chunkqueue → Bytes → Outcome Chunkqueue
  chunkqueue_append_mem cq text =
      let (c, q) = chunkqueue_get_unused_chunk cq in
      let append = (do
        b ← buffer_copy_string_len heap c.mem text
        chunkqueue_append_chunk q (record c { type = mem_chunk; mem = b })) in
      if length text == 0 then ok cq else append

-- The chunk that takes over the string of `mem`, and `mem` afterwards.
pub move_to_chunk : Chunk → Buffer → Outcome (Chunk × Buffer)
move_to_chunk c mem = do
  (x, y) ← buffer_move (some c.mem) (some mem)
  b ← not_null x
  rest ← not_null y
  ok (record c { type = mem_chunk; mem = b }, rest)

pub chunkqueue_append_buffer : Chunkqueue → Buffer → Outcome (Chunkqueue × Buffer)
unfolding move_to_chunk
chunkqueue_append_buffer cq mem =
    let (c, q) = chunkqueue_get_unused_chunk cq in
    let append = (do
      (c', rest) ← move_to_chunk c mem
      q' ← chunkqueue_append_chunk q c'
      ok (q', rest)) in
    if buffer_string_is_empty mem then ok (cq, mem) else append

pub chunkqueue_prepend_buffer : Chunkqueue → Buffer → Outcome (Chunkqueue × Buffer)
unfolding move_to_chunk
chunkqueue_prepend_buffer cq mem =
    let (c, q) = chunkqueue_get_unused_chunk cq in
    let prepend = (do
      (c', rest) ← move_to_chunk c mem
      q' ← chunkqueue_prepend_chunk q c'
      ok (q', rest)) in
    if buffer_string_is_empty mem then ok (cq, mem) else prepend

-- The queue and the source afterwards. (A source of NULL changes nothing.)
pub chunkqueue_append_chunkqueue : Chunkqueue → Chunkqueue → Chunkqueue × Chunkqueue
chunkqueue_append_chunkqueue cq src =
    let joined = record cq {
      chunks = cq.chunks ++ src.chunks;
      bytes_in = cq.bytes_in + (src.bytes_in - src.bytes_out);
    } in
    if length src.chunks == 0
    then (cq, src)
    else (joined, record src { chunks = []; bytes_out = src.bytes_in })

-- The part of the first chunk that is taken, in `chunkqueue_steal`.
module _ (heap : Allocator) where
  pub steal_part : ChunkType → Chunkqueue → Chunk → ℕ → Outcome Chunkqueue
  steal_part mem_chunk dest c n = do
    text ← bytes_at c.mem.ptr c.offset n
    chunkqueue_append_mem heap dest text
  steal_part file_chunk dest c n =
      chunkqueue_append_file heap dest c.file_name (c.file_start + c.offset) n

  -- The loop, over the chunks of `src`.
  pub steal_loop : List Chunk → Chunkqueue → Chunkqueue → ℕ → Outcome (Chunkqueue × Chunkqueue)
  unfolding steal_part
  steal_loop [] dest src len = ok (dest, record src { chunks = [] })
  steal_loop (c ∷ cs) dest src len =
      let round = (do
        clen ← chunk_remaining_length c
        let empty = do s ← chunkqueue_push_unused_chunk src c; steal_loop cs dest s len
        let whole = do
          d ← chunkqueue_append_chunk dest c
          steal_loop cs d (record src { bytes_out = src.bytes_out + clen }) (len - clen)
        let part = do
          d ← steal_part c.type dest c len
          ok (
            d,
            record src {
              chunks = record c { offset = c.offset + len } ∷ cs;
              bytes_out = src.bytes_out + len;
            },
          )
        if clen == 0 then empty else if leb clen len then whole else part) in
      if len == 0 then ok (dest, record src { chunks = c ∷ cs }) else round

  pub chunkqueue_steal : Chunkqueue → Chunkqueue → ℕ → Outcome (Chunkqueue × Chunkqueue)
  unfolding steal_loop
  chunkqueue_steal dest src len = steal_loop src.chunks dest src len

pub length_from : ℕ → List Chunk → Outcome ℕ
length_from len [] = ok len
length_from len (c ∷ cs) = do n ← chunk_remaining_length c; length_from (len + n) cs

pub chunkqueue_length : Chunkqueue → Outcome ℕ
unfolding length_from
chunkqueue_length cq = length_from 0 cq.chunks

-- The loop of `chunkqueue_mark_written`, with what is left of `written`.
pub mark_loop : List Chunk → Chunkqueue → ℕ → Outcome (Chunkqueue × ℕ)
mark_loop [] cq written = ok (record cq { chunks = [] }, written)
mark_loop (c ∷ cs) cq written = do
  c_len ← chunk_remaining_length c
  let finished = do
    q ← chunkqueue_push_unused_chunk cq (record c { offset = c.offset + c_len })
    mark_loop cs q (written - c_len)
  let part = ok (record cq { chunks = record c { offset = c.offset + written } ∷ cs }, 0)
  let stop = ok (record cq { chunks = c ∷ cs }, written)
  if written == 0 && not (c_len == 0) then stop else if leb c_len written then finished else part

pub chunkqueue_mark_written : Chunkqueue → ℕ → Outcome Chunkqueue
unfolding mark_loop
chunkqueue_mark_written cq len = do
  (q, written) ← mark_loop cq.chunks cq len
  force_assert (written == 0)
  ok (record q { bytes_out = q.bytes_out + len })

pub remove_finished : List Chunk → Chunkqueue → Outcome Chunkqueue
remove_finished [] cq = ok (record cq { chunks = [] })
remove_finished (c ∷ cs) cq = do
  n ← chunk_remaining_length c
  let finished = do q ← chunkqueue_push_unused_chunk cq c; remove_finished cs q
  if n == 0 then finished else ok (record cq { chunks = c ∷ cs })

pub chunkqueue_remove_finished_chunks : Chunkqueue → Outcome Chunkqueue
unfolding remove_finished
chunkqueue_remove_finished_chunks cq = remove_finished cq.chunks cq

-- The loop of `chunkqueue_remove_empty_chunks` from the chunk `c` on, which is not looked at itself.
-- After a chunk is taken out, the one behind it is not looked at either.
pub sweep : Chunk → List Chunk → Chunkqueue → Outcome (List Chunk × Chunkqueue)
sweep c [] cq = ok (c ∷ [], cq)
sweep c (e ∷ []) cq = do
  n ← chunk_remaining_length e
  let remove = do q ← chunkqueue_push_unused_chunk cq e; ok (c ∷ [], q)
  if n == 0 then remove else ok (c ∷ e ∷ [], cq)
sweep c (e ∷ d ∷ cs) cq = do
  n ← chunk_remaining_length e
  let remove = do q ← chunkqueue_push_unused_chunk cq e; (rest, r) ← sweep d cs q; ok (c ∷ rest, r)
  let keep = do (rest, r) ← sweep e (d ∷ cs) cq; ok (c ∷ rest, r)
  if n == 0 then remove else keep

sweep_all : List Chunk → Chunkqueue → Outcome Chunkqueue
unfolding sweep
sweep_all [] cq = ok cq
sweep_all (c ∷ cs) cq = do (rest, q) ← sweep c cs cq; ok (record q { chunks = rest })

pub chunkqueue_remove_empty_chunks : Chunkqueue → Outcome Chunkqueue
unfolding sweep_all
chunkqueue_remove_empty_chunks cq = do
  q ← chunkqueue_remove_finished_chunks cq
  sweep_all q.chunks q

-- ===== src/Chunk/Memory.antt =====
-- chunk.c: memory to read into, at the end of a queue.
use lighttpd_multithread.Base.{
  ℕ, ◌+◌, ◌-◌, ◌%◌, Bool, true, false, ◌&&◌, Option, none, some, List, [], ◌∷◌, ◌++◌, ltb, leb,
  ◌==◌, if◌then◌else◌, Outcome, ok, aborted, force_assert, ◌>>=◌, ◌>>◌,
}
use lighttpd_multithread.Base.Memory.{size_mod, Allocator}
use lighttpd_multithread.Buffer.{
  Buffer, buffer_reset, buffer_string_length, buffer_string_is_empty, buffer_string_space,
  buffer_string_prepare_copy, buffer_string_prepare_append, buffer_commit, size,
}
use lighttpd_multithread.Chunk.{
  ChunkType, mem_chunk, file_chunk, Chunk, Chunkqueue, chunkqueue_get_unused_chunk,
  chunkqueue_append_chunk,
}

-- `last`, with the chunks before it.
abbrev pub last_chunk : List Chunk → Option (List Chunk × Chunk)
last_chunk [] = none
last_chunk (c ∷ cs) = elim (last_chunk cs) [
  | none ↦ some ([], c)
  | some (before, l) ↦ some (c ∷ before, l)
]

-- `default` stands for 0.
abbrev or_default : ℕ → ℕ → ℕ
or_default n d = if n == 0 then d else n

module _ (heap : Allocator) where
  -- The last buffer, made larger where that is cheap.
  pub grow_last : Buffer → (min_size alloc_size : ℕ) → Outcome Buffer
  grow_last b min_size alloc_size =
      let cur_len = buffer_string_length b in
      let wanted = (cur_len + min_size) % size_mod in
      let new_size = if ltb wanted alloc_size then alloc_size else wanted in
      let append = (new_size + size_mod - cur_len) % size_mod in
      if buffer_string_is_empty b
      then buffer_string_prepare_copy heap b alloc_size
      else if ltb (buffer_string_space b) min_size && leb (size b) 256
      then (if leb min_size append then buffer_string_prepare_append heap b append else ok b)
      else ok b

  new_memory : Chunkqueue → ℕ → Outcome (Chunkqueue × ℕ × ℕ)
  new_memory cq alloc_size =
      let (c, q) = chunkqueue_get_unused_chunk cq in
      (do
        q' ← chunkqueue_append_chunk q (record c { type = mem_chunk })
        b ← buffer_string_prepare_append heap c.mem alloc_size
        ok (
          record q' { chunks = q.chunks ++ (record c { type = mem_chunk; mem = b } ∷ []) },
          buffer_string_length b,
          buffer_string_space b,
        ))

  old_memory :
      Chunkqueue → List Chunk → Chunk → (min_size alloc_size : ℕ) → Outcome (Chunkqueue × ℕ × ℕ)
  unfolding new_memory
  old_memory cq before c min_size alloc_size = do
    b ← grow_last c.mem min_size alloc_size
    let q = record cq { chunks = before ++ (record c { mem = b } ∷ []) }
    let more = new_memory q alloc_size
    let here = ok (q, buffer_string_length b, buffer_string_space b)
    if leb min_size (buffer_string_space b) then here else more

  -- The queue, and `*mem` and `*len`; `*mem` counts from the start of the last chunk's buffer.
  pub chunkqueue_get_memory : Chunkqueue → (min_size alloc_size : ℕ) → Outcome (Chunkqueue × ℕ × ℕ)
  unfolding old_memory
  chunkqueue_get_memory cq min_size alloc_size =
      let min = or_default min_size 1024 in
      let alloc = or_default alloc_size 4096 in
      let alloc' = if ltb alloc min then min else alloc in
      elim (last_chunk cq.chunks) [
        | none ↦ new_memory cq alloc'
        | some (before, c) ↦ elim c.type [
          | mem_chunk ↦ old_memory cq before c min alloc'
          | file_chunk ↦ new_memory cq alloc'
        ]
      ]

use_last : Chunkqueue → List Chunk → Chunk → ℕ → Outcome Chunkqueue
use_last cq before c len = do
  let with_buffer = λ (b : Buffer) (n : ℕ). record cq {
    chunks = before ++ (record c { mem = b } ∷ []);
    bytes_in = cq.bytes_in + n;
  }
  let commit = do b ← buffer_commit c.mem len; ok (with_buffer b len)
  let unused = do b ← buffer_reset c.mem; ok (with_buffer b 0)
  if ltb 0 len then commit else if buffer_string_is_empty c.mem then unused else ok cq

is_mem : ChunkType → Bool
is_mem mem_chunk = true
is_mem file_chunk = false

pub chunkqueue_use_memory : Chunkqueue → ℕ → Outcome Chunkqueue
unfolding use_last is_mem
chunkqueue_use_memory cq len = elim (last_chunk cq.chunks) [
  | none ↦ aborted
  | some (before, c) ↦ do force_assert (is_mem c.type); use_last cq before c len
]

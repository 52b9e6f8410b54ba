-- ===== src/Chunk/Tempfile/Steal.antt =====
-- chunk.c: octets moved to another queue by way of temporary files, and the file of a chunk opened.
pub mod Open
use lighttpd_multithread.Base.{
  ℕ, ◌+◌, ◌-◌, Bool, true, false, not, ◌||◌, Option, none, some, List, [], ◌∷◌, ltb, leb, ◌==◌,
  if◌then◌else◌, Outcome, ok, aborted, force_assert, ◌>>=◌, ◌>>◌,
}
use lighttpd_multithread.Base.Memory.{Allocator}
use lighttpd_multithread.Buffer.{string_bytes}
use lighttpd_multithread.Chunk.{
  ChunkType, mem_chunk, file_chunk, Chunk, Chunkqueue, chunk_remaining_length, bytes_at,
  chunkqueue_push_unused_chunk, chunkqueue_append_chunk, chunkqueue_append_file,
}
use lighttpd_multithread.Chunk.Tempfile.{
  FileSystem, Tempdirs, Ended, appended, chunkqueue_append_mem_to_tempfile,
}

module _ (heap : Allocator) (fs : FileSystem) (conf : Tempdirs) (fuel : ℕ) where
  -- How the call ends, the state, and the two queues.
  abbrev Stolen : Type 0
  Stolen = Outcome (Ended × fs.State × Chunkqueue × Chunkqueue)

  -- `use` octets of the chunk `c` go to `dest`, which are all that it has if the flag is set. The
  -- second queue is the source behind the chunk, where the whole chunk went.
  pub take_octets : ChunkType → Chunk → Bool → ℕ → Chunkqueue → Chunkqueue → fs.State → Stolen
  take_octets file_chunk c true n dest src s = do
    d ← chunkqueue_append_chunk dest c
    ok (appended, s, d, src)
  take_octets file_chunk c false n dest src s = do
    d ← chunkqueue_append_file heap dest c.file_name (c.file_start + c.offset) n
    ok (appended, s, d, src)
  take_octets mem_chunk c whole n dest src s = do
    text ← bytes_at c.mem.ptr c.offset n
    (e, s', d) ← chunkqueue_append_mem_to_tempfile heap fs conf fuel dest s text
    elim e [
      | appended ↦ do
        q ← (if whole then chunkqueue_push_unused_chunk src c else ok src)
        ok (appended, s', d, q)
      | other ↦ ok (other, s', d, src)
    ]

  -- The loop, over the chunks of `src`.
  pub steal_with_tempfiles_loop : List Chunk → Chunkqueue → Chunkqueue → fs.State → ℕ → Stolen
  unfolding take_octets
  steal_with_tempfiles_loop [] dest src s len = ok (appended, s, dest, record src { chunks = [] })
  steal_with_tempfiles_loop (c ∷ cs) dest src s len =
      let round : Stolen = (do
        clen ← chunk_remaining_length c
        let empty = do
          q ← chunkqueue_push_unused_chunk src c
          steal_with_tempfiles_loop cs dest q s len
        let whole = leb clen len
        let n = if whole then clen else len
        let left = record c { offset = c.offset + n }
        let take = do
          (e, s', d, q) ← take_octets c.type c whole n dest src s
          let counted = record q { bytes_out = q.bytes_out + n }
          let next = steal_with_tempfiles_loop cs d counted s' (len - n)
          let part = ok (appended, s', d, record counted { chunks = left ∷ cs })
          let goes_on = if whole then next else part
          elim e [ appended ↦ goes_on | other ↦ ok (other, s', d, record q { chunks = c ∷ cs }) ]
        if clen == 0 then empty else take) in
      if len == 0 then ok (appended, s, dest, record src { chunks = c ∷ cs }) else round

  pub chunkqueue_steal_with_tempfiles : Chunkqueue → Chunkqueue → fs.State → ℕ → Stolen
  unfolding steal_with_tempfiles_loop
  chunkqueue_steal_with_tempfiles dest src s len =
      steal_with_tempfiles_loop src.chunks dest src s len

module _ (fs : FileSystem) where
  -- The descriptor of a chunk, opened where it is -1; `none` where `open` fails.
  open_chunk_file : fs.State → Chunk → fs.State × Option ℕ
  open_chunk_file s c = elim c.file_fd [
    | none ↦ fs.open_rdonly s (string_bytes c.file_name)
    | some fd ↦ (s, some fd)
  ]

  -- Whether the range of the chunk is within a file of this size.
  pub is_in_file : Chunk → Option ℕ → Bool
  is_in_file c none = false
  is_in_file c (some size) =
      let offset = c.file_start + c.offset in
      let to_send = c.file_length - c.offset in
      not (ltb size offset || ltb size to_send || ltb (size - to_send) offset)

  pub open_first : Chunkqueue → fs.State → List Chunk → Outcome (fs.State × Chunkqueue × Bool)
  unfolding open_chunk_file is_in_file
  open_first cq s [] = aborted
  open_first cq s (c ∷ cs) = do
    force_assert (elim c.type [ mem_chunk ↦ false | file_chunk ↦ true ])
    force_assert (leb c.offset c.file_length)
    let (s', fd) = open_chunk_file s c
    let opened = λ (n : ℕ). record cq { chunks = record c { file_fd = some n } ∷ cs }
    elim fd [
      | none ↦ ok (s', cq, false)
      | some n ↦ ok (s', opened n, c.is_temp || is_in_file c (fs.fstat_size s' n))
    ]

  -- The flag is false where the source returns -1.
  pub chunkqueue_open_file_chunk : Chunkqueue → fs.State → Outcome (fs.State × Chunkqueue × Bool)
  unfolding open_first
  chunkqueue_open_file_chunk cq s = open_first cq s cq.chunks

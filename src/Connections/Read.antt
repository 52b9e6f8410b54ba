-- ===== src/Connections/Read.antt =====
-- connections.c: the header that `connection_handle_read_state` takes out of the read queue.
use lighttpd_multithread.Base.{
  ℕ, ◌+◌, ◌<◌, ◌≡◌, refl, sym, ap, ◌∙◌, inr, Option, none, some, List, [], ◌∷◌, ◌++◌, length,
  length-append, ok, arith,
}
use lighttpd_multithread.Base.Memory.{Bytes, size_mod, Allocator}
use lighttpd_multithread.Buffer.{Buffer, size}
use lighttpd_multithread.Buffer.Holds.{Holds}
use lighttpd_multithread.Buffer.Whole.{buffer_reset_lem}
use lighttpd_multithread.Chunk.{ChunkType, Chunk, Chunkqueue}
use lighttpd_multithread.Chunk.Contents.{
  Octet, bytes_octets, bytes_octets-append, octets_of, contents, AreChunks, IsQueue,
  length-bytes_octets,
}
use lighttpd_multithread.Connections.{Place, search_chunks, unread, all_unread, read_header}
use lighttpd_multithread.Connections.Header.{joined, header_end}
use lighttpd_multithread.Connections.Chunks.{bytes_to, BreaksLast, search_chunks-joined}
use lighttpd_multithread.Connections.Places.{AtSome, search_chunks-AtSome}
use lighttpd_multithread.Connections.Take.{
  AreRead, InChunks, count, count-bytes_before, take_header_lem,
}

joined_octets : (cs : List Chunk) → AreRead cs → contents cs ≡ bytes_octets (joined (all_unread cs))
joined_octets [] r = refl
joined_octets (c ∷ cs) r =
    let e =
      ap (λ (t : ChunkType). octets_of t c.mem c.file_name c.file_start c.file_length c.offset)
        r.0.in_memory in
    ap (λ (l : List Octet). l ++ contents cs) e
    ∙ ap (◌++◌ (bytes_octets (unread c))) (joined_octets cs r.1)
    ∙ sym (bytes_octets-append (unread c) (joined (all_unread cs)))

all_valid : (cs : List Chunk) → AreRead cs → AreChunks cs
all_valid [] r = tt
all_valid (c ∷ cs) r = (r.0.valid, all_valid cs r.1)

-- The text `t` is taken from `q`, which is `r` afterwards.
abbrev pub TakesHeader : Chunkqueue → Bytes → Option (Buffer × Chunkqueue) → Type 0
TakesHeader q t none = ⊥
TakesHeader q t (some (b, r)) =
    Holds t b
    × IsQueue r
    × AreRead r.chunks
    × (joined (all_unread q.chunks) ≡ t ++ joined (all_unread r.chunks))
    × (r.bytes_out ≡ q.bytes_out + length t)

place_lem :
    (bs : List Bytes) (p : Place) (n : ℕ)
    → InChunks bs p.chunk p.offset
    → bytes_to bs (some p) ≡ some n
    → count bs p.chunk p.offset ≡ n
place_lem [] p n h e = absurd h
place_lem (b ∷ rest) p n h e = count-bytes_before b rest p.chunk p.offset h ∙ inside e
  where
    inside : {i : ℕ} → (some i ≡ some n) → i ≡ n
    inside e = cc e

no_place : (bs : List Bytes) (n : ℕ) → bytes_to bs none ≡ some n → ⊥
no_place [] n e = cc e
no_place (b ∷ rest) n e = cc e

module _ (heap : Allocator) (request : Buffer) (q : Chunkqueue) (n : ℕ) where
  -- What `read_header` gives.
  abbrev pub Reads : Type 0
  Reads =
      (t : Bytes) × (o : Option (Buffer × Chunkqueue)) × (length t ≡ n)
      × (read_header heap request q ≡ ok o)
      × TakesHeader q t o

  take_lem :
      (p : Place)
      → search_chunks (all_unread q.chunks) ≡ some p
      → InChunks (all_unread q.chunks) p.chunk p.offset
      → count (all_unread q.chunks) p.chunk p.offset ≡ n
      → size request < size_mod
      → IsQueue q
      → AreRead q.chunks
      → n + 1 < size_mod
      → Reads
  unfolding read_header
  take_lem p found inside same z v r f =
      let (b, e, u, _) = buffer_reset_lem request z in
      let (b', ds, t, e', h, r', parted, m) =
        take_header_lem heap b [] q.chunks p.chunk p.offset (inr (u, refl)) r inside
          (omega (arith, same, f)) in
      let left = record q { chunks = ds; bytes_out = q.bytes_out + length t } in
      (
        t,
        some (b', left),
        m ∙ same,
        rw (read_header, found, e, e') refl,
        (
          h,
          record {
            all_chunks = all_valid ds r';
            has_unused = v.has_unused;
            balance = omega (
              arith,
              v.balance,
              ap length (joined_octets q.chunks r),
              ap length (joined_octets ds r'),
              length-bytes_octets (joined (all_unread q.chunks)),
              length-bytes_octets (joined (all_unread ds)),
              ap length parted,
              length-append t (joined (all_unread ds)),
            );
          },
          r',
          parted,
          refl,
        ),
      )

  -- Where the chunks are valid, in memory, and none but the last has two '\n' in a row, the first
  -- header of the joined bytes has `n` bytes, and these and the buffer fit in the address space:
  -- read_header returns the header in the buffer, and the queue, which is valid, holds what stood
  -- behind it, with `n` more octets counted as sent.
  pub read_header-TakesHeader :
      size request < size_mod
      → IsQueue q
      → AreRead q.chunks
      → BreaksLast (all_unread q.chunks)
      → header_end (joined (all_unread q.chunks)) 0 ≡ some n
      → n + 1 < size_mod
      → Reads
  read_header-TakesHeader z v r l e f =
      go (search_chunks bs) refl (search_chunks-AtSome bs) (search_chunks-joined bs l ∙ e)
    where
      bs : List Bytes
      bs = all_unread q.chunks

      go : (o : Option Place) → search_chunks bs ≡ o → AtSome bs o → bytes_to bs o ≡ some n → Reads
      go none s h m = absurd (no_place bs n m)
      go (some p) s h m = take_lem p s h (place_lem bs p n h m) z v r f

-- ===== src/Chunk/Join.antt =====
-- chunk.c: octets put before a queue, and one queue behind another.
use lighttpd_multithread.Base.{
  ◌+◌, ◌≡◌, refl, sym, ap, ◌∙◌, inl, inr, List, [], ◌∷◌, ◌++◌, append-nil, ◌==◌, Bool-cases, length,
  length-append, eq_nil_of_length, ==_iff, ok, arith,
}
use lighttpd_multithread.Base.Memory.{Bytes}
use lighttpd_multithread.Buffer.{Buffer}
use lighttpd_multithread.Buffer.Holds.{Holds}
use lighttpd_multithread.Chunk.{
  Chunk, Chunkqueue, chunkqueue_get_unused_chunk, chunkqueue_prepend_chunk,
  chunkqueue_prepend_buffer, chunkqueue_append_chunkqueue,
}
use lighttpd_multithread.Chunk.Contents.{
  Octet, bytes_octets, chunk_octets, contents, contents-append, append-AreChunks, IsChunk, IsQueue,
  remaining_lem,
}
use lighttpd_multithread.Chunk.Unused.{Keeps-IsQueue, get_unused_lem}
use lighttpd_multithread.Chunk.Append.{empty_cases, move_to_chunk_lem}

prepend_chunk_lem :
    (q : Chunkqueue) (c : Chunk)
    → IsQueue q
    → IsChunk c
    → (r : Chunkqueue) × (chunkqueue_prepend_chunk q c ≡ ok r)
      × IsQueue r
      × (contents r.chunks ≡ chunk_octets c ++ contents q.chunks)
      × (r.bytes_out ≡ q.bytes_out)
unfolding chunkqueue_prepend_chunk
prepend_chunk_lem q c v i = (
  record q { chunks = c ∷ q.chunks; bytes_in = q.bytes_in + length (chunk_octets c) },
  rw (remaining_lem c i) refl,
  record {
    all_chunks = (i, v.all_chunks);
    has_unused = v.has_unused;
    balance = omega (arith, v.balance, length-append (chunk_octets c) (contents q.chunks));
  },
  refl,
  refl,
)

-- `chunkqueue_prepend_buffer` puts the string of a buffer, which is empty afterwards, before what
-- the queue holds.
pub prepend_buffer_lem :
    (q : Chunkqueue) (b : Buffer) (s : Bytes)
    → IsQueue q
    → Holds s b
    → (r : Chunkqueue) × (rest : Buffer) × (chunkqueue_prepend_buffer q b ≡ ok (r, rest))
      × IsQueue r
      × (contents r.chunks ≡ bytes_octets s ++ contents q.chunks)
      × (r.bytes_out ≡ q.bytes_out)
      × Holds [] rest
unfolding chunkqueue_prepend_buffer
prepend_buffer_lem q b s v h = elim (empty_cases s b h) [
  | inl (e, f) ↦ (q, b, rw e refl, v, rw f refl, refl, rw f at h)
  | inr e ↦
      let (z, k) = get_unused_lem q v.has_unused in
      let (c, r) = chunkqueue_get_unused_chunk q in
      let (d, rest, m, i, same, w) = move_to_chunk_lem c b s z h in
      let (q', f', v', g, o) = prepend_chunk_lem r d (Keeps-IsQueue q r k v) i in
      (
        q',
        rest,
        rw (e, m, f') refl,
        v',
        g
            ∙ ap (λ (l : List Octet). l ++ contents r.chunks) same
            ∙ ap (λ (cs : List Chunk). bytes_octets s ++ contents cs) k.same_chunks,
        o ∙ k.same_out,
        w,
      )
]

-- On two valid queues, chunkqueue_append_chunkqueue moves all octets of the source behind those of
-- the other queue; both are valid afterwards, and the source holds nothing.
pub append_chunkqueue_lem :
    (q src : Chunkqueue)
    → IsQueue q
    → IsQueue src
    → let (r, rest) = chunkqueue_append_chunkqueue q src in
      IsQueue r
      × IsQueue rest
      × (contents r.chunks ≡ contents q.chunks ++ contents src.chunks)
      × (contents rest.chunks ≡ [])
unfolding chunkqueue_append_chunkqueue
append_chunkqueue_lem q src v w = elim (Bool-cases (length src.chunks == 0)) [
  | inl none_there ↦
      let e : src.chunks ≡ [] = eq_nil_of_length src.chunks ((==_iff _ 0).0 none_there) in
      rw none_there (
        v,
        w,
        sym (append-nil (contents q.chunks))
            ∙ ap (λ (cs : List Chunk). contents q.chunks ++ contents cs) (sym e),
        ap contents e,
      )
  | inr some_there ↦
      let e = contents-append q.chunks src.chunks in
      rw some_there (
        record {
          all_chunks = append-AreChunks q.chunks src.chunks v.all_chunks w.all_chunks;
          has_unused = v.has_unused;
          balance = omega (
            arith,
            ap length e,
            length-append (contents q.chunks) (contents src.chunks),
            v.balance,
            w.balance,
          );
        },
        record { all_chunks = tt; has_unused = w.has_unused; balance = omega arith },
        e,
        refl,
      )
]

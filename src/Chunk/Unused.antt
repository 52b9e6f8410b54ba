-- ===== src/Chunk/Unused.antt =====
-- chunk.c: the cache of unused chunks.
use lighttpd_multithread.Base.{
  ◌+◌, ◌≡◌, refl, ap, inl, inr, List, [], ◌∷◌, ltb, ltb→ge, Bool-cases, length, ok, arith,
}
use lighttpd_multithread.Buffer.{buffer_init}
use lighttpd_multithread.Buffer.Whole.{buffer_reset_lem}
use lighttpd_multithread.Chunk.{
  Chunk, Chunkqueue, blank, chunk_init, chunk_reset, chunkqueue_push_unused_chunk, take_unused,
  chunkqueue_get_unused_chunk,
}
use lighttpd_multithread.Chunk.Contents.{IsChunk, IsReset, AreReset, HasUnused, IsQueue, size-Holds}

-- The queue `r` has the chunks and the counters of `q`.
pub record Keeps (q r : Chunkqueue) : Type 0 where
  pub same_chunks : r.chunks ≡ q.chunks
  pub same_in : r.bytes_in ≡ q.bytes_in
  pub same_out : r.bytes_out ≡ q.bytes_out
  pub has_unused : HasUnused r.unused r.unused_chunks

pub Keeps-IsQueue : (q r : Chunkqueue) → Keeps q r → IsQueue q → IsQueue r
Keeps-IsQueue q r k v = record {
  all_chunks = rw k.same_chunks v.all_chunks;
  has_unused = k.has_unused;
  balance = rw (k.same_chunks, k.same_in, k.same_out) v.balance;
}

chunk_reset_lem : (c : Chunk) → IsChunk c → (c' : Chunk) × (chunk_reset c ≡ ok c') × IsReset c'
unfolding chunk_reset
chunk_reset_lem c i =
    let (m, e, u, _) = buffer_reset_lem c.mem (size-Holds i.text c.mem i.mem_holds) in
    let (n, f, w, _) = buffer_reset_lem c.file_name (size-Holds i.name c.file_name i.name_holds) in
    (blank m n, rw (e, f) refl, record { mem_unset = u; name_unset = w; not_sent = refl })

pub push_unused_lem :
    (q : Chunkqueue) (c : Chunk)
    → HasUnused q.unused q.unused_chunks
    → IsChunk c
    → (r : Chunkqueue) × (chunkqueue_push_unused_chunk q c ≡ ok r) × Keeps q r
unfolding chunkqueue_push_unused_chunk
push_unused_lem q c u i = elim (Bool-cases (ltb 4 q.unused_chunks)) [
  | inl full ↦
      (q, rw full, record { same_chunks = refl; same_in = refl; same_out = refl; has_unused = u })
  | inr room ↦
      let (c', e, z) = chunk_reset_lem c i in
      (
        record q { unused = c' ∷ q.unused; unused_chunks = q.unused_chunks + 1 },
        rw (room, e) refl,
        record {
          same_chunks = refl;
          same_in = refl;
          same_out = refl;
          has_unused = record {
            all_reset = (z, u.all_reset);
            counted = omega (arith, u.counted);
            at_most = omega (arith, ltb→ge _ _ room);
          };
        },
      )
]

chunk_init-IsReset : IsReset chunk_init
unfolding chunk_init buffer_init
chunk_init-IsReset = record {
  mem_unset = record { unused = refl; fits = omega arith };
  name_unset = record { unused = refl; fits = omega arith };
  not_sent = refl;
}

take_unused_lem :
    (q : Chunkqueue) (cs : List Chunk)
    → q.unused ≡ cs
    → HasUnused q.unused q.unused_chunks
    → IsReset (take_unused q cs).0 × Keeps q (take_unused q cs).1
unfolding take_unused
take_unused_lem q [] e u = (
  chunk_init-IsReset,
  record { same_chunks = refl; same_in = refl; same_out = refl; has_unused = u },
)
take_unused_lem q (c ∷ cs) e u =
    let all : AreReset (c ∷ cs) = rw e at u.all_reset in
    (
      all.0,
      record {
        same_chunks = refl;
        same_in = refl;
        same_out = refl;
        has_unused = record {
          all_reset = all.1;
          counted = omega (arith, u.counted, ap length e);
          at_most = omega (arith, u.at_most);
        };
      },
    )

pub get_unused_lem :
    (q : Chunkqueue)
    → HasUnused q.unused q.unused_chunks
    → IsReset (chunkqueue_get_unused_chunk q).0 × Keeps q (chunkqueue_get_unused_chunk q).1
unfolding chunkqueue_get_unused_chunk
get_unused_lem q u = take_unused_lem q q.unused refl u

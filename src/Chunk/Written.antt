-- ===== src/Chunk/Written.antt =====
-- chunk.c: marking octets as written, and counting those that are left.
use lighttpd_multithread.Base.{
  ℕ, ◌+◌, ◌-◌, ◌≤◌, ◌<◌, ◌≡◌, refl, sym, ap, ◌∙◌, ◌⊎◌, inl, inr, not, ◌&&◌, List, [], ◌∷◌, ◌++◌,
  append_assoc, leb, leb→le, leb→gt, ◌==◌, ==_iff, Bool-cases, length, length-append, Outcome, ok,
  aborted, arith,
}
use lighttpd_multithread.Chunk.{Chunk, Chunkqueue, chunk_length, mark_loop, chunkqueue_mark_written}
use lighttpd_multithread.Chunk.Contents.{
  Octet, octets_of-split, chunk_octets, contents, IsChunk, AreChunks, HasUnused, IsQueue,
  length-chunk_octets, remaining_lem,
}
use lighttpd_multithread.Chunk.Unused.{Keeps, push_unused_lem}

-- What the loop does with `written` octets of the chunks `cs`: `left` of them do not fit.
record Marks (cs : List Chunk) (q : Chunkqueue) (written : ℕ) (o : Outcome (Chunkqueue × ℕ))
    : Type 0 where
  q' : Chunkqueue
  left : ℕ
  sent : List Octet
  returns : o ≡ ok (q', left)
  all_chunks : AreChunks q'.chunks
  has_unused : HasUnused q'.unused q'.unused_chunks
  same_in : q'.bytes_in ≡ q.bytes_in
  same_out : q'.bytes_out ≡ q.bytes_out
  parted : contents cs ≡ sent ++ contents q'.chunks
  length-sent : length sent + left ≡ written
  rest_left : left ≡ written - length (contents cs)

-- A whole chunk is sent first.
mark_first :
    (c : Chunk) (cs : List Chunk) (q r : Chunkqueue) (written : ℕ) (o o' : Outcome (Chunkqueue × ℕ))
    → Keeps q r
    → length (chunk_octets c) ≤ written
    → o' ≡ o
    → Marks cs r (written - length (chunk_octets c)) o
    → Marks (c ∷ cs) q written o'
mark_first c cs q r written o o' k room e m =
    let total = length-append (chunk_octets c) (contents cs) in
    record {
      q' = m.q';
      left = m.left;
      sent = chunk_octets c ++ m.sent;
      returns = e ∙ m.returns;
      all_chunks = m.all_chunks;
      has_unused = m.has_unused;
      same_in = m.same_in ∙ k.same_in;
      same_out = m.same_out ∙ k.same_out;
      parted =
          ap (λ (xs : List Octet). chunk_octets c ++ xs) m.parted
          ∙ sym (append_assoc (chunk_octets c) m.sent (contents m.q'.chunks));
      length-sent = omega (arith, m.length-sent, length-append (chunk_octets c) m.sent);
      rest_left = omega (arith, m.rest_left, total);
    }

-- The chunk stays the first, less the octets that are sent of it.
mark_part :
    (c : Chunk) (cs : List Chunk) (q : Chunkqueue) (written : ℕ)
    → AreChunks (c ∷ cs)
    → HasUnused q.unused q.unused_chunks
    → written < length (chunk_octets c)
    → Marks
        (c ∷ cs)
        q
        written
        (ok (record q { chunks = record c { offset = c.offset + written } ∷ cs }, 0))
mark_part c cs q written (i, others) u short =
    let room : c.offset + written ≤ chunk_length c =
      omega (arith, length-chunk_octets c i, i.within) in
    let rest = record c { offset = c.offset + written } in
    let (front, e, n) =
      octets_of-split c.type c.mem c.file_name c.file_start c.file_length c.offset written i.text
        i.mem_holds room in
    record {
      q' = record q { chunks = rest ∷ cs };
      left = 0;
      sent = front;
      returns = refl;
      all_chunks = (
        record {
          text = i.text;
          mem_holds = i.mem_holds;
          name = i.name;
          name_holds = i.name_holds;
          within = room;
        },
        others,
      );
      has_unused = u;
      same_in = refl;
      same_out = refl;
      parted =
          ap (λ (xs : List Octet). xs ++ contents cs) e
          ∙ append_assoc front (chunk_octets rest) (contents cs);
      length-sent = omega (arith, n);
      rest_left = omega (arith, length-append (chunk_octets c) (contents cs));
    }

-- A chunk that is wholly sent goes to the unused ones.
finished-IsChunk :
    (c : Chunk) → IsChunk c → IsChunk (record c { offset = c.offset + length (chunk_octets c) })
finished-IsChunk c i = record {
  text = i.text;
  mem_holds = i.mem_holds;
  name = i.name;
  name_holds = i.name_holds;
  within = omega (arith, length-chunk_octets c i, i.within);
}

mark_loop-Marks :
    (cs : List Chunk) (q : Chunkqueue) (written : ℕ)
    → AreChunks cs
    → HasUnused q.unused q.unused_chunks
    → Marks cs q written (mark_loop cs q written)
unfolding mark_loop
mark_loop-Marks [] q written all u = record {
  q' = record q { chunks = [] };
  left = written;
  sent = [];
  returns = refl;
  all_chunks = tt;
  has_unused = u;
  same_in = refl;
  same_out = refl;
  parted = refl;
  length-sent = omega arith;
  rest_left = omega arith;
}
mark_loop-Marks (c ∷ cs) q written (i, others) u =
    let clen = length (chunk_octets c) in
    let r = remaining_lem c i in
    elim (Bool-cases (written == 0 && not (clen == 0))) [
      | inl stop ↦
          let z : written ≡ 0 = ground (arith, stop) in
          record {
            q' = record q { chunks = c ∷ cs };
            left = written;
            sent = [];
            returns = rw (r, stop) refl;
            all_chunks = (i, others);
            has_unused = u;
            same_in = refl;
            same_out = refl;
            parted = refl;
            length-sent = omega arith;
            rest_left = omega arith;
          }
      | inr go ↦ elim (Bool-cases (leb clen written)) [
        | inl whole ↦
            let (s, e, k) =
              push_unused_lem q (record c { offset = c.offset + clen }) u (finished-IsChunk c i) in
            mark_first c cs q s written _ _ k (leb→le clen written whole)
              (rw (r, go, whole, e) refl)
              (mark_loop-Marks cs s (written - clen) others k.has_unused)
        | inr part ↦
            rw (r, go, part) (mark_part c cs q written (i, others) u (leb→gt clen written part))
      ]
    ]

-- On a valid queue that holds at least `len` octets, chunkqueue_mark_written takes the first `len`
-- out and counts them as sent, and the queue stays valid; on one that holds fewer it aborts.
pub mark_written_lem :
    (q : Chunkqueue) (len : ℕ)
    → IsQueue q
    → ((r : Chunkqueue) × (sent : List Octet) × (chunkqueue_mark_written q len ≡ ok r)
        × IsQueue r
        × (contents q.chunks ≡ sent ++ contents r.chunks)
        × (length sent ≡ len)
        × (r.bytes_out ≡ q.bytes_out + len))
      ⊎ ((length (contents q.chunks) < len) × (chunkqueue_mark_written q len ≡ aborted))
unfolding chunkqueue_mark_written
mark_written_lem q len v =
    let m = mark_loop-Marks q.chunks q len v.all_chunks v.has_unused in
    elim (Bool-cases (m.left == 0)) [
      | inl fits ↦
          let z = (==_iff m.left 0).0 fits in
          inl (
            record m.q' { bytes_out = m.q'.bytes_out + len },
            m.sent,
            rw (m.returns, fits) refl,
            record {
              all_chunks = m.all_chunks;
              has_unused = m.has_unused;
              balance = omega (
                arith,
                v.balance,
                m.same_in,
                m.same_out,
                m.length-sent,
                ap length m.parted,
                length-append m.sent (contents m.q'.chunks),
              );
            },
            m.parted,
            omega (arith, m.length-sent),
            omega (arith, m.same_out),
          )
      | inr large ↦ inr (ground (arith, m.rest_left, large), rw (m.returns, large) refl)
    ]

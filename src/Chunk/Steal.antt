-- ===== src/Chunk/Steal.antt =====
-- chunk.c: `chunkqueue_steal` moves the first octets of a queue.
use lighttpd_multithread.Base.{
  true, ℕ, zero, suc, ◌+◌, ◌-◌, ◌≤◌, ◌<◌, ◌≡◌, refl, sym, ap, ◌∙◌, inl, inr, min, List, [], ◌∷◌,
  ◌++◌, append_assoc, append-nil, leb, ◌==◌, ==_iff, leb→gt, le→leb, Bool-cases, length,
  length-append, length-drop, length-take, eq_nil_of_length, leb→le, take, drop, take-append-drop,
  Outcome, ok, ◌>>=◌, arith,
}
use lighttpd_multithread.Base.Memory.{Bytes, Allocator}
use lighttpd_multithread.Buffer.{Buffer}
use lighttpd_multithread.Buffer.Holds.{Holds}
use lighttpd_multithread.Buffer.Whole.{string_bytes-Holds}
use lighttpd_multithread.Chunk.{
  ChunkType, mem_chunk, file_chunk, Chunk, Chunkqueue, length_of, chunk_length, bytes_at,
  steal_part, steal_loop, chunkqueue_steal,
}
use lighttpd_multithread.Chunk.Contents.{
  Octet, bytes_octets, bytes_octets-append, file_octets, file_octets-append, octets_of,
  chunk_octets, contents, AreChunks, HasUnused, IsQueue, length-Holds, length-Holds-lt,
  length-chunk_octets, remaining_lem, length-bytes_octets, length-file_octets, drop-drop,
}
use lighttpd_multithread.Chunk.Unused.{push_unused_lem}
use lighttpd_multithread.Chunk.Append.{
  AppendsTo, append_chunk-AppendsTo, append_mem-AppendsTo, append_file-AppendsTo,
}

take-drop-append :
    (text more : Bytes) (off n : ℕ)
    → off + n ≤ length text
    → take n (drop off (text ++ more)) ≡ take n (drop off text)
take-drop-append [] more off zero h = refl
take-drop-append [] more off (suc n) h = absurd (omega arith)
take-drop-append (x ∷ text) more zero zero h = refl
take-drop-append (x ∷ text) more zero (suc n) h =
    ap (◌∷◌ x) (take-drop-append text more zero n (omega arith))
take-drop-append (x ∷ text) more (suc off) n h = take-drop-append text more off n (omega arith)

pub bytes_at_lem :
    (text : Bytes) (b : Buffer) (off n : ℕ)
    → Holds text b
    → off + n ≤ length text
    → bytes_at b.ptr off n ≡ ok (take n (drop off text))
unfolding bytes_at
bytes_at_lem text b zero zero (inr (u, e)) h =
    let inside : leb (0 + 0) (length b.ptr) ≡ true = ground arith in rw inside refl
bytes_at_lem text b zero (suc n) (inr (u, e)) h = absurd (omega (arith, ap length e))
bytes_at_lem text b (suc off) n (inr (u, e)) h = absurd (omega (arith, ap length e))
bytes_at_lem text b off n (inl i) h = rw i.ptr_is (
    rw
      (
        le→leb (off + n) (length (text ++ (0 ∷ i.spare)))
            (omega (arith, length-append text (0 ∷ i.spare))),
        take-drop-append text (0 ∷ i.spare) off n h,
      )
      refl)

module _ (heap : Allocator) where
  -- A part of a chunk goes to the other queue, and the rest stays in the chunk.
  part_lem :
      (t : ChunkType) (dest : Chunkqueue) (c : Chunk) (n : ℕ) (text name : Bytes)
      → IsQueue dest
      → Holds text c.mem
      → Holds name c.file_name
      → c.offset + n ≤ length_of t c.mem c.file_length
      → 0 < n
      → let octets = octets_of t c.mem c.file_name c.file_start c.file_length in
        (front : List Octet) × AppendsTo dest front (steal_part heap t dest c n)
        × (octets c.offset ≡ front ++ octets (c.offset + n))
        × (length front ≡ n)
  unfolding steal_part
  part_lem mem_chunk dest c n text name v h g room p =
      let inside : c.offset + n ≤ length text = rw (length-Holds text c.mem h) at room in
      let part = take n (drop c.offset text) in
      let size_part : length part ≡ n =
        omega (arith, length-take n (drop c.offset text), length-drop c.offset text) in
      let same = string_bytes-Holds text c.mem h in
      let (r, e, a, d, o) =
        append_mem-AppendsTo heap dest part v (omega (arith, length-Holds-lt text c.mem h)) in
      (
        bytes_octets part,
        (r, rw (bytes_at_lem text c.mem c.offset n h inside) e, a, d, o),
        rw same (
            ap bytes_octets (
              sym (take-append-drop n (drop c.offset text))
              ∙ ap (◌++◌ part) (drop-drop text c.offset n))
            ∙ bytes_octets-append part (drop (c.offset + n) text)),
        omega (arith, length-bytes_octets part),
      )
  part_lem file_chunk dest c n text name v h g room p =
      let start = c.file_start + c.offset in
      let same = string_bytes-Holds name c.file_name g in
      let e : c.file_length - c.offset ≡ n + (c.file_length - (c.offset + n)) = omega arith in
      let f : c.file_start + (c.offset + n) ≡ start + n = omega arith in
      (
        file_octets name start n,
        append_file-AppendsTo heap dest c.file_name name start n v g,
        rw (same, e, f) (file_octets-append name start n (c.file_length - (c.offset + n))),
        length-file_octets name start n,
      )

-- The outcome of moving `len` octets from the chunks `cs` of `src`: the first `len` of them, or all
-- where there are fewer, stand behind what `dest` held, in their order, and the others stay.
pub record Steals (cs : List Chunk) (dest src : Chunkqueue) (len : ℕ)
    (o : Outcome (Chunkqueue × Chunkqueue)) : Type 0 where
  pub dest' : Chunkqueue
  pub src' : Chunkqueue
  pub moved : List Octet
  pub returns : o ≡ ok (dest', src')
  pub valid_dest : IsQueue dest'
  pub valid_src : IsQueue src'
  pub parted : contents cs ≡ moved ++ contents src'.chunks
  pub length-moved : length moved ≡ min len (length (contents cs))
  pub appended : contents dest'.chunks ≡ contents dest.chunks ++ moved
  pub counted : src'.bytes_out ≡ src.bytes_out + length moved

-- A whole chunk is moved first.
move_first :
    (c : Chunk) (cs : List Chunk) (dest d src s : Chunkqueue) (len k : ℕ)
    (o o' : Outcome (Chunkqueue × Chunkqueue)) (front : List Octet)
    → Steals cs d s k o
    → o' ≡ o
    → chunk_octets c ≡ front
    → contents d.chunks ≡ contents dest.chunks ++ front
    → s.bytes_out ≡ src.bytes_out + length front
    → len ≡ k + length front
    → Steals (c ∷ cs) dest src len o'
move_first c cs dest d src s len k o o' front t e f g h l = record {
  dest' = t.dest';
  src' = t.src';
  moved = front ++ t.moved;
  returns = e ∙ t.returns;
  valid_dest = t.valid_dest;
  valid_src = t.valid_src;
  parted = rw (f, t.parted) (sym (append_assoc front t.moved (contents t.src'.chunks)));
  length-moved = omega (
    arith,
    t.length-moved,
    length-append front t.moved,
    ap length f,
    length-append (chunk_octets c) (contents cs),
  );
  appended = t.appended ∙ rw g (append_assoc (contents dest.chunks) front t.moved);
  counted = omega (arith, t.counted, length-append front t.moved);
}

module _ (heap : Allocator) where
  -- The last chunk of which something is moved is split.
  part-Steals :
      (c : Chunk) (cs : List Chunk) (dest src : Chunkqueue) (len : ℕ)
      → AreChunks (c ∷ cs)
      → IsQueue dest
      → HasUnused src.unused src.unused_chunks
      → src.bytes_in ≡ src.bytes_out + length (contents (c ∷ cs))
      → 0 < len
      → len < length (chunk_octets c)
      → Steals (c ∷ cs) dest src len (do
        d ← steal_part heap c.type dest c len
        ok (
          d,
          record src {
            chunks = record c { offset = c.offset + len } ∷ cs;
            bytes_out = src.bytes_out + len;
          },
        ))
  part-Steals c cs dest src len all v u b some_len short =
      let (i, others) = all in
      let total = length-append (chunk_octets c) (contents cs) in
      let room : c.offset + len ≤ chunk_length c =
        omega (arith, short, length-chunk_octets c i, i.within) in
      let (front, (d, e, w, f, _), g, n) =
        part_lem heap c.type dest c len i.text i.name v i.mem_holds i.name_holds room some_len in
      let rest = record c { offset = c.offset + len } in
      record {
        dest' = d;
        src' = record src { chunks = rest ∷ cs; bytes_out = src.bytes_out + len };
        moved = front;
        returns = rw e refl;
        valid_dest = w;
        valid_src = record {
          all_chunks = (
            record {
              text = i.text;
              mem_holds = i.mem_holds;
              name = i.name;
              name_holds = i.name_holds;
              within = room;
            },
            others,
          );
          has_unused = u;
          balance = omega (
            arith,
            b,
            total,
            ap length g,
            n,
            length-append front (chunk_octets rest),
            length-append (chunk_octets rest) (contents cs),
          );
        };
        parted =
            ap (λ (xs : List Octet). xs ++ contents cs) g
            ∙ append_assoc front (chunk_octets rest) (contents cs);
        length-moved = omega (arith, n, total, short);
        appended = f;
        counted = omega (arith, n);
      }

  steal_loop-Steals :
      (cs : List Chunk) (dest src : Chunkqueue) (len : ℕ)
      → AreChunks cs
      → IsQueue dest
      → HasUnused src.unused src.unused_chunks
      → src.bytes_in ≡ src.bytes_out + length (contents cs)
      → Steals cs dest src len (steal_loop heap cs dest src len)
  unfolding steal_loop
  steal_loop-Steals [] dest src len all v u b = record {
    dest' = dest;
    src' = record src { chunks = [] };
    moved = [];
    returns = refl;
    valid_dest = v;
    valid_src = record { all_chunks = tt; has_unused = u; balance = b };
    parted = refl;
    length-moved = omega arith;
    appended = sym (append-nil (contents dest.chunks));
    counted = omega arith;
  }
  steal_loop-Steals (c ∷ cs) dest src len all v u b =
      let (i, others) = all in
      let r = remaining_lem c i in
      let clen = length (chunk_octets c) in
      let total = length-append (chunk_octets c) (contents cs) in
      elim (Bool-cases (len == 0)) [
        | inl none_left ↦
            let z : len ≡ 0 = (==_iff len 0).0 none_left in
            record {
              dest' = dest;
              src' = record src { chunks = c ∷ cs };
              moved = [];
              returns = rw none_left refl;
              valid_dest = v;
              valid_src = record { all_chunks = all; has_unused = u; balance = b };
              parted = refl;
              length-moved = omega arith;
              appended = sym (append-nil (contents dest.chunks));
              counted = omega arith;
            }
        | inr some_left ↦ elim (Bool-cases (clen == 0)) [
          | inl empty ↦
              let nothing : chunk_octets c ≡ [] =
                eq_nil_of_length (chunk_octets c) ((==_iff clen 0).0 empty) in
              let (s, e, k) = push_unused_lem src c u i in
              move_first c cs dest dest src s len len _ _ []
                (steal_loop-Steals cs dest s len others v k.has_unused
                  (omega (arith, ap length nothing, k.same_in, k.same_out)))
                (rw (some_left, r, empty, e) refl) nothing (sym (append-nil (contents dest.chunks)))
                (omega (arith, k.same_out)) (omega arith)
          | inr some_here ↦ elim (Bool-cases (leb clen len)) [
            | inl whole ↦
                let (d, e, w, f, _) = append_chunk-AppendsTo dest c v i in
                let s = record src { bytes_out = src.bytes_out + clen } in
                move_first c cs dest d src s len (len - clen) _ _ (chunk_octets c)
                  (steal_loop-Steals cs d s (len - clen) others w u (omega (arith, b, total)))
                  (rw (some_left, r, some_here, whole, e) refl) refl f refl
                  (omega (arith, leb→le clen len whole))
            | inr part ↦
                rw (some_left, r, some_here, part)
                  (part-Steals c cs dest src len all v u b (ground (arith, some_left))
                    (leb→gt clen len part))
          ]
        ]
      ]

  -- On two valid queues chunkqueue_steal returns. It moves the first `len` octets of the source, or
  -- all where there are fewer, behind what the destination holds, in their order; both queues are
  -- valid afterwards, with the octets moved counted as sent by the source.
  pub chunkqueue_steal-Steals :
      (dest src : Chunkqueue) (len : ℕ)
      → IsQueue dest
      → IsQueue src
      → Steals src.chunks dest src len (chunkqueue_steal heap dest src len)
  unfolding chunkqueue_steal
  chunkqueue_steal-Steals dest src len v w =
      steal_loop-Steals src.chunks dest src len w.all_chunks v w.has_unused w.balance

-- ===== src/HttpChunk/Append.antt =====
-- http_chunk.c: what each call that keeps data in memory puts behind the write queue's octets.
use lighttpd_multithread.Base.{
  ℕ, ◌+◌, ◌^◌, ◌<◌, ◌≡◌, refl, sym, ap, ◌∙◌, inl, Bool, true, false, List, [], ◌++◌, append_assoc,
  append-nil, if◌then◌else◌, length, Outcome, ok, ◌>>=◌, arith,
}
use mathlib.Core.Path.{subst}
use lighttpd_multithread.Base.Memory.{Bytes, size_mod, Allocator}
use lighttpd_multithread.Buffer.{Buffer}
use lighttpd_multithread.Buffer.Holds.{Holds}
use lighttpd_multithread.Buffer.Number.Hexadecimal.{IsHexadecimal}
use lighttpd_multithread.Buffer.Whole.{string_bytes-Holds}
use lighttpd_multithread.Chunk.{Chunkqueue, chunkqueue_append_mem}
use lighttpd_multithread.Chunk.Contents.{
  Octet, bytes_octets, bytes_octets-append, file_octets, contents, IsQueue, length-bytes_octets,
  length-file_octets, length-Holds-lt,
}
use lighttpd_multithread.Chunk.Append.{
  append_mem-AppendsTo, append_file_fd-AppendsTo, append_buffer-AppendsTo,
}
use lighttpd_multithread.HttpChunk.{
  Body, Piece, in_buffer, in_memory, piece_bytes, crlf, last_chunk_crlf, with_queue,
  http_chunk_append_len, before_data, after_data, http_chunk_append_file_fd_range, append_piece,
  append_in_memory, http_chunk_close,
}
use lighttpd_multithread.HttpChunk.Decode.{line_end, last_octets, IsFramed}
use lighttpd_multithread.HttpChunk.Length.{chunk_len-IsString}

pub record IsBody (con : Body) : Type 0 where
  pub is_queue : IsQueue con.write_queue
  pub tmp_text : Bytes
  pub tmp_holds : Holds tmp_text con.tmp_chunk_len

abbrev pub held : Body → List Octet
held con = contents con.write_queue.chunks

-- The body `r` is `con` with the octets `xs` behind those that it held.
pub record IsLonger (con : Body) (xs : List Octet) (r : Body) : Type 0 where
  pub is_body : IsBody r
  pub same_chunked : r.chunked ≡ con.chunked
  pub holds : held r ≡ held con ++ xs
  pub same_out : r.write_queue.bytes_out ≡ con.write_queue.bytes_out

abbrev pub Lengthens : Body → List Octet → Outcome Body → Type 0
Lengthens con xs o = (r : Body) × (o ≡ ok r) × IsLonger con xs r

-- The data `d` as it goes to the client.
abbrev pub Carries : Bool → List Octet → List Octet → Type 0
Carries false d wire = wire ≡ d
Carries true d wire = IsFramed d wire

abbrev pub Sends : Body → List Octet → Outcome Body → Type 0
Sends con d o = (wire : List Octet) × Carries con.chunked d wire × Lengthens con wire o

abbrev IsHead : Bool → ℕ → List Octet → Type 0
IsHead false n h = h ≡ []
IsHead true n h = (t : Bytes) × IsHexadecimal n t × (h ≡ bytes_octets t ++ line_end)

abbrev tail : Bool → List Octet
tail false = []
tail true = line_end

around-Carries :
    (chunked : Bool) (d h : List Octet)
    → IsHead chunked (length d) h
    → Carries chunked d ((h ++ d) ++ tail chunked)
around-Carries false d h e = rw e (append-nil d)
around-Carries true d h (t, i, e) = (t, i, rw e (simp append_assoc refl))

pub IsLonger-refl : (con : Body) → IsBody con → IsLonger con [] con
IsLonger-refl con v = record {
  is_body = v;
  same_chunked = refl;
  holds = sym (append-nil (held con));
  same_out = refl;
}

pub IsLonger-trans :
    (con c d : Body) (xs ys : List Octet)
    → IsLonger con xs c
    → IsLonger c ys d
    → IsLonger con (xs ++ ys) d
IsLonger-trans con c d xs ys i j = record {
  is_body = j.is_body;
  same_chunked = j.same_chunked ∙ i.same_chunked;
  holds = j.holds ∙ ap (λ l. l ++ ys) i.holds ∙ append_assoc (held con) xs ys;
  same_out = j.same_out ∙ i.same_out;
}

-- What an operation on the queue does to the body.
queue-IsLonger :
    (con : Body) (xs : List Octet) (q : Chunkqueue)
    → IsBody con
    → IsQueue q
    → contents q.chunks ≡ held con ++ xs
    → q.bytes_out ≡ con.write_queue.bytes_out
    → IsLonger con xs (with_queue con q)
queue-IsLonger con xs q v i e f = record {
  is_body = record { is_queue = i; tmp_text = v.tmp_text; tmp_holds = v.tmp_holds };
  same_chunked = refl;
  holds = e;
  same_out = f;
}

-- Data of one chunk: a buffer with the string, or bytes that fit in the address space.
abbrev pub IsPiece : Bytes → Piece → Type 0
IsPiece s (in_buffer b) = Holds s b
IsPiece s (in_memory mem) = (mem ≡ s) × (length mem + 1 < size_mod)

length-IsPiece : (s : Bytes) (piece : Piece) → IsPiece s piece → length s + 1 < size_mod
length-IsPiece s (in_buffer b) h = length-Holds-lt s b h
length-IsPiece s (in_memory mem) (e, f) = rw (sym e) f

pub bytes-IsPiece : (s : Bytes) (piece : Piece) → IsPiece s piece → piece_bytes piece ≡ s
bytes-IsPiece s (in_buffer b) h = string_bytes-Holds s b h
bytes-IsPiece s (in_memory mem) (e, f) = e

module _ (heap : Allocator) where
  append_len-Lengthens :
      (con : Body) (len : ℕ)
      → IsBody con
      → len < 2 ^ 64
      → (t : Bytes) × IsHexadecimal len t
        × Lengthens con (bytes_octets t ++ line_end) (http_chunk_append_len heap con len)
  unfolding http_chunk_append_len
  append_len-Lengthens con len v f =
      let (t, h, (b, e, i)) =
        chunk_len-IsString heap con.tmp_chunk_len v.tmp_text len v.tmp_holds f in
      let (q, rest, g, iq, same, out, z) =
        append_buffer-AppendsTo con.write_queue b (t ++ crlf) v.is_queue (inl i) in
      (
        t,
        h,
        (
          record con { write_queue = q; tmp_chunk_len = rest },
          rw (e, g) refl,
          record {
            is_body = record { is_queue = iq; tmp_text = []; tmp_holds = z };
            same_chunked = refl;
            holds = same ∙ ap (λ l. held con ++ l) (bytes_octets-append t crlf);
            same_out = out;
          },
        ),
      )

  before_lem :
      (chunked : Bool) (con : Body) (len : ℕ)
      → IsBody con
      → len < 2 ^ 64
      → (h : List Octet) × IsHead chunked len h
        × Lengthens con h (if chunked then http_chunk_append_len heap con len else ok con)
  before_lem false con len v f = ([], refl, (con, refl, IsLonger-refl con v))
  before_lem true con len v f =
      let (t, h, l) = append_len-Lengthens con len v f in
      (bytes_octets t ++ line_end, (t, h, refl), l)

  append_bytes-Lengthens :
      (con : Body) (text : Bytes)
      → IsBody con
      → length text + 1 < size_mod
      → Lengthens con
          (bytes_octets text)
          (do q ← chunkqueue_append_mem heap con.write_queue text; ok (with_queue con q))
  append_bytes-Lengthens con text v f =
      let (q, e, i, same, out) = append_mem-AppendsTo heap con.write_queue text v.is_queue f in
      (with_queue con q, rw e refl, queue-IsLonger con (bytes_octets text) q v i same out)

  after_lem :
      (chunked : Bool) (con : Body)
      → IsBody con
      → Lengthens con (tail chunked) (
          if chunked
          then (do q ← chunkqueue_append_mem heap con.write_queue crlf; ok (with_queue con q))
          else ok con)
  after_lem false con v = (con, refl, IsLonger-refl con v)
  after_lem true con v = append_bytes-Lengthens con crlf v (omega arith)

  -- Behind the data `d`, which follows the line `h` with its length.
  after_data-Sends :
      (con c : Body) (h d : List Octet) (q : Chunkqueue)
      → IsHead con.chunked (length d) h
      → IsLonger con h c
      → IsLonger c d (with_queue c q)
      → Sends con d (after_data heap (with_queue c q))
  unfolding after_data
  after_data-Sends con c h d q is_head i k =
      let (r, l, m) = after_lem c.chunked (with_queue c q) k.is_body in
      let n =
        IsLonger-trans con (with_queue c q) r (h ++ d) (tail c.chunked)
          (IsLonger-trans con c (with_queue c q) h d i k) m in
      (
        (h ++ d) ++ tail con.chunked,
        around-Carries con.chunked d h is_head,
        (r, l, subst (λ b. IsLonger con ((h ++ d) ++ tail b) r) i.same_chunked n),
      )

  -- For a valid body, http_chunk_append_file_fd_range returns: behind what the write queue held stand
  -- `len` octets of the file from `offset` on, as a chunk of the coding with the right length where the
  -- body is chunked; the body is valid, and as many octets as before count as sent.
  pub append_file_fd_range-Sends :
      (con : Body) (fn : Buffer) (name : Bytes) (fd offset len : ℕ)
      → IsBody con
      → Holds name fn
      → len < 2 ^ 64
      → Sends con
          (file_octets name offset len)
          (http_chunk_append_file_fd_range heap con fn fd offset len)
  unfolding http_chunk_append_file_fd_range before_data
  append_file_fd_range-Sends con fn name fd offset len v g f =
      let same_length = length-file_octets name offset len in
      let (h, is_head, (c, e, i)) = before_lem con.chunked con len v f in
      let (q, k, j, same, out) =
        append_file_fd-AppendsTo heap c.write_queue fn name fd offset len i.is_body.is_queue g in
      let d = file_octets name offset len in
      let (wire, carries, (r, l, m)) =
        after_data-Sends con c h d q (subst (λ n. IsHead con.chunked n h) (sym same_length) is_head)
          i (queue-IsLonger c d q i.is_body j same out) in
      (wire, carries, (r, rw (e, k) l, m))

  append_piece_lem :
      (q : Chunkqueue) (s : Bytes) (piece : Piece)
      → IsQueue q
      → IsPiece s piece
      → (r : Chunkqueue) × (rest : Piece) × (append_piece heap q piece ≡ ok (r, rest))
        × IsQueue r
        × (contents r.chunks ≡ contents q.chunks ++ bytes_octets s)
        × (r.bytes_out ≡ q.bytes_out)
  unfolding append_piece
  append_piece_lem q s (in_buffer b) v h =
      let (r, rest, e, i, same, out, _) = append_buffer-AppendsTo q b s v h in
      (r, in_buffer rest, rw e refl, i, same, out)
  append_piece_lem q s (in_memory mem) v (f, g) =
      let (r, e, i, same, out) = append_mem-AppendsTo heap q mem v g in
      (r, in_memory mem, rw e refl, i, rw (sym f) same, out)

  pub append_in_memory-Sends :
      (con : Body) (s : Bytes) (piece : Piece)
      → IsBody con
      → IsPiece s piece
      → (wire : List Octet) × Carries con.chunked (bytes_octets s) wire
        × ((r : Body) × (rest : Piece) × (append_in_memory heap con piece ≡ ok (r, rest))
            × IsLonger con wire r)
  unfolding append_in_memory before_data
  append_in_memory-Sends con s piece v p =
      let d = bytes_octets s in
      let (h, is_head, (c, e, i)) =
        before_lem con.chunked con (length s) v (omega (arith, length-IsPiece s piece p)) in
      let (q, rest, k, j, same, out) =
        append_piece_lem c.write_queue s piece i.is_body.is_queue p in
      let (wire, carries, (r, l, m)) =
        after_data-Sends con c h d q
          (subst (λ n. IsHead con.chunked n h) (sym (length-bytes_octets s)) is_head) i
          (queue-IsLonger c d q i.is_body j same out) in
      (wire, carries, (r, rest, rw (bytes-IsPiece s piece p, e, k, l) refl, m))

  close_lem :
      (chunked : Bool) (con : Body)
      → IsBody con
      → Lengthens con (if chunked then last_octets else []) (
          if chunked
          then (do
            q ← chunkqueue_append_mem heap con.write_queue last_chunk_crlf
            ok (with_queue con q))
          else ok con)
  close_lem false con v = (con, refl, IsLonger-refl con v)
  close_lem true con v = append_bytes-Lengthens con last_chunk_crlf v (omega arith)

  pub http_chunk_close-Lengthens :
      (con : Body)
      → IsBody con
      → Lengthens con (if con.chunked then last_octets else []) (http_chunk_close heap con)
  unfolding http_chunk_close
  http_chunk_close-Lengthens con v = close_lem con.chunked con v

-- ===== src/Chunk/Append.antt =====
-- chunk.c: what is appended to a queue stands behind what it holds.
use lighttpd_multithread.Base.{
  ℕ, zero, suc, ◌+◌, ◌-◌, ◌<◌, ◌≡◌, refl, sym, ap, ◌∙◌, ◌⊎◌, inl, inr, true, false, Option, none,
  some, List, [], ◌∷◌, ◌++◌, append-nil, ◌==◌, length, length-append, Outcome, ok, arith,
}
use lighttpd_multithread.Base.Memory.{Bytes, size_mod, Allocator}
use lighttpd_multithread.Buffer.{Buffer, buffer_string_is_empty}
use lighttpd_multithread.Buffer.Holds.{Holds}
use lighttpd_multithread.Buffer.Append.{copy_string_len-Stores}
use lighttpd_multithread.Buffer.Whole.{buffer_move_lem, copy_buffer-Holds, string_bytes-Holds}
use lighttpd_multithread.Chunk.{
  mem_chunk, file_chunk, Chunk, Chunkqueue, chunkqueue_get_unused_chunk, chunkqueue_append_chunk,
  append_range, chunkqueue_append_file, chunkqueue_append_file_fd, chunkqueue_append_mem,
  move_to_chunk, chunkqueue_append_buffer,
}
use lighttpd_multithread.Chunk.Contents.{
  Octet, bytes_octets, file_octets, chunk_octets, contents, contents-append, append-AreChunks,
  IsChunk, IsReset, IsQueue, remaining_lem,
}
use lighttpd_multithread.Chunk.Unused.{Keeps, Keeps-IsQueue, get_unused_lem}

-- The call returns a valid queue that holds the octets `xs` behind what `q` holds. (The octets sent
-- so far are still counted.)
abbrev pub AppendsTo : Chunkqueue → List Octet → Outcome Chunkqueue → Type 0
AppendsTo q xs o =
    (r : Chunkqueue) × (o ≡ ok r)
    × IsQueue r
    × (contents r.chunks ≡ contents q.chunks ++ xs)
    × (r.bytes_out ≡ q.bytes_out)

pub append_chunk-AppendsTo :
    (q : Chunkqueue) (c : Chunk)
    → IsQueue q
    → IsChunk c
    → AppendsTo q (chunk_octets c) (chunkqueue_append_chunk q c)
unfolding chunkqueue_append_chunk
append_chunk-AppendsTo q c v i =
    let e : contents (q.chunks ++ (c ∷ [])) ≡ contents q.chunks ++ chunk_octets c =
      contents-append q.chunks (c ∷ [])
      ∙ ap (◌++◌ (contents q.chunks)) (append-nil (chunk_octets c)) in
    (
      record q { chunks = q.chunks ++ (c ∷ []); bytes_in = q.bytes_in + length (chunk_octets c) },
      rw (remaining_lem c i) refl,
      record {
        all_chunks = append-AreChunks q.chunks (c ∷ []) v.all_chunks (i, tt);
        has_unused = v.has_unused;
        balance =
            omega
              (arith, v.balance, ap length e, length-append (contents q.chunks) (chunk_octets c));
      },
      e,
      refl,
    )

-- After a chunk was taken from the cache.
pub after_get :
    (q r : Chunkqueue) (xs : List Octet) (o : Outcome Chunkqueue)
    → Keeps q r
    → AppendsTo r xs o
    → AppendsTo q xs o
after_get q r xs o k (s, e, v, f, g) = (s, e, v, rw (sym k.same_chunks) f, g ∙ k.same_out)

-- A chunk from the cache, once it has a string, or a range of a file.
mem_chunk_lem :
    (c : Chunk) (b : Buffer) (s : Bytes)
    → IsReset c
    → Holds s b
    → IsChunk (record c { type = mem_chunk; mem = b })
      × (chunk_octets (record c { type = mem_chunk; mem = b }) ≡ bytes_octets s)
mem_chunk_lem c b s z h = (
  record {
    text = s;
    mem_holds = h;
    name = [];
    name_holds = inr (z.name_unset, refl);
    within = omega (arith, z.not_sent);
  },
  rw (z.not_sent, string_bytes-Holds s b h) refl,
)

range_chunk_lem :
    (c : Chunk) (name : Buffer) (s : Bytes) (fd : Option ℕ) (start len : ℕ)
    → IsReset c
    → Holds s name
    → let d = record c {
      type = file_chunk;
      file_name = name;
      file_start = start;
      file_length = len;
      file_fd = fd;
      offset = 0;
    } in
      IsChunk d × (chunk_octets d ≡ file_octets s start len)
range_chunk_lem c name s fd start len z h =
    let e : start + 0 ≡ start = omega arith in
    let f : len - 0 ≡ len = omega arith in
    (
      record {
        text = [];
        mem_holds = inr (z.mem_unset, refl);
        name = s;
        name_holds = h;
        within = omega arith;
      },
      rw (e, f, string_bytes-Holds s name h) refl,
    )

module _ (heap : Allocator) where
  -- On a valid queue, chunkqueue_append_mem returns where the bytes fit in the address space: they
  -- stand behind what the queue held, which is valid, and as many octets as before count as sent.
  pub append_mem-AppendsTo :
      (q : Chunkqueue) (text : Bytes)
      → IsQueue q
      → length text + 1 < size_mod
      → AppendsTo q (bytes_octets text) (chunkqueue_append_mem heap q text)
  unfolding chunkqueue_append_mem
  append_mem-AppendsTo q [] v f = (q, refl, v, sym (append-nil (contents q.chunks)), refl)
  append_mem-AppendsTo q (x ∷ text) v f =
      let (z, k) = get_unused_lem q v.has_unused in
      let (c, r) = chunkqueue_get_unused_chunk q in
      let more : (length (x ∷ text) == 0) ≡ false = ground arith in
      elim (copy_string_len-Stores heap (x ∷ text) c.mem z.mem_unset.fits (omega arith)) [
        | inl (b, e, i) ↦
            let (is_chunk, same) = mem_chunk_lem c b (x ∷ text) z (inl i) in
            let (q', f', v', g, h) =
              append_chunk-AppendsTo r (record c { type = mem_chunk; mem = b })
                (Keeps-IsQueue q r k v) is_chunk in
            after_get q r (bytes_octets (x ∷ text)) _ k
              (q', rw (more, e) f', v', rw (sym same) g, h)
        | inr (large, e) ↦ absurd (omega arith)
      ]

  append_range-AppendsTo :
      (q : Chunkqueue) (fn : Buffer) (s : Bytes) (fd : Option ℕ) (start len : ℕ)
      → IsQueue q
      → Holds s fn
      → AppendsTo q (file_octets s start len) (append_range heap q fn fd start len)
  unfolding append_range
  append_range-AppendsTo q fn s fd start len v h =
      let (z, k) = get_unused_lem q v.has_unused in
      let (c, r) = chunkqueue_get_unused_chunk q in
      let (name, e, g, _) = copy_buffer-Holds heap s c.file_name fn z.name_unset.fits h in
      let (is_chunk, same) =
        range_chunk_lem c name s (elim fd [ none ↦ c.file_fd | some n ↦ some n ]) start len z g in
      let (q', f', v', j, o) = append_chunk-AppendsTo r _ (Keeps-IsQueue q r k v) is_chunk in
      after_get q r (file_octets s start len) _ k (q', rw e f', v', rw (sym same) j, o)

  -- On a valid queue, chunkqueue_append_file returns: `len` octets of the file from `start` on stand
  -- behind what the queue held, which is valid, and as many octets as before count as sent.
  pub append_file-AppendsTo :
      (q : Chunkqueue) (fn : Buffer) (s : Bytes) (start len : ℕ)
      → IsQueue q
      → Holds s fn
      → AppendsTo q (file_octets s start len) (chunkqueue_append_file heap q fn start len)
  unfolding chunkqueue_append_file
  append_file-AppendsTo q fn s start zero v h =
      (q, refl, v, sym (append-nil (contents q.chunks)), refl)
  append_file-AppendsTo q fn s start (suc len) v h =
      let more : (suc len == 0) ≡ false = ground arith in
      rw more (append_range-AppendsTo q fn s none start (suc len) v h)

  pub append_file_fd-AppendsTo :
      (q : Chunkqueue) (fn : Buffer) (s : Bytes) (fd start len : ℕ)
      → IsQueue q
      → Holds s fn
      → AppendsTo q (file_octets s start len) (chunkqueue_append_file_fd heap q fn fd start len)
  unfolding chunkqueue_append_file_fd
  append_file_fd-AppendsTo q fn s fd start zero v h =
      (q, refl, v, sym (append-nil (contents q.chunks)), refl)
  append_file_fd-AppendsTo q fn s fd start (suc len) v h =
      let more : (suc len == 0) ≡ false = ground arith in
      rw more (append_range-AppendsTo q fn s (some fd) start (suc len) v h)

pub move_to_chunk_lem :
    (c : Chunk) (b : Buffer) (s : Bytes)
    → IsReset c
    → Holds s b
    → (d : Chunk) × (rest : Buffer) × (move_to_chunk c b ≡ ok (d, rest))
      × IsChunk d
      × (chunk_octets d ≡ bytes_octets s)
      × Holds [] rest
unfolding move_to_chunk
move_to_chunk_lem c b s z h =
    let (m, rest, e, g, _, u) = buffer_move_lem c.mem b s z.mem_unset.fits h in
    let (is_chunk, same) = mem_chunk_lem c m s z g in
    (record c { type = mem_chunk; mem = m }, rest, rw e refl, is_chunk, same, inr (u, refl))

-- An empty buffer appends nothing.
pub empty_cases :
    (s : Bytes) (b : Buffer)
    → Holds s b
    → ((buffer_string_is_empty b ≡ true) × (s ≡ [])) ⊎ (buffer_string_is_empty b ≡ false)
unfolding buffer_string_is_empty
empty_cases [] b (inl i) = inl (ground (arith, i.used_is), refl)
empty_cases (x ∷ s) b (inl i) = inr (ground (arith, i.used_is))
empty_cases s b (inr (u, e)) = inl (ground (arith, u.unused), e)

-- On a valid queue, chunkqueue_append_buffer returns: the bytes of the buffer's string stand behind
-- what the queue held, which is valid, as many octets as before count as sent, and the buffer holds
-- the empty string.
pub append_buffer-AppendsTo :
    (q : Chunkqueue) (b : Buffer) (s : Bytes)
    → IsQueue q
    → Holds s b
    → (r : Chunkqueue) × (rest : Buffer) × (chunkqueue_append_buffer q b ≡ ok (r, rest))
      × IsQueue r
      × (contents r.chunks ≡ contents q.chunks ++ bytes_octets s)
      × (r.bytes_out ≡ q.bytes_out)
      × Holds [] rest
unfolding chunkqueue_append_buffer
append_buffer-AppendsTo q b s v h = elim (empty_cases s b h) [
  | inl (e, f) ↦ (q, b, rw e refl, v, rw f (sym (append-nil (contents q.chunks))), refl, rw f at h)
  | inr e ↦
      let (z, k) = get_unused_lem q v.has_unused in
      let (c, r) = chunkqueue_get_unused_chunk q in
      let (d, rest, m, i, same, w) = move_to_chunk_lem c b s z h in
      let (q', f', v', g, o) =
        after_get q r (chunk_octets d) _ k (append_chunk-AppendsTo r d (Keeps-IsQueue q r k v) i) in
      (
        q',
        rest,
        rw (e, m, f') refl,
        v',
        g ∙ ap (λ (l : List Octet). contents q.chunks ++ l) same,
        o,
        w,
      )
]

-- ===== src/HttpChunk/Whole.antt =====
-- http_chunk.c: a whole body, made by a sequence of calls and closed, is read back from the queue.
use lighttpd_multithread.Base.{
  ℕ, suc, ◌^◌, ◌≤◌, ◌<◌, ◌≡◌, refl, sym, ap, ◌∙◌, ◌⊎◌, inl, inr, Bool, true, false, some, List, [],
  ◌∷◌, ◌++◌, ◌+◌, ◌-◌, ◌*◌, ◌||◌, Option, none, ltb, ltb→lt, Bool-cases, append-nil, if◌then◌else◌,
  ◌==◌, length, Outcome, ok, ◌>>=◌, arith,
}
use mathlib.Core.Path.{subst}
use lighttpd_multithread.Base.Memory.{Bytes, Allocator}
use lighttpd_multithread.Buffer.{Buffer}
use lighttpd_multithread.Buffer.Holds.{Holds}
use lighttpd_multithread.Chunk.{Chunk}
use lighttpd_multithread.Chunk.Memory.{last_chunk}
use lighttpd_multithread.Chunk.Tempfile.{FileSystem, Tempdirs, Ended, appended, is_temp_file}
use lighttpd_multithread.Chunk.Contents.{
  IsQueue, contents, Octet, bytes_octets, file_octets, length-file_octets,
}
use lighttpd_multithread.HttpChunk.{
  Body, Piece, in_buffer, in_memory, piece_bytes, use_tempfile, http_chunk_append_data,
  http_chunk_append_buffer, http_chunk_append_mem, http_chunk_append_file_fd_range,
  http_chunk_close,
}
use lighttpd_multithread.HttpChunk.Decode.{
  AreFramed, concat, last_octets, read_chunks, read_chunks_framed,
}
use lighttpd_multithread.HttpChunk.Append.{
  IsBody, IsLonger, IsLonger-refl, IsLonger-trans, Carries, Sends, IsPiece, bytes-IsPiece,
  append_in_memory-Sends, append_file_fd_range-Sends, http_chunk_close-Lengthens,
}

-- What a caller adds to a body: data, or a range of a file.
pub data Part : Type 0 where
  put_data : Piece → Part
  put_range : Buffer → (fd offset len : ℕ) → Part

-- A part stands for octets; a range of a file is not empty.
abbrev pub IsPart : Part → List Octet → Type 0
IsPart (put_data piece) xs = (s : Bytes) × IsPiece s piece × (xs ≡ bytes_octets s)
IsPart (put_range fn fd offset len) xs =
    (name : Bytes) × Holds name fn × (0 < len) × (len < 2 ^ 64) × (xs ≡ file_octets name offset len)

abbrev pub AreParts : List Part → List Octet → Type 0
AreParts [] xs = xs ≡ []
AreParts (p ∷ ps) xs =
    (ys : List Octet) × (zs : List Octet) × IsPart p ys × AreParts ps zs × (xs ≡ ys ++ zs)

-- The octets `wire` carry the data `xs`, in the coding where the body is chunked.
abbrev pub Delivers : Bool → ℕ → List Octet → List Octet → Type 0
Delivers false most xs wire = wire ≡ xs
Delivers true most xs wire =
    (rounds : ℕ) × (rounds ≤ most) × (read_chunks rounds wire ≡ some (xs, []))

-- The data is not kept in memory: the last chunk is a temporary file, or the queue's octets and the new
-- ones are more than 64 (or 128) kilobytes.
abbrev pub NeedsFile : Body → ℕ → Type 0
NeedsFile con len =
    ((before : List Chunk) × (c : Chunk) × (last_chunk con.write_queue.chunks ≡ some (before, c))
      × (is_temp_file c.type c.is_temp ≡ true))
    ⊎ (1024 * (if con.buf_min then 128 else 64) < length (contents con.write_queue.chunks) + len)

last_in_file :
    (q : List Chunk) (last : Option (List Chunk × Chunk))
    → last_chunk q ≡ last
    → elim last [ none ↦ false | some (before, c) ↦ is_temp_file c.type c.is_temp ] ≡ true
    → (before : List Chunk) × (c : Chunk) × (last_chunk q ≡ some (before, c))
      × (is_temp_file c.type c.is_temp ≡ true)
last_in_file q none e h = absurd (ground (arith, h))
last_in_file q (some (before, c)) e h = (before, c, e, h)

either_true : (a b : Bool) → a || b ≡ true → (a ≡ true) ⊎ (b ≡ true)
either_true true b e = inl refl
either_true false b e = inr e

module _ (heap : Allocator) (fs : FileSystem) (conf : Tempdirs) (fuel : ℕ) where
  abbrev pub Sent : Type 0
  Sent = Outcome (Ended × fs.State × Body)

  use_tempfile-NeedsFile :
      (con : Body) (len : ℕ)
      → IsQueue con.write_queue
      → use_tempfile heap fs conf fuel con len ≡ true
      → NeedsFile con len
  unfolding use_tempfile
  use_tempfile-NeedsFile con len v e =
      let q = con.write_queue in
      let limit = 1024 * (if con.buf_min then 128 else 64) in
      let file : Bool = elim (last_chunk q.chunks) [
        | none ↦ false
        | some (before, c) ↦ is_temp_file c.type c.is_temp
      ] in
      elim (either_true file (ltb limit (q.bytes_in - q.bytes_out + len)) e) [
        | inl h ↦ inl (last_in_file q.chunks (last_chunk q.chunks) refl h)
        | inr h ↦ inr (omega (arith, ltb→lt _ _ h, v.balance))
      ]

  -- The call for a part.
  pub append_part : Body → fs.State → Part → Sent
  append_part con s (put_data (in_buffer b)) = do
    (e, t, c, rest) ← http_chunk_append_buffer heap fs conf fuel con s b
    ok (e, t, c)
  append_part con s (put_data (in_memory mem)) = do
    (e, t, c, rest) ← http_chunk_append_mem heap fs conf fuel con s mem
    ok (e, t, c)
  append_part con s (put_range fn fd offset len) = do
    c ← http_chunk_append_file_fd_range heap con fn fd offset len
    ok (appended, s, c)

  -- The calls one after another, up to one that fails.
  pub append_parts : Body → fs.State → List Part → Sent
  unfolding append_part
  append_parts con s [] = ok (appended, s, con)
  append_parts con s (p ∷ ps) = do
    (e, t, c) ← append_part con s p
    let next = append_parts c t ps
    elim e [ appended ↦ next | other ↦ ok (other, t, c) ]

  pub send_body : Body → fs.State → List Part → Sent
  unfolding append_parts
  send_body con s ps = do
    (e, t, c) ← append_parts con s ps
    let close = do d ← http_chunk_close heap c; ok (appended, t, d)
    elim e [ appended ↦ close | other ↦ ok (other, t, c) ]

  -- The call succeeds, and no file was touched.
  abbrev pub Grows : Body → fs.State → List Octet → Sent → Type 0
  Grows con s wire o = (r : Body) × (o ≡ ok (appended, s, r)) × IsLonger con wire r

  -- All parts before a piece were put into the queue, and for the piece memory does not do.
  abbrev pub Spills : Body → fs.State → List Part → Type 0
  Spills con s ps =
      (done : List Part) × (piece : Piece) × (rest : List Part) × (c : Body) × (ps
        ≡ done ++ (put_data piece ∷ rest))
      × (append_parts con s done ≡ ok (appended, s, c))
      × NeedsFile c (length (piece_bytes piece))

  abbrev Wires : Bool → List (List Octet) → List Octet → Type 0
  Wires false ds wire = wire ≡ concat ds
  Wires true ds wire = AreFramed ds wire

  abbrev IsLarge : Body → Part → Type 0
  IsLarge con (put_data piece) = NeedsFile con (length (piece_bytes piece))
  IsLarge con (put_range fn fd offset len) = ⊥

  -- Data, or none, goes to the client; or it is too much for memory.
  abbrev Adds : Body → fs.State → Part → List Octet → Sent → Type 0
  Adds con s p xs o =
      ((xs ≡ []) × Grows con s [] o)
      ⊎ ((0 < length xs) × (wire : List Octet) × Carries con.chunked xs wire × Grows con s wire o)
      ⊎ IsLarge con p

  abbrev put : Body → fs.State → Piece → Sent
  put con s piece = do
    (e, t, c, rest) ← http_chunk_append_data heap fs conf fuel con s piece
    ok (e, t, c)

  put-Adds :
      (con : Body) (s : fs.State) (piece : Piece) (text : Bytes)
      → IsBody con
      → IsPiece text piece
      → Adds con s (put_data piece) (bytes_octets text) (put con s piece)
  unfolding http_chunk_append_data
  put-Adds con s piece [] v i =
      inl (refl, (con, rw (bytes-IsPiece [] piece i) refl, IsLonger-refl con v))
  put-Adds con s piece (x ∷ text) v i =
      let more : (length (piece_bytes piece) == 0) ≡ false =
        rw (bytes-IsPiece (x ∷ text) piece i) (ground arith) in
      elim (Bool-cases (use_tempfile heap fs conf fuel con (length (piece_bytes piece)))) [
        | inl large ↦ inr (inr (use_tempfile-NeedsFile con _ v.is_queue large))
        | inr small ↦
            let (wire, carries, (r, rest, f, l)) =
              append_in_memory-Sends heap con (x ∷ text) piece v i in
            inr (inl (omega arith, wire, carries, (r, rw (more, small, f) refl, l)))
      ]

  put_by_call :
      (con : Body) (s : fs.State) (piece : Piece)
      → append_part con s (put_data piece) ≡ put con s piece
  unfolding append_part http_chunk_append_buffer http_chunk_append_mem
  put_by_call con s (in_buffer b) = refl
  put_by_call con s (in_memory mem) = refl

  range-Adds :
      (con : Body) (s : fs.State) (p : Part) (xs : List Octet) (o : Outcome Body)
      → 0 < length xs
      → Sends con xs o
      → Adds con s p xs (do c ← o; ok (appended, s, c))
  range-Adds con s p xs o nonempty (wire, carries, (r, f, l)) =
      inr (inl (nonempty, wire, carries, (r, rw f refl, l)))

  append_part-Adds :
      (con : Body) (s : fs.State) (p : Part) (xs : List Octet)
      → IsBody con
      → IsPart p xs
      → Adds con s p xs (append_part con s p)
  unfolding append_part
  append_part-Adds con s (put_data piece) xs v (text, i, e) =
      subst (λ ys. Adds con s (put_data piece) ys (append_part con s (put_data piece))) (sym e)
        (subst (λ o. Adds con s (put_data piece) (bytes_octets text) o)
          (sym (put_by_call con s piece)) (put-Adds con s piece text v i))
  append_part-Adds con s (put_range fn fd offset len) xs v (name, h, nonempty, f, e) =
      range-Adds con s (put_range fn fd offset len) xs
        (http_chunk_append_file_fd_range heap con fn fd offset len)
        (omega (arith, ap length e, length-file_octets name offset len, nonempty))
        (subst (λ ys. Sends con ys (http_chunk_append_file_fd_range heap con fn fd offset len))
          (sym e) (append_file_fd_range-Sends heap con fn name fd offset len v h f))

  -- One more chunk in front of the others.
  Wires-cons :
      (chunked : Bool) (ys : List Octet) (ds : List (List Octet)) (w rest : List Octet)
      → 0 < length ys
      → Carries chunked ys w
      → Wires chunked ds rest
      → Wires chunked (ys ∷ ds) (w ++ rest)
  Wires-cons false ys ds w rest p e f = rw (e, f) refl
  Wires-cons true ys ds w rest p e f = (p, (w, rest, e, f, refl))

  Wires-nil : (chunked : Bool) → Wires chunked [] []
  Wires-nil false = refl
  Wires-nil true = refl

  -- All parts are in the queue, or memory does not do for one of them.
  abbrev AllGrow : Body → fs.State → List Part → List Octet → Type 0
  AllGrow con s ps xs =
      (ds : List (List Octet)) × (wire : List Octet) × (concat ds ≡ xs)
      × (length ds ≤ length ps)
      × Wires con.chunked ds wire
      × Grows con s wire (append_parts con s ps)

  Spills-here :
      (con : Body) (s : fs.State) (p : Part) (ps : List Part)
      → IsLarge con p
      → Spills con s (p ∷ ps)
  unfolding append_parts
  Spills-here con s (put_data piece) ps h = ([], piece, ps, con, refl, refl, h)
  Spills-here con s (put_range fn fd offset len) ps h = absurd h

  Spills-later :
      (con c : Body) (s : fs.State) (p : Part) (ps : List Part)
      → append_part con s p ≡ ok (appended, s, c)
      → Spills c s ps
      → Spills con s (p ∷ ps)
  unfolding append_parts
  Spills-later con c s p ps f (done, piece, rest, d, e, g, h) =
      (p ∷ done, piece, rest, d, ap (◌∷◌ p) e, rw (f, g) refl, h)

  append_parts_lem :
      (con : Body) (s : fs.State) (ps : List Part) (xs : List Octet)
      → IsBody con
      → AreParts ps xs
      → AllGrow con s ps xs ⊎ Spills con s ps
  unfolding append_parts
  append_parts_lem con s [] xs v e =
      inl ([], [], sym e, omega arith, Wires-nil con.chunked, (con, refl, IsLonger-refl con v))
  append_parts_lem con s (p ∷ ps) xs v (ys, zs, i, a, e) = elim (append_part-Adds con s p ys v i) [
    | inl (no_data, (c, f, l)) ↦ elim (append_parts_lem c s ps zs l.is_body a) [
      | inl (ds, wire, g, most, w, (r, h, m)) ↦ inl (
        ds,
        wire,
        g ∙ sym (e ∙ ap (λ l. l ++ zs) no_data),
        omega (arith, most),
        subst (λ b. Wires b ds wire) l.same_chunked w,
        (r, rw (f, h) refl, IsLonger-trans con c r [] wire l m),
      )
      | inr large ↦ inr (Spills-later con c s p ps f large)
    ]
    | inr (inl (nonempty, first, carries, (c, f, l))) ↦
        elim (append_parts_lem c s ps zs l.is_body a) [
          | inl (ds, wire, g, most, w, (r, h, m)) ↦ inl (
            ys ∷ ds,
            first ++ wire,
            ap (λ l. ys ++ l) g ∙ sym e,
            omega (arith, most),
            Wires-cons con.chunked ys ds first wire nonempty carries
                (subst (λ b. Wires b ds wire) l.same_chunked w),
            (r, rw (f, h) refl, IsLonger-trans con c r first wire l m),
          )
          | inr large ↦ inr (Spills-later con c s p ps f large)
        ]
    | inr (inr large) ↦ inr (Spills-here con s p ps large)
  ]

  delivers :
      (chunked : Bool) (most : ℕ) (ds : List (List Octet)) (xs wire : List Octet)
      → concat ds ≡ xs
      → length ds ≤ most
      → Wires chunked ds wire
      → Delivers chunked (suc most) xs (wire ++ (if chunked then last_octets else []))
  delivers false most ds xs wire e le w = append-nil wire ∙ w ∙ e
  delivers true most ds xs wire e le w = (
    suc (length ds),
    omega (arith, le),
    rw (sym e, sym (append-nil last_octets)) (read_chunks_framed ds wire [] w),
  )

  -- For a valid body, and parts that are data (which may be empty) or ranges of files with octets: the
  -- calls http_chunk_append_buffer, http_chunk_append_mem and http_chunk_append_file_fd_range for the
  -- parts, and http_chunk_close, succeed, and what the queue of the body, which is valid, holds behind
  -- what it held before carries the parts' octets, one after another. In a body that is chunked, they
  -- are read from there by a decoder of the coding, in a round per part and one more at most, and nothing
  -- is left. Or else there is a part of data for which memory does not do: all parts before it were put
  -- into the queue, and then the last chunk is a temporary file, or the octets in the queue and the data
  -- are more than the limit.
  pub send_body-Delivers :
      (con : Body) (s : fs.State) (ps : List Part) (xs : List Octet)
      → IsBody con
      → AreParts ps xs
      → ((wire : List Octet) × Delivers con.chunked (suc (length ps)) xs wire
          × Grows con s wire (send_body con s ps))
        ⊎ Spills con s ps
  unfolding send_body
  send_body-Delivers con s ps xs v a = elim (append_parts_lem con s ps xs v a) [
    | inl (ds, wire, e, most, w, (c, f, l)) ↦
        let (r, g, m) = http_chunk_close-Lengthens heap c l.is_body in
        let n = IsLonger-trans con c r wire (if c.chunked then last_octets else []) l m in
        inl (
          wire ++ (if con.chunked then last_octets else []),
          delivers con.chunked (length ps) ds xs wire e most w,
          (
            r,
            rw (f, g) refl,
            subst (λ (b : Bool). IsLonger con (wire ++ (if b then last_octets else [])) r)
                l.same_chunked n,
          ),
        )
    | inr large ↦ inr large
  ]

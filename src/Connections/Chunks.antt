-- ===== src/Connections/Chunks.antt =====
-- connections.c: the header's end over all chunks, where it is found and where it is missed.
use lighttpd_multithread.Base.{
  ℕ, ◌+◌, ◌≡◌, ◌≢◌, refl, sym, ap, ◌∙◌, Bool, true, false, Option, none, some, List, [], ◌∷◌, ◌++◌,
  append_assoc, append-nil, ◌==◌, if◌then◌else◌, length, arith,
}
use lighttpd_multithread.Base.Memory.{Bytes}
use lighttpd_multithread.Connections.{
  Place, option_next, Found, jumped, broken, unfound, after_lf, search_chunk, search_chunks,
  or_before,
}
use lighttpd_multithread.Connections.Header.{
  joined, begins, crlf_crlf, lf_lf, header_end, position, plus, position-next,
}
use lighttpd_multithread.Connections.Search.{lf_inside, Finds, search_chunk_lem}

-- How many bytes stand before a place in the chunks.
abbrev pub bytes_to : List Bytes → Option Place → Option ℕ
bytes_to [] place = position 0 [] place
bytes_to (b ∷ rest) place = position (length b) rest place

-- No chunk but the last has two '\n' in a row.
abbrev pub BreaksLast : List Bytes → Type 0
BreaksLast [] = Unit
BreaksLast (b ∷ []) = Unit
BreaksLast (b ∷ c ∷ rest) = (lf_inside b ≡ false) × BreaksLast (c ∷ rest)

plus-if_else :
    (n j k : ℕ) (t : Bool) (o e : Option ℕ)
    → n + j ≡ k
    → plus n o ≡ e
    → plus n (if t then some j else o) ≡ (if t then some k else e)
plus-if_else n j k true o e h m = ap (λ (i : ℕ). some i) h
plus-if_else n j k false o e h m = m

header_end_shift : (s : Bytes) (n j k : ℕ) → n + j ≡ k → plus n (header_end s j) ≡ header_end s k
header_end_shift [] n j k h = refl
header_end_shift (c ∷ s) n j k h =
    plus-if_else n (j + 4) (k + 4) (begins crlf_crlf (c ∷ s)) _ _ (omega (arith, h)) (
      plus-if_else n (j + 2) (k + 2) (begins lf_lf (c ∷ s)) _ _ (omega (arith, h))
        (header_end_shift s n (j + 1) (k + 1) (omega (arith, h))))

-- Where no chunk but the last has two '\n' in a row, the end of a header that the search of the
-- chunks finds is that of the joined bytes: the first of "\r\n\r\n" and "\n\n", and none where the
-- bytes have neither, however they are split.
pub search_chunks-joined :
    (bs : List Bytes) → BreaksLast bs → bytes_to bs (search_chunks bs) ≡ header_end (joined bs) 0
unfolding search_chunks
search_chunks-joined [] h = refl
search_chunks-joined (b ∷ []) h =
    go (search_chunk b [] 0) (search_chunk_lem b [] (length b) 0 (omega arith))
  where
    go :
        (f : Found)
        → Finds (length b) [] (lf_inside b) (header_end (b ++ []) 0) f
        → position (length b) [] (elim f [ jumped p ↦ some p | broken p ↦ some p | unfound ↦ none ])
          ≡ header_end (b ++ []) 0
    go (jumped p) e = sym e
    go (broken p) e = sym e.0
    go unfound e = sym e
search_chunks-joined (b ∷ c ∷ rest) h =
    go (search_chunk b (c ∷ rest) 0) (search_chunk_lem b (c ∷ rest) (length b) 0 (omega arith))
      (search_chunks-joined (c ∷ rest) h.1)
  where
    later : Option Place
    later = option_next (search_chunks (c ∷ rest))

    go :
        (f : Found)
        → Finds (length b) (c ∷ rest) (lf_inside b) (header_end (b ++ joined (c ∷ rest)) 0) f
        → bytes_to (c ∷ rest) (search_chunks (c ∷ rest)) ≡ header_end (joined (c ∷ rest)) 0
        → position
            (length b)
            (c ∷ rest)
            (elim f [ jumped p ↦ some p | broken p ↦ or_before later p | unfound ↦ later ])
          ≡ header_end (b ++ joined (c ∷ rest)) 0
    go (jumped p) e m = sym e
    go (broken p) e m = ground (arith, e.1, h.0)
    go unfound e m =
        position-next (length b) c rest (search_chunks (c ∷ rest))
        ∙ ap (plus (length b)) m
        ∙ header_end_shift (joined (c ∷ rest)) (length b) 0 (length b) (omega arith)
        ∙ sym e

-- A line without its end.
abbrev pub IsLine : Bytes → Type 0
IsLine [] = Unit
IsLine (c ∷ s) = (c ≢ b'\r') × (c ≢ b'\n') × IsLine s

search_chunk-broken :
    (a t : Bytes) (rest : List Bytes) (j k : ℕ)
    → IsLine a
    → j + length a + 2 ≡ k
    → search_chunk (a ++ (lf_lf ++ t)) rest j ≡ broken (record { chunk = 0; offset = k })
unfolding search_chunk after_lf
search_chunk-broken [] t rest j k h e =
    ap (λ (i : ℕ). broken (record { chunk = 0; offset = i })) (omega (arith, e))
search_chunk-broken (c ∷ a) t rest j k h e =
    let x : (c == b'\r') ≡ false = ground (arith, h.0) in
    let y : (c == b'\n') ≡ false = ground (arith, h.1) in
    rw (x, y) (search_chunk-broken a t rest (j + 1) k h.2 (omega (arith, e)))

header_end-lf_lf :
    (a t : Bytes) (j k : ℕ)
    → IsLine a
    → j + length a + 2 ≡ k
    → header_end (a ++ (lf_lf ++ t)) j ≡ some k
header_end-lf_lf [] t j k h e = ap (λ (i : ℕ). some i) (omega (arith, e))
header_end-lf_lf (c ∷ a) t j k h e =
    let x : (c == b'\r') ≡ false = ground (arith, h.0) in
    let y : (c == b'\n') ≡ false = ground (arith, h.1) in
    rw (x, y) (header_end-lf_lf a t (j + 1) k h.2 (omega (arith, e)))

-- Where the first chunk has a line that ends with "\n\n", and the second chunk has a header of `n`
-- bytes, the joined bytes have a header that ends with that line; but the search of the two chunks
-- puts the end behind the header in the second chunk.
pub search_chunks_misses :
    (a t y : Bytes) (n : ℕ)
    → IsLine a
    → header_end y 0 ≡ some n
    → let x = a ++ (lf_lf ++ t) in
      (header_end (joined (x ∷ y ∷ [])) 0 ≡ some (length a + 2))
      × (bytes_to (x ∷ y ∷ []) (search_chunks (x ∷ y ∷ [])) ≡ some (length x + n))
unfolding search_chunks or_before
search_chunks_misses a t y n h e =
    let x = a ++ (lf_lf ++ t) in
    let found =
      search_chunks-joined (y ∷ []) tt ∙ ap (λ (s : Bytes). header_end s 0) (append-nil y) ∙ e in
    (
      ap (λ (s : Bytes). header_end s 0) (append_assoc a (lf_lf ++ t) (y ++ []))
          ∙ header_end-lf_lf a (t ++ (y ++ [])) 0 (length a + 2) h (omega arith),
      rw (search_chunks, search_chunk-broken a t (y ∷ []) 0 (length a + 2) h (omega arith))
          (second (search_chunks (y ∷ [])) (length a + 2) found),
    )
  where
    second :
        (o : Option Place) (k : ℕ)
        → position (length y) [] o ≡ some n
        → position
            (length (a ++ (lf_lf ++ t)))
            (y ∷ [])
            (or_before (option_next o) (record { chunk = 0; offset = k }))
          ≡ some (length (a ++ (lf_lf ++ t)) + n)
    second none k f = cc f
    second (some p) k f = ap (plus (length (a ++ (lf_lf ++ t)))) f

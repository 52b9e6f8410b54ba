-- ===== src/HttpChunk/Decode.antt =====
-- A reader of the chunked transfer coding (RFC 7230, 4.1), without extensions and trailers, that is
-- independent of http_chunk.c. It reads the octets of a queue.
use lighttpd_multithread.Base.{
  ℕ, zero, suc, ◌+◌, ◌*◌, ◌<◌, ◌≡◌, refl, ap, ◌∙◌, Bool, true, false, ◌&&◌, Option, none, some,
  List, [], ◌∷◌, ◌++◌, append_assoc, ◌==◌, if◌then◌else◌, length, take, drop, take-append_left,
  drop-append_left, arith,
}
use lighttpd_multithread.Base.Memory.{Bytes}
use lighttpd_multithread.Buffer.Hex.{hex_char, hex2int, light_isxdigit, all_below, all_below_sound}
use lighttpd_multithread.Buffer.Number.Hexadecimal.{hex_value, AreHexDigits, IsHexadecimal}
use lighttpd_multithread.Chunk.Contents.{Octet, byte, at_place, bytes_octets}

infixl 5 ◌>>=◌
abbrev ◌>>=◌ : {A B : Type 0} → Option A → (A → Option B) → Option B
none >>= f = none
some x >>= f = f x

abbrev is_byte : ℕ → Octet → Bool
is_byte c (byte d) = c == d
is_byte c (at_place name i) = false

pub read_line_end : List Octet → Option (List Octet)
read_line_end [] = none
read_line_end (x ∷ []) = none
read_line_end (x ∷ y ∷ xs) = if is_byte b'\r' x && is_byte b'\n' y then some xs else none

-- The number before the line's end, behind the digits of `n`.
pub read_size : List Octet → ℕ → Option (ℕ × List Octet)
unfolding read_line_end
read_size [] n = none
read_size (at_place name i ∷ xs) n = none
read_size (byte c ∷ xs) n =
    let rest = read_size xs (n * 16 + hex2int c) in
    let ended = (do ys ← read_line_end (byte c ∷ xs); some (n, ys)) in
    if light_isxdigit c then rest else ended

pub read_chunk : List Octet → Option (List Octet × List Octet)
unfolding read_size
read_chunk xs = do (n, ys) ← read_size xs 0; zs ← read_line_end (drop n ys); some (take n ys, zs)

-- The data of the chunks up to the one without data, and what stands behind.
pub read_chunks : ℕ → List Octet → Option (List Octet × List Octet)
unfolding read_chunk
read_chunks zero xs = none
read_chunks (suc fuel) xs = do
  (d, ys) ← read_chunk xs
  let rest = (do (more, zs) ← read_chunks fuel ys; some (d ++ more, zs))
  if length d == 0 then some ([], ys) else rest

abbrev pub line_end : List Octet
line_end = byte b'\r' ∷ byte b'\n' ∷ []

-- `wire` is a chunk with the data `d`.
abbrev pub IsFramed : List Octet → List Octet → Type 0
IsFramed d wire =
    (t : Bytes) × IsHexadecimal (length d) t
    × (wire ≡ bytes_octets t ++ (line_end ++ (d ++ line_end)))

digits_are_hex : all_below 16 (λ d. light_isxdigit (hex_char d)) ≡ true
unfolding light_isxdigit hex_char
digits_are_hex = refl

read_size_digits :
    (t : Bytes) (n : ℕ) (xs : List Octet)
    → AreHexDigits t
    → read_size (bytes_octets t ++ (line_end ++ xs)) n ≡ some (hex_value t n, xs)
unfolding read_size light_isxdigit
read_size_digits [] n xs h = refl
read_size_digits (c ∷ t) n xs ((d, lt, e), h) =
    let x : light_isxdigit c ≡ true =
      ap light_isxdigit e
      ∙ all_below_sound 16 (λ k. light_isxdigit (hex_char k)) d digits_are_hex lt in
    rw x (read_size_digits t (n * 16 + hex2int c) xs h)

pub read_chunk_framed :
    (d wire xs : List Octet) → IsFramed d wire → read_chunk (wire ++ xs) ≡ some (d, xs)
unfolding read_chunk
read_chunk_framed d wire xs (t, h, e) =
    let f : wire ++ xs ≡ bytes_octets t ++ (line_end ++ (d ++ (line_end ++ xs))) =
      rw e (simp append_assoc refl) in
    let g = read_size_digits t 0 (d ++ (line_end ++ xs)) h.digits in
    rw
      (
        f,
        g,
        h.stands_for,
        drop-append_left d (line_end ++ xs) (length d) refl,
        take-append_left d (line_end ++ xs) (length d) refl,
      )
      refl

-- Chunks, each with data.
abbrev pub AreFramed : List (List Octet) → List Octet → Type 0
AreFramed [] wire = wire ≡ []
AreFramed (d ∷ ds) wire =
    (0 < length d)
    × ((w : List Octet) × (rest : List Octet) × IsFramed d w
        × AreFramed ds rest
        × (wire ≡ w ++ rest))

abbrev pub concat : List (List Octet) → List Octet
concat [] = []
concat (d ∷ ds) = d ++ concat ds

abbrev pub last_octets : List Octet
last_octets = byte b'0' ∷ line_end ++ line_end

pub read_chunks_framed :
    (ds : List (List Octet)) (wire xs : List Octet)
    → AreFramed ds wire
    → read_chunks (suc (length ds)) (wire ++ (last_octets ++ xs)) ≡ some (concat ds, xs)
unfolding read_chunks light_isxdigit hex2int
read_chunks_framed [] wire xs h = rw h refl
read_chunks_framed (d ∷ ds) wire xs (p, (w, rest, f, g, e)) =
    let s : wire ++ (last_octets ++ xs) ≡ w ++ (rest ++ (last_octets ++ xs)) =
      rw e (append_assoc w rest (last_octets ++ xs)) in
    let more : (length d == 0) ≡ false = ground (arith, p) in
    rw
      (
        s,
        read_chunk_framed d w (rest ++ (last_octets ++ xs)) f,
        more,
        read_chunks_framed ds rest xs g,
      )
      refl

-- ===== src/Chunk/Contents.antt =====
-- The abstract view of a queue of chunks: the octets that are still to be sent, in their order, and
-- the invariant that ties its counters to them.
use lighttpd_multithread.Base.{
  ℕ, zero, suc, ◌+◌, ◌-◌, ◌≤◌, ◌<◌, ◌≡◌, refl, sym, ap, ◌∙◌, inl, inr, List, [], ◌∷◌, ◌++◌,
  append_assoc, le→leb, length, length-drop, length-take, take-append-drop, take, drop, ok, arith,
}
use lighttpd_multithread.Base.Memory.{Bytes, size_mod}
use lighttpd_multithread.Buffer.{Buffer, size, buffer_string_length, string_bytes}
use lighttpd_multithread.Buffer.Holds.{IsUnset, Holds, size-IsString}
use lighttpd_multithread.Buffer.Whole.{string_bytes-Holds}
use lighttpd_multithread.Chunk.{
  ChunkType, mem_chunk, file_chunk, Chunk, Chunkqueue, length_of, chunk_length,
  chunk_remaining_length,
}

-- An octet is a byte in memory, or stands at a place of the file with a name.
pub data Octet : Type 0 where
  byte : ℕ → Octet
  at_place : Bytes → ℕ → Octet

abbrev pub bytes_octets : Bytes → List Octet
bytes_octets [] = []
bytes_octets (c ∷ s) = byte c ∷ bytes_octets s

abbrev pub file_octets : Bytes → ℕ → ℕ → List Octet
file_octets name start zero = []
file_octets name start (suc n) = at_place name start ∷ file_octets name (start + 1) n

abbrev pub octets_of : ChunkType → Buffer → Buffer → (start len offset : ℕ) → List Octet
octets_of mem_chunk mem name start len offset = bytes_octets (drop offset (string_bytes mem))
octets_of file_chunk mem name start len offset =
    file_octets (string_bytes name) (start + offset) (len - offset)

-- What is to be sent of a chunk.
abbrev pub chunk_octets : Chunk → List Octet
chunk_octets c = octets_of c.type c.mem c.file_name c.file_start c.file_length c.offset

abbrev pub contents : List Chunk → List Octet
contents [] = []
contents (c ∷ cs) = chunk_octets c ++ contents cs

pub record IsChunk (c : Chunk) : Type 0 where
  pub text : Bytes
  pub mem_holds : Holds text c.mem
  pub name : Bytes
  pub name_holds : Holds name c.file_name
  pub within : c.offset ≤ chunk_length c

-- An unused chunk.
pub record IsReset (c : Chunk) : Type 0 where
  pub mem_unset : IsUnset c.mem
  pub name_unset : IsUnset c.file_name
  pub not_sent : c.offset ≡ 0

abbrev pub AreChunks : List Chunk → Type 0
AreChunks [] = Unit
AreChunks (c ∷ cs) = IsChunk c × AreChunks cs

abbrev pub AreReset : List Chunk → Type 0
AreReset [] = Unit
AreReset (c ∷ cs) = IsReset c × AreReset cs

-- The unused chunks, of which at most five are kept.
pub record HasUnused (unused : List Chunk) (unused_chunks : ℕ) : Type 0 where
  pub all_reset : AreReset unused
  pub counted : unused_chunks ≡ length unused
  pub at_most : unused_chunks ≤ 5

-- `bytes_in` and `bytes_out` differ by what is still to be sent.
pub record IsQueue (q : Chunkqueue) : Type 0 where
  pub all_chunks : AreChunks q.chunks
  pub has_unused : HasUnused q.unused q.unused_chunks
  pub balance : q.bytes_in ≡ q.bytes_out + length (contents q.chunks)

pub length-bytes_octets : (s : Bytes) → length (bytes_octets s) ≡ length s
length-bytes_octets [] = refl
length-bytes_octets (c ∷ s) = ap suc (length-bytes_octets s)

pub length-file_octets : (name : Bytes) (start n : ℕ) → length (file_octets name start n) ≡ n
length-file_octets name start zero = refl
length-file_octets name start (suc n) = ap suc (length-file_octets name (start + 1) n)

pub bytes_octets-append : (s t : Bytes) → bytes_octets (s ++ t) ≡ bytes_octets s ++ bytes_octets t
bytes_octets-append [] t = refl
bytes_octets-append (c ∷ s) t = ap (◌∷◌ (byte c)) (bytes_octets-append s t)

pub file_octets-append :
    (name : Bytes) (start n m : ℕ)
    → file_octets name start (n + m) ≡ file_octets name start n ++ file_octets name (start + n) m
file_octets-append name start zero m =
    let e : zero + m ≡ m = omega arith in
    let f : start + zero ≡ start = omega arith in rw (e, f) refl
file_octets-append name start (suc n) m =
    let e : suc n + m ≡ suc (n + m) = omega arith in
    let f : start + suc n ≡ start + 1 + n = omega arith in
    rw (e, f) (ap (◌∷◌ (at_place name start)) (file_octets-append name (start + 1) n m))

pub contents-append : (cs ds : List Chunk) → contents (cs ++ ds) ≡ contents cs ++ contents ds
contents-append [] ds = refl
contents-append (c ∷ cs) ds = simp (contents-append cs ds, append_assoc)

pub append-AreChunks : (cs ds : List Chunk) → AreChunks cs → AreChunks ds → AreChunks (cs ++ ds)
append-AreChunks [] ds h g = g
append-AreChunks (c ∷ cs) ds h g = (h.0, append-AreChunks cs ds h.1 g)

pub length-Holds : (s : Bytes) (b : Buffer) → Holds s b → buffer_string_length b ≡ length s
unfolding buffer_string_length
length-Holds s b (inl i) = ground (arith, i.used_is)
length-Holds s b (inr (u, e)) = ground (arith, u.unused, ap length e)

pub size-Holds : (s : Bytes) (b : Buffer) → Holds s b → size b < size_mod
size-Holds s b (inl i) = i.fits
size-Holds s b (inr (u, e)) = u.fits

pub length-Holds-lt : (s : Bytes) (b : Buffer) → Holds s b → length s + 1 < size_mod
length-Holds-lt s b (inl i) = omega (arith, size-IsString i)
length-Holds-lt s b (inr (u, e)) = omega (arith, ap length e)

length-octets_of :
    (t : ChunkType) (mem name : Buffer) (start len offset : ℕ) (text : Bytes)
    → Holds text mem
    → length (octets_of t mem name start len offset) ≡ length_of t mem len - offset
length-octets_of mem_chunk mem name start len offset text h =
    rw (string_bytes-Holds text mem h, length-Holds text mem h)
      (omega (arith, length-bytes_octets (drop offset text), length-drop offset text))
length-octets_of file_chunk mem name start len offset text h =
    length-file_octets (string_bytes name) (start + offset) (len - offset)

pub length-chunk_octets :
    (c : Chunk) → IsChunk c → length (chunk_octets c) ≡ chunk_length c - c.offset
length-chunk_octets c i =
    length-octets_of c.type c.mem c.file_name c.file_start c.file_length c.offset i.text i.mem_holds

pub remaining_lem :
    (c : Chunk) → IsChunk c → chunk_remaining_length c ≡ ok (length (chunk_octets c))
unfolding chunk_remaining_length
remaining_lem c i = rw (le→leb _ _ i.within, length-chunk_octets c i) refl

pub drop-drop : (text : Bytes) (off n : ℕ) → drop n (drop off text) ≡ drop (off + n) text
drop-drop text zero n = let e : zero + n ≡ n = omega arith in rw e refl
drop-drop [] (suc off) zero = let e : suc off + zero ≡ suc off = omega arith in rw e refl
drop-drop [] (suc off) (suc n) =
    let e : suc off + suc n ≡ suc (off + suc n) = omega arith in rw e refl
drop-drop (x ∷ text) (suc off) n =
    let e : suc off + n ≡ suc (off + n) = omega arith in rw e (drop-drop text off n)

-- The octets before and behind a place in a chunk.
pub octets_of-split :
    (t : ChunkType) (mem name : Buffer) (start len offset n : ℕ) (text : Bytes)
    → Holds text mem
    → offset + n ≤ length_of t mem len
    → (front : List Octet) × (octets_of t mem name start len offset
        ≡ front ++ octets_of t mem name start len (offset + n))
      × (length front ≡ n)
octets_of-split mem_chunk mem name start len offset n text h room =
    let inside : offset + n ≤ length text = rw (length-Holds text mem h) at room in
    let part = take n (drop offset text) in
    (
      bytes_octets part,
      rw (string_bytes-Holds text mem h) (
          ap bytes_octets
            (sym (take-append-drop n (drop offset text)) ∙ ap (◌++◌ part) (drop-drop text offset n))
          ∙ bytes_octets-append part (drop (offset + n) text)),
      omega (
        arith,
        length-bytes_octets part,
        length-take n (drop offset text),
        length-drop offset text,
      ),
    )
octets_of-split file_chunk mem name start len offset n text h room =
    let e : len - offset ≡ n + (len - (offset + n)) = omega arith in
    let f : start + (offset + n) ≡ start + offset + n = omega arith in
    (
      file_octets (string_bytes name) (start + offset) n,
      rw (e, f) (file_octets-append (string_bytes name) (start + offset) n (len - (offset + n))),
      length-file_octets (string_bytes name) (start + offset) n,
    )

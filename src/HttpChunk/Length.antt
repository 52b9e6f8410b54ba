-- ===== src/HttpChunk/Length.antt =====
-- http_chunk.c: the line with a chunk's length.
use lighttpd_multithread.Base.{ℕ, ◌^◌, ◌<◌, ◌≡◌, inl, inr, [], ◌++◌, length-append, ok, arith}
use lighttpd_multithread.Base.Memory.{Bytes, Allocator}
use lighttpd_multithread.Buffer.{Buffer}
use lighttpd_multithread.Buffer.Holds.{IsString, Holds}
use lighttpd_multithread.Buffer.Append.{set_length_zero, append_string_len-Stores}
use lighttpd_multithread.Buffer.Number.Hexadecimal.{IsHexadecimal, append_uint_hex-Stores}
use lighttpd_multithread.Chunk.Contents.{size-Holds}
use lighttpd_multithread.HttpChunk.{chunk_len, crlf}

-- The line never overflows: it has the digits and two bytes more.
pub chunk_len-IsString :
    (heap : Allocator) (b : Buffer) (s : Bytes) (len : ℕ)
    → Holds s b
    → len < 2 ^ 64
    → (t : Bytes) × IsHexadecimal len t
      × ((b' : Buffer) × (chunk_len heap b len ≡ ok b') × IsString (t ++ crlf) b')
unfolding chunk_len
chunk_len-IsString heap b s len h f =
    let (b0, e, i) = set_length_zero heap b (size-Holds s b h) in
    let (t, is_hex, put) = append_uint_hex-Stores heap b0 [] len (inl i) f in
    (
      t,
      is_hex,
      elim put [
        | inl (b1, g, j) ↦ elim (append_string_len-Stores heap t crlf b1 (inl j) (omega arith)) [
          | inl (b2, k, l) ↦ (b2, rw (e, g) k, l)
          | inr (large, k) ↦ absurd (omega (arith, large, is_hex.short, length-append t crlf))
        ]
        | inr (large, g) ↦ absurd (omega (arith, large, is_hex.short))
      ],
    )

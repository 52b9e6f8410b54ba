-- ===== src/Base64/RoundTrip.antt =====
-- base64.c: what is encoded is decoded to itself.
use lighttpd_multithread.Base.{◌+◌, ◌*◌, ◌<◌, ◌≡◌, true, ◌++◌, length, ok, arith}
use lighttpd_multithread.Base.Memory.{Bytes, size_mod, Allocator}
use lighttpd_multithread.Buffer.{Buffer}
use lighttpd_multithread.Buffer.Holds.{IsString, Holds}
use lighttpd_multithread.Base64.{Charset, buffer_append_base64_decode, buffer_append_base64_encode}
use lighttpd_multithread.Base64.Digits.{text, AreBytes}
use lighttpd_multithread.Base64.Decode.{length-text, decode_text-IsString}
use lighttpd_multithread.Base64.Encode.{encode-IsString}

-- For a byte string `s`, and two buffers that hold `u` and `w`, where all fits in the address space:
-- buffer_append_base64_encode appends a text to the first buffer, in either alphabet, and
-- buffer_append_base64_decode, given this text, appends `s` to the second buffer; both return.
pub base64_decode-encode :
    (heap : Allocator) (b c : Buffer) (u w s : Bytes) (charset : Charset)
    → Holds u b
    → Holds w c
    → AreBytes s
    → length u + length w + 8 + 4 * length s < size_mod
    → (t : Bytes) × ((r : Buffer) × (buffer_append_base64_encode heap b s charset ≡ ok r)
        × IsString (u ++ t) r)
      × ((r : Buffer) × (buffer_append_base64_decode heap c t charset ≡ ok (r, true))
          × IsString (w ++ s) r)
base64_decode-encode heap b c u w s charset h g v fits = (
  text charset s,
  encode-IsString heap b u s charset h v (omega (arith, fits)),
  decode_text-IsString heap c w s charset g v (omega (arith, fits, length-text charset s)),
)

-- ===== src/Tests/Digits.antt =====
-- The bytes "xyz!" in the URL alphabet.
use lighttpd_multithread.Base.{◌≡◌, true, ◌++◌, ok, arith}
use lighttpd_multithread.Base.Memory.{Bytes}
use lighttpd_multithread.Buffer.{Buffer}
use lighttpd_multithread.Buffer.Hex.{codes}
use lighttpd_multithread.Buffer.Holds.{IsString}
use lighttpd_multithread.Base64.{
  base64_url, buffer_append_base64_decode, buffer_append_base64_encode,
}
use lighttpd_multithread.Base64.RoundTrip.{base64_decode-encode}
use lighttpd_multithread.Tests.Heaps.{heap, ab, ab-Holds, unset, unset-Holds}

base64_decode-encode_example :
    (t : Bytes) × ((r : Buffer) × (buffer_append_base64_encode heap ab (codes "xyz!") base64_url
        ≡ ok r)
      × IsString (codes "ab" ++ t) r)
    × ((r : Buffer) × (buffer_append_base64_decode heap unset t base64_url ≡ ok (r, true))
        × IsString (codes "xyz!") r)
base64_decode-encode_example =
    base64_decode-encode heap ab unset (codes "ab") (codes "") (codes "xyz!") base64_url ab-Holds
      unset-Holds (omega arith, (omega arith, (omega arith, (omega arith, tt)))) (omega arith)

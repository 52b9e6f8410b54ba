-- ===== src/Tests/Buffers.antt =====
-- Buffers.
use lighttpd_multithread.Base.{
  ◌≡◌, ◌+◌, ◌≤◌, ◌⊎◌, length, aborted, refl, ◌↔◌, true, some, [], ◌∷◌, ◌++◌, ok, arith,
}
use lighttpd_multithread.Base.Memory.{size_mod}
use lighttpd_multithread.Buffer.{
  Buffer, buffer_append_string_len, buffer_copy_string_len, buffer_copy_buffer,
}
use lighttpd_multithread.Buffer.Holds.{IsString, Holds, Stores}
use lighttpd_multithread.Buffer.Append.{append_string_len-Stores, copy_string_len-Stores}
use lighttpd_multithread.Buffer.Whole.{copy_buffer-Holds}
use lighttpd_multithread.Buffer.Compare.{
  Decides, buffer_caseless_compare, lower, caseless_compare-Decides,
}
use lighttpd_multithread.Buffer.Hex.{codes, hex2int, hex_char}
use lighttpd_multithread.Buffer.Encode.{
  rel_uri, html, encode_char, escape_char, is_encoded, buffer_append_string_encoded,
  buffer_append_string_c_escaped,
}
use lighttpd_multithread.Buffer.Encode.Passes.{
  expanded, append_string_encoded-Stores, append_string_c_escaped-Stores,
}
use lighttpd_multithread.Buffer.Encode.RoundTrip.{urldecode_path-string_encoded}
use lighttpd_multithread.Buffer.Url.{buffer_urldecode_internal, buffer_urldecode_path, decoded_byte}
use lighttpd_multithread.Buffer.Url.Internal.{buffer_urldecode_internal-IsString}
use lighttpd_multithread.Buffer.Url.Decode.{urldecode, urldecode-IsPrintable, IsPrintable}
use lighttpd_multithread.Buffer.Edit.{buffer_to_upper}
use lighttpd_multithread.Buffer.Edit.Case.{buffer_to_upper_unchanged}
use lighttpd_multithread.Tests.Heaps.{heap, ab, ab-Holds, unset, unset-Holds}

append_string_len-Stores_example :
    Stores (codes "abcdef") (buffer_append_string_len heap ab (codes "cdef"))
append_string_len-Stores_example =
    append_string_len-Stores heap (codes "ab") (codes "cdef") ab ab-Holds (omega arith)

copy_string_len-Stores_example : Stores (codes "xyz") (buffer_copy_string_len heap ab (codes "xyz"))
copy_string_len-Stores_example =
    copy_string_len-Stores heap (codes "xyz") ab (omega arith) (omega arith)

copy_buffer-Holds_example :
    (b : Buffer) × (buffer_copy_buffer heap ab (some ab) ≡ ok b)
    × Holds (codes "ab") b
    × ((b.used ≡ 0) ↔ (ab.used ≡ 0))
copy_buffer-Holds_example = copy_buffer-Holds heap (codes "ab") ab ab (omega arith) ab-Holds

caseless_compare-Decides_example :
    Decides
      (buffer_caseless_compare (codes "Host") (codes "hoSu"))
      (lower (codes "Host"))
      (lower (codes "hoSu"))
caseless_compare-Decides_example = caseless_compare-Decides (codes "Host") (codes "hoSu")

append_string_encoded-Stores_example :
    Stores
      (codes "ab" ++ expanded (encode_char html) (codes "<b>"))
      (buffer_append_string_encoded heap ab (codes "<b>") html)
append_string_encoded-Stores_example =
    append_string_encoded-Stores heap html (codes "ab") b'<' (codes "b>") ab ab-Holds
      (unfold encode_char is_encoded in omega arith)

append_string_c_escaped-Stores_example :
    Stores
      (codes "ab" ++ expanded escape_char (codes "\ta"))
      (buffer_append_string_c_escaped heap ab (codes "\ta"))
append_string_c_escaped-Stores_example =
    append_string_c_escaped-Stores heap (codes "ab") b'\t' (codes "a") ab ab-Holds
      (unfold escape_char in omega arith)

html_run : expanded (encode_char html) (codes "<b>") ≡ codes "&#x3c;b&#x3e;"
unfolding encode_char is_encoded hex_char
html_run = refl

decode_run : urldecode true (codes "a%2fb+c%zz%4") ≡ codes "a/b c%zz%4"
unfolding urldecode hex2int decoded_byte
decode_run = refl

urldecode_path-string_encoded_example :
    ((b' : Buffer) × (buffer_append_string_encoded heap unset (codes "a b%") rel_uri ≡ ok b')
      × (b'' : Buffer) × (buffer_urldecode_path b' ≡ ok b'')
      × IsString (codes "a b%") b'')
    ⊎ ((size_mod ≤ length (expanded (encode_char rel_uri) (codes "a b%")) + 1)
        × (buffer_append_string_encoded heap unset (codes "a b%") rel_uri ≡ aborted))
urldecode_path-string_encoded_example =
    urldecode_path-string_encoded heap rel_uri b'a' (codes " b%") unset unset-Holds tt (omega arith)
      (omega arith) (unfold encode_char is_encoded in omega arith)

urldecode-IsPrintable_example : IsPrintable (urldecode true (codes "a%00b"))
urldecode-IsPrintable_example = urldecode-IsPrintable true (codes "a%00b") (omega arith)

buffer_to_upper_unchanged_example : buffer_to_upper ab ≡ ok ab
buffer_to_upper_unchanged_example = buffer_to_upper_unchanged ab (omega arith)

-- "a%41", decoded to "aA".
abbrev escaped : Buffer
escaped = record { ptr = codes "a%41" ++ (0 ∷ []); used = 5 }

buffer_urldecode_internal-IsString_example :
    (b : Buffer) × (buffer_urldecode_internal escaped true ≡ ok b)
    × IsString (urldecode true (codes "a%41")) b
buffer_urldecode_internal-IsString_example =
    buffer_urldecode_internal-IsString true (codes "a%41") escaped
      (record { spare = []; ptr_is = refl; used_is = refl; fits = omega arith })

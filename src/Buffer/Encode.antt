-- ===== src/Buffer/Encode.antt =====
-- buffer.c: `buffer_append_string_encoded` and `buffer_append_string_c_escaped`. Both count the
-- bytes to come, make room for them, and write them in a second pass.
pub mod Passes
pub mod RoundTrip
use lighttpd_multithread.Base.{
  ℕ, zero, suc, ◌+◌, ◌-◌, ◌*◌, ◌/◌, ◌%◌, ◌≤◌, ◌<◌, ◌≡◌, refl, Bool, true, false, not, ◌&&◌, ◌||◌,
  List, [], ◌∷◌, ◌++◌, ltb, leb, ◌==◌, if◌then◌else◌, length, get_or, get_elem?, replicate, Option,
  none, some, Outcome, ok, fault, force_assert, ◌>>=◌, ◌>>◌,
}
use lighttpd_multithread.Base.Memory.{Bytes, size_mod, Allocator, memcpy}
use lighttpd_multithread.Buffer.{Buffer, buffer_string_prepare_append, buffer_commit, end_of_string}
use lighttpd_multithread.Buffer.Hex.{hex_char}
use Prim.Native.Char.{code}
use Prim.Native.String.{String}

pub data Encoding : Type 0 where
  rel_uri rel_uri_part html minimal_xml hex http_header : Encoding

-- Rows of a table: the digits of a text.
abbrev bits : String → Bytes
bits String.[] = []
bits (String.◌∷◌ c s) = (code c - b'0') ∷ bits s

abbrev ones : ℕ → Bytes
ones n = replicate n 1

abbrev zeros : ℕ → Bytes
zeros n = replicate n 0

encoded_chars_rel_uri_part : Bytes
encoded_chars_rel_uri_part =
    ones 32
    ++ bits "10111111000110010000000000111111"
    ++ bits "10000000000000000000000000011110"
    ++ bits "10000000000000000000000000011101"
    ++ ones 128

encoded_chars_rel_uri : Bytes
encoded_chars_rel_uri =
    ones 32
    ++ bits "10111111000110000000000000111111"
    ++ bits "10000000000000000000000000011110"
    ++ bits "10000000000000000000000000011101"
    ++ ones 128

encoded_chars_html : Bytes
encoded_chars_html =
    ones 32
    ++ bits "00100011000000000000000000001010"
    ++ zeros 32
    ++ bits "10000000000000000000000000000001"
    ++ ones 128

encoded_chars_minimal_xml : Bytes
encoded_chars_minimal_xml =
    ones 32
    ++ bits "00100011000000000000000000001010"
    ++ zeros 32
    ++ bits "10000000000000000000000000000001"
    ++ zeros 128

encoded_chars_hex : Bytes
encoded_chars_hex = ones 256

encoded_chars_http_header : Bytes
encoded_chars_http_header = zeros 10 ++ (1 ∷ zeros 245)

-- `map[c]`, for the table of the encoding.
unfoldable pub encoding_map : Encoding → Bytes
unfolding encoded_chars_rel_uri encoded_chars_rel_uri_part encoded_chars_html
    encoded_chars_minimal_xml encoded_chars_hex encoded_chars_http_header
encoding_map rel_uri = encoded_chars_rel_uri
encoding_map rel_uri_part = encoded_chars_rel_uri_part
encoding_map html = encoded_chars_html
encoding_map minimal_xml = encoded_chars_minimal_xml
encoding_map hex = encoded_chars_hex
encoding_map http_header = encoded_chars_http_header

unfoldable pub is_encoded : Encoding → ℕ → Bool
unfolding encoding_map
is_encoded encoding c = not (get_or (encoding_map encoding) c 0 == 0)

-- The first switch: the bytes that a character of the table takes.
pub encoded_width : Encoding → ℕ
encoded_width rel_uri = 3
encoded_width rel_uri_part = 3
encoded_width html = 6
encoded_width minimal_xml = 6
encoded_width http_header = 2
encoded_width hex = 2

-- The second switch: the bytes themselves. `(*ds >> 4) & 0x0F` is `c / 16`, for a byte.
unfoldable pub encoded_bytes : Encoding → ℕ → Bytes
encoded_bytes rel_uri c = b'%' ∷ hex_char (c / 16 % 16) ∷ hex_char (c % 16) ∷ []
encoded_bytes rel_uri_part c = b'%' ∷ hex_char (c / 16 % 16) ∷ hex_char (c % 16) ∷ []
encoded_bytes html c = b'&' ∷ b'#' ∷ b'x' ∷ hex_char (c / 16 % 16) ∷ hex_char (c % 16) ∷ b';' ∷ []
encoded_bytes minimal_xml c =
    b'&' ∷ b'#' ∷ b'x' ∷ hex_char (c / 16 % 16) ∷ hex_char (c % 16) ∷ b';' ∷ []
encoded_bytes hex c = hex_char (c / 16 % 16) ∷ hex_char (c % 16) ∷ []
encoded_bytes http_header c = c ∷ b'\t' ∷ []

unfoldable pub width_in : Encoding → ℕ → ℕ
unfolding encoded_width
width_in encoding c = if is_encoded encoding c then encoded_width encoding else 1

unfoldable pub encode_char : Encoding → ℕ → Bytes
unfolding encoded_bytes
encode_char encoding c = if is_encoded encoding c then encoded_bytes encoding c else c ∷ []

-- The classes of `buffer_append_string_c_escaped`.
abbrev needs_escape : ℕ → Bool
needs_escape c = ltb c 0x20 || leb 0x7f c

abbrev has_short_escape : ℕ → Bool
has_short_escape c = c == b'\t' || c == b'\r' || c == b'\n'

unfoldable pub escaped_width : ℕ → ℕ
escaped_width c = if needs_escape c then (if has_short_escape c then 2 else 4) else 1

unfoldable pub escape_char : ℕ → Bytes
escape_char c =
    if needs_escape c
    then b'\\'
      ∷ (if c == b'\t'
          then b't' ∷ []
          else if c == b'\r'
          then b'r' ∷ []
          else if c == b'\n'
          then b'n' ∷ []
          else b'x' ∷ hex_char (c / 16 % 16) ∷ hex_char (c % 16) ∷ [])
    else c ∷ []

-- The first pass, from the count `d_len` on.
pub count_bytes : (ℕ → ℕ) → Bytes → ℕ → ℕ
count_bytes width [] d_len = d_len
count_bytes width (c ∷ s) d_len = count_bytes width s ((d_len + width c) % size_mod)

-- The second pass: `d[d_len++] = …` for the bytes of each character, from the offset `d` on.
pub write_bytes : (ℕ → Bytes) → Bytes → Bytes → ℕ → Outcome Bytes
write_bytes bytes [] ptr d = ok ptr
write_bytes bytes (c ∷ s) ptr d = do
  p ← memcpy ptr d (bytes c)
  write_bytes bytes s p (d + length (bytes c))

abbrev pub byte_at : Bytes → ℕ → Outcome ℕ
byte_at ptr i = elim (get_elem? ptr i) [ none ↦ fault | some c ↦ ok c ]

module _ (heap : Allocator) where
  -- What the two functions have in common, for `d_len` bytes to come.
  pub append_in_two_passes : (ℕ → ℕ) → (ℕ → Bytes) → Buffer → Bytes → Outcome Buffer
  append_in_two_passes width bytes b [] = ok b
  append_in_two_passes width bytes b (c ∷ s) = do
    let d_len = count_bytes width (c ∷ s) 0
    a ← buffer_string_prepare_append heap b d_len
    let d = end_of_string a
    b' ← buffer_commit a d_len
    first ← byte_at b'.ptr d
    force_assert (first == 0)
    p ← write_bytes bytes (c ∷ s) b'.ptr d
    ok (record b' { ptr = p })

  pub buffer_append_string_encoded : Buffer → Bytes → Encoding → Outcome Buffer
  buffer_append_string_encoded b s encoding =
      append_in_two_passes (width_in encoding) (encode_char encoding) b s

  pub buffer_append_string_c_escaped : Buffer → Bytes → Outcome Buffer
  buffer_append_string_c_escaped b s = append_in_two_passes escaped_width escape_char b s

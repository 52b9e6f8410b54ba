-- ===== src/Buffer/Encode/RoundTrip.antt =====
-- buffer.c: URL decoding undoes URL encoding.
use lighttpd_multithread.Base.{
  ℕ, ◌/◌, ◌%◌, ◌<◌, ◌≡◌, ◌≢◌, refl, ap, ◌∙◌, inl, inr, true, false, not, ◌&&◌, ◌||◌, [], ◌∷◌, ◌++◌,
  ◌==◌, arith, Bool-cases, ◌+◌, ◌≤◌, ◌⊎◌, length, ok, aborted,
}
use mathlib.Core.Path.{subst}
use lighttpd_multithread.Base.Memory.{Bytes, size_mod, Allocator}
use lighttpd_multithread.Buffer.{Buffer}
use lighttpd_multithread.Buffer.Holds.{IsString, Holds}
use lighttpd_multithread.Buffer.Hex.{hex_char, hex2int-hex_char, all_below, all_below_sound}
use lighttpd_multithread.Buffer.Encode.{
  Encoding, rel_uri, rel_uri_part, html, minimal_xml, hex, http_header, encode_char, is_encoded,
  encoded_bytes, buffer_append_string_encoded,
}
use lighttpd_multithread.Buffer.Encode.Passes.{expanded, append_string_encoded-Stores}
use lighttpd_multithread.Buffer.Url.{decoded_byte, buffer_urldecode_path}
use lighttpd_multithread.Buffer.Url.Internal.{buffer_urldecode_path-IsString}
use lighttpd_multithread.Buffer.Url.Decode.{urldecode, urldecode-cons, IsPrintable, is_hex}

abbrev pub IsBytes : Bytes → Type 0
IsBytes [] = Unit
IsBytes (c ∷ s) = (c < 256) × IsBytes s

-- The two encodings that write '%' and two digits.
abbrev pub IsUri : Encoding → Type 0
IsUri rel_uri = Unit
IsUri rel_uri_part = Unit
IsUri _ = ⊥

plain_table :
    all_below 256
      (λ c. (is_encoded rel_uri c && is_encoded rel_uri_part c) || not (c == b'%' || c == 0))
    ≡ true
unfolding is_encoded
plain_table = refl

plain_byte :
    (encoding : Encoding) (c : ℕ)
    → IsUri encoding
    → c < 256
    → is_encoded encoding c ≡ false
    → (c ≢ b'%') × (c ≢ 0)
plain_byte rel_uri c u h e = ground (
  arith,
  all_below_sound 256
      (λ x. (is_encoded rel_uri x && is_encoded rel_uri_part x) || not (x == b'%' || x == 0)) c
      plain_table h,
)
plain_byte rel_uri_part c u h e = ground (
  arith,
  all_below_sound 256
      (λ x. (is_encoded rel_uri x && is_encoded rel_uri_part x) || not (x == b'%' || x == 0)) c
      plain_table h,
)
plain_byte html c u h e = absurd u
plain_byte minimal_xml c u h e = absurd u
plain_byte hex c u h e = absurd u
plain_byte http_header c u h e = absurd u

-- A path keeps a character that is neither '%' nor the terminator.
urldecode_plain :
    (c : ℕ) (s : Bytes) → c ≢ b'%' → c ≢ 0 → urldecode false (c ∷ s) ≡ c ∷ urldecode false s
urldecode_plain c [] h g = unfold urldecode in ground arith
urldecode_plain c (d ∷ []) h g = unfold urldecode in ground arith
urldecode_plain c (d ∷ e ∷ s) h g = rw urldecode-cons (ground arith)

digit_is_hex : (n : ℕ) → n < 16 → is_hex (hex_char n) ≡ true
digit_is_hex n h = ground (arith, hex2int-hex_char n h)

urldecode_percent :
    (c : ℕ) (s : Bytes)
    → 31 < c
    → c ≢ 127
    → c < 256
    → urldecode false (b'%' ∷ hex_char (c / 16 % 16) ∷ hex_char (c % 16) ∷ s)
      ≡ c ∷ urldecode false s
unfolding decoded_byte
urldecode_percent c s h g f = rw urldecode-cons (
    ground (
      arith,
      digit_is_hex (c / 16 % 16) (omega arith),
      digit_is_hex (c % 16) (omega arith),
      hex2int-hex_char (c / 16 % 16) (omega arith),
      hex2int-hex_char (c % 16) (omega arith),
    ))

urldecode_char :
    (encoding : Encoding) (c : ℕ) (s : Bytes)
    → IsUri encoding
    → 31 < c
    → c ≢ 127
    → c < 256
    → urldecode false (encode_char encoding c ++ s) ≡ c ∷ urldecode false s
unfolding encode_char
urldecode_char encoding c s u h g f = elim (Bool-cases (is_encoded encoding c)) [
  | inl e ↦ rw e (percent encoding u)
  | inr e ↦ let p = plain_byte encoding c u f e in rw e (urldecode_plain c s p.0 p.1)
]
  where
    percent :
        (enc : Encoding)
        → IsUri enc
        → urldecode false (encoded_bytes enc c ++ s) ≡ c ∷ urldecode false s
    percent rel_uri v = urldecode_percent c s h g f
    percent rel_uri_part v = urldecode_percent c s h g f
    percent html v = absurd v
    percent minimal_xml v = absurd v
    percent hex v = absurd v
    percent http_header v = absurd v

urldecode-expanded :
    (encoding : Encoding) (s : Bytes)
    → IsUri encoding
    → IsBytes s
    → IsPrintable s
    → urldecode false (expanded (encode_char encoding) s) ≡ s
urldecode-expanded encoding [] u b p = unfold urldecode in refl
urldecode-expanded encoding (c ∷ s) u b p =
    urldecode_char encoding c (expanded (encode_char encoding) s) u p.0 p.1 b.0
    ∙ ap (◌∷◌ c) (urldecode-expanded encoding s u b.1 p.2)

module _ (heap : Allocator) where
  -- For both URI encodings, a buffer that holds the empty string, and a text of bytes that is not empty,
  -- holds no control character and is shorter than 2 ^ 64 when it is encoded:
  -- `buffer_append_string_encoded` aborts because the encoded text does not fit in the address space,
  -- or it gives a buffer that `buffer_urldecode_path` turns into one that holds the text again.
  pub urldecode_path-string_encoded :
      (encoding : Encoding) (c : ℕ) (t : Bytes) (b : Buffer)
      → Holds [] b
      → IsUri encoding
      → IsBytes (c ∷ t)
      → IsPrintable (c ∷ t)
      → length (expanded (encode_char encoding) (c ∷ t)) < size_mod
      → ((b' : Buffer) × (buffer_append_string_encoded heap b (c ∷ t) encoding ≡ ok b')
          × (b'' : Buffer) × (buffer_urldecode_path b' ≡ ok b'')
          × IsString (c ∷ t) b'')
        ⊎ ((size_mod ≤ length (expanded (encode_char encoding) (c ∷ t)) + 1)
            × (buffer_append_string_encoded heap b (c ∷ t) encoding ≡ aborted))
  urldecode_path-string_encoded encoding c t b h u bytes p f =
      elim (append_string_encoded-Stores heap encoding [] c t b h f) [
        | inl (b', e, i) ↦
            let (b'', g, j) =
              buffer_urldecode_path-IsString (expanded (encode_char encoding) (c ∷ t)) b' i in
            let same = urldecode-expanded encoding (c ∷ t) u bytes p in
            inl (b', e, b'', g, subst (λ s. IsString s b'') same j)
        | inr (large, e) ↦ inr (large, e)
      ]

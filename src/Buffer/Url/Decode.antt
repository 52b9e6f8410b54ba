-- ===== src/Buffer/Url/Decode.antt =====
-- URL decoding as a function on strings.
use lighttpd_multithread.Base.{
  ℕ, ◌+◌, ◌≤◌, ◌<◌, ◌≡◌, ◌≢◌, refl, Bool, true, false, ◌&&◌, [], ◌∷◌, ◌==◌, if◌then◌else◌, length,
  arith,
}
use lighttpd_multithread.Base.Memory.{Bytes}
use lighttpd_multithread.Buffer.Hex.{hex2int}
use lighttpd_multithread.Buffer.Url.{decoded_byte}

abbrev pub is_hex : ℕ → Bool
is_hex c = if hex2int c == 0xff then false else true

-- "%XX" stands for a byte; in a query '+' stands for a space; a '%' with no two hexadecimal digits
-- behind it stands for itself. The string ends at its first 0.
unfoldable pub urldecode : Bool → Bytes → Bytes
urldecode q [] = []
urldecode q (c ∷ []) = if c == 0 then [] else if q && c == b'+' then b' ' ∷ [] else c ∷ []
urldecode q (c ∷ d ∷ []) =
    let rest = urldecode q (d ∷ []) in
    if c == 0 then [] else if q && c == b'+' then b' ' ∷ rest else c ∷ rest
urldecode q (c ∷ d ∷ e ∷ s) =
    let rest = urldecode q (d ∷ e ∷ s) in
    let pair = decoded_byte (hex2int d) (hex2int e) ∷ urldecode q s in
    if c == 0
    then []
    else if q && c == b'+'
    then b' ' ∷ rest
    else if c == b'%'
    then (if is_hex d && is_hex e then pair else c ∷ rest)
    else c ∷ rest

-- The last clause, for what the rest and what is behind the three characters decode to.
abbrev pub decode_char : Bool → ℕ → ℕ → ℕ → Bytes → Bytes → Bytes
decode_char q c d e rest behind =
    if c == 0
    then []
    else if q && c == b'+'
    then b' ' ∷ rest
    else if c == b'%'
    then (if is_hex d && is_hex e then decoded_byte (hex2int d) (hex2int e) ∷ behind else c ∷ rest)
    else c ∷ rest

pub urldecode-cons :
    (q : Bool) (c d e : ℕ) (s : Bytes)
    → urldecode q (c ∷ d ∷ e ∷ s) ≡ decode_char q c d e (urldecode q (d ∷ e ∷ s)) (urldecode q s)
unfolding urldecode
urldecode-cons q c d e s = refl

length-decode_char :
    (q : Bool) (c d e n : ℕ) (rest behind : Bytes)
    → length rest ≤ n + 2
    → length behind ≤ n
    → length (decode_char q c d e rest behind) ≤ n + 3
length-decode_char q c d e n rest behind h g = ground arith

abbrev decode_plain : Bool → ℕ → Bytes → Bytes
decode_plain q c rest = if c == 0 then [] else if q && c == b'+' then b' ' ∷ rest else c ∷ rest

pub two_chars :
    (q : Bool) (c d : ℕ) → urldecode q (c ∷ d ∷ []) ≡ decode_plain q c (urldecode q (d ∷ []))
unfolding urldecode
two_chars q c d = refl

-- Decoding never makes a string longer.
pub length-urldecode : (q : Bool) (s : Bytes) → length (urldecode q s) ≤ length s
length-urldecode q [] = unfold urldecode in omega arith
length-urldecode q (c ∷ []) = unfold urldecode in ground arith
length-urldecode q (c ∷ d ∷ []) =
    rw two_chars (shorter q c (urldecode q (d ∷ [])) (length-urldecode q (d ∷ [])))
  where
    shorter :
        (p : Bool) (x : ℕ) (rest : Bytes) → length rest ≤ 1 → length (decode_plain p x rest) ≤ 2
    shorter p x rest h = ground arith
length-urldecode q (c ∷ d ∷ e ∷ s) = rw urldecode-cons (
    omega (
      arith,
      length-decode_char q c d e (length s) (urldecode q (d ∷ e ∷ s)) (urldecode q s)
          (omega (arith, length-urldecode q (d ∷ e ∷ s))) (length-urldecode q s),
    ))

abbrev pub IsPrintable : Bytes → Type 0
IsPrintable [] = Unit
IsPrintable (c ∷ s) = (31 < c) × (c ≢ 127) × IsPrintable s

decode_char-IsPrintable :
    (q : Bool) (c d e : ℕ) (rest behind : Bytes)
    → 31 < c
    → c ≢ 127
    → IsPrintable rest
    → IsPrintable behind
    → IsPrintable (decode_char q c d e rest behind)
unfolding decoded_byte
decode_char-IsPrintable q c d e rest behind h g i j = ground arith

-- An escape never decodes to a control character: where the bytes of the string are none, those of
-- its decoded form are none.
pub urldecode-IsPrintable : (q : Bool) (s : Bytes) → IsPrintable s → IsPrintable (urldecode q s)
urldecode-IsPrintable q [] h = unfold urldecode in tt
urldecode-IsPrintable q (c ∷ []) h = unfold urldecode in ground arith
urldecode-IsPrintable q (c ∷ d ∷ []) h =
    rw two_chars (plain q c (urldecode q (d ∷ [])) h.0 h.1 (urldecode-IsPrintable q (d ∷ []) h.2))
  where
    plain :
        (p : Bool) (x : ℕ) (rest : Bytes)
        → 31 < x
        → x ≢ 127
        → IsPrintable rest
        → IsPrintable (decode_plain p x rest)
    plain p x rest g i j = ground arith
urldecode-IsPrintable q (c ∷ d ∷ e ∷ s) h = rw urldecode-cons (
    decode_char-IsPrintable q c d e (urldecode q (d ∷ e ∷ s)) (urldecode q s) h.0 h.1
      (urldecode-IsPrintable q (d ∷ e ∷ s) h.2) (urldecode-IsPrintable q s h.2.2.2))

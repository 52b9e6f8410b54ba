-- ===== src/Base64.antt =====
-- base64.c: base64 in buffers, with the two alphabets.
pub mod Digits
pub mod Groups
pub mod Decode
pub mod Tuples
pub mod Encode
pub mod RoundTrip
use lighttpd_multithread.Base.{
  ℕ, zero, suc, ◌+◌, ◌-◌, ◌*◌, ◌/◌, ◌%◌, Bool, true, false, ◌&&◌, [], ◌∷◌, ltb, leb, ◌==◌,
  if◌then◌else◌, length, replicate, Outcome, ok, force_assert, ◌>>=◌, ◌>>◌,
}
use lighttpd_multithread.Base.Memory.{Bytes, size_mod, Allocator, memcpy}
use lighttpd_multithread.Buffer.{
  Buffer, buffer_string_prepare_append, buffer_commit, end_of_string, store,
}
use lighttpd_multithread.Buffer.Encode.{byte_at}

-- `base64_charset`; the enumeration has no other values, so the default branches are not reached.
pub data Charset : Type 0 where
  base64_standard base64_url : Charset

-- The tables of digits, for the digits 62 and 63 and for the padding.
abbrev pub last_digits : Charset → ℕ × ℕ × ℕ
last_digits base64_standard = (b'+', b'/', b'=')
last_digits base64_url = (b'-', b'_', b'.')

-- `base64_table[v]`, for v < 64.
pub base64_table : Charset → ℕ → ℕ
base64_table charset v =
    if ltb v 26
    then b'A' + v
    else if ltb v 52
    then b'a' + (v - 26)
    else if ltb v 62
    then b'0' + (v - 52)
    else if v == 62
    then (last_digits charset).0
    else (last_digits charset).1

-- What the reverse tables say: a digit, or -1, -2, -3.
pub data Reverse : Type 0 where
  digit : ℕ → Reverse
  invalid_char skip_char padding_char : Reverse

-- `base64_reverse_table[c]`, for c < 128.
pub base64_reverse_table : Charset → ℕ → Reverse
base64_reverse_table charset c =
    if c == 0
    then invalid_char
    else if leb c 0x20
    then skip_char
    else if c == (last_digits charset).0
    then digit 62
    else if c == (last_digits charset).1
    then digit 63
    else if c == (last_digits charset).2
    then padding_char
    else if leb b'0' c && leb c b'9'
    then digit (c - b'0' + 52)
    else if leb b'A' c && leb c b'Z'
    then digit (c - b'A')
    else if leb b'a' c && leb c b'z'
    then digit (c - b'a' + 26)
    else invalid_char

-- `result`, `out_pos` and `group`; `result` is the memory of the buffer from `start` on.
pub record Decoding : Type 0 where
  pub result : Bytes
  pub out_pos : ℕ
  pub group : ℕ

-- The switch on `group`. The bits that `|=` joins are disjoint: the byte was written by the case
-- before.
pub decode_digit : ℕ → Decoding → ℕ → Outcome Decoding
decode_digit start d ch = elim d.group [
  | zero ↦ do
    r ← store d.result (start + d.out_pos) (ch * 4 % 256)
    ok (record { result = r; out_pos = d.out_pos; group = 1 })
  | suc zero ↦ do
    old ← byte_at d.result (start + d.out_pos)
    r ← store d.result (start + d.out_pos) (old + ch / 16)
    s ← store r (start + d.out_pos + 1) (ch % 16 * 16)
    ok (record { result = s; out_pos = d.out_pos + 1; group = 2 })
  | suc (suc zero) ↦ do
    old ← byte_at d.result (start + d.out_pos)
    r ← store d.result (start + d.out_pos) (old + ch / 4)
    s ← store r (start + d.out_pos + 1) (ch % 4 * 64)
    ok (record { result = s; out_pos = d.out_pos + 1; group = 3 })
  | suc (suc (suc _)) ↦ do
    old ← byte_at d.result (start + d.out_pos)
    r ← store d.result (start + d.out_pos) (old + ch)
    ok (record { result = r; out_pos = d.out_pos + 1; group = 0 })
]

-- The loop. The flag is false where the source returns NULL.
pub decode_chars : Charset → ℕ → Decoding → Bytes → Outcome (Decoding × Bool)
unfolding decode_digit
decode_chars charset start d [] = ok (d, true)
decode_chars charset start d (c ∷ input) =
    let char : Outcome (Decoding × Bool) = elim (base64_reverse_table charset c) [
      | padding_char ↦ ok (d, leb 2 d.group)
      | skip_char ↦ decode_chars charset start d input
      | invalid_char ↦ ok (d, false)
      | digit ch ↦ do e ← decode_digit start d ch; decode_chars charset start e input
    ] in
    if c == 0 then ok (d, true) else if leb 128 c then ok (d, false) else char

-- The check of the last group: its incomplete byte is 0.
pub last_group : ℕ → Decoding → Outcome Bool
last_group start d = elim d.group [
  | zero ↦ ok true
  | suc zero ↦ ok false
  | suc (suc _) ↦ do c ← byte_at d.result (start + d.out_pos); ok (c == 0)
]

module _ (heap : Allocator) where
  -- The flag is false where the source returns NULL: then `used` is what it was.
  pub buffer_append_base64_decode : Buffer → Bytes → Charset → Outcome (Buffer × Bool)
  unfolding decode_chars last_group
  buffer_append_base64_decode out input charset = do
    b ← buffer_string_prepare_append heap out (3 * (length input / 4) + 3)
    let start = end_of_string b
    (d, going) ←
        decode_chars charset start (record { result = b.ptr; out_pos = 0; group = 0 }) input
    good ← (if going then last_group start d else ok false)
    let b' = record b { ptr = d.result }
    let commit = do c ← buffer_commit b' d.out_pos; ok (c, true)
    if good then commit else ok (b', false)

-- The digits for `v & 0x3f`, `(v >> 6) & 0x3f` and so on, in the order that they stand in.
abbrev four_digits : Charset → ℕ → Bytes
four_digits charset v =
    base64_table charset (v / 64 / 64 / 64 % 64)
    ∷ base64_table charset (v / 64 / 64 % 64)
    ∷ base64_table charset (v / 64 % 64)
    ∷ base64_table charset (v % 64)
    ∷ []

-- The loop and the switch behind it, which write from `out_pos` on. The bits that `|` joins are
-- disjoint. A group is written from its last character to its first, into one place.
pub encode_tuples : Charset → Bytes → ℕ → Bytes → Outcome (Bytes × ℕ)
encode_tuples charset out out_pos [] = ok (out, out_pos)
encode_tuples charset out out_pos (a ∷ []) =
    let v = a * 16 in
    (do
      p ←
          memcpy out out_pos
            (base64_table charset (v / 64 % 64) ∷ base64_table charset (v % 64) ∷ [])
      ok (p, out_pos + 2))
encode_tuples charset out out_pos (a ∷ b ∷ []) =
    let v = a * 1024 + b * 4 in
    (do
      p ← memcpy out out_pos (
          base64_table charset (v / 64 / 64 % 64)
          ∷ base64_table charset (v / 64 % 64)
          ∷ base64_table charset (v % 64)
          ∷ [])
      ok (p, out_pos + 3))
encode_tuples charset out out_pos (a ∷ b ∷ c ∷ input) = do
  p ← memcpy out out_pos (four_digits charset (a * 65536 + b * 256 + c))
  encode_tuples charset p (out_pos + 4) input

-- `out` is the memory from `start` on. The result is that memory and `out_pos`.
pub li_to_base64_no_padding : Bytes → ℕ → ℕ → Bytes → Charset → Outcome (Bytes × ℕ)
unfolding encode_tuples
li_to_base64_no_padding out start out_length input charset = do
  let full_tuples = length input / 3
  let in_tuple_remainder = length input % 3
  let out_tuple_remainder = if in_tuple_remainder == 0 then 0 else 1 + in_tuple_remainder
  let require_space = (4 * full_tuples + out_tuple_remainder) % size_mod
  force_assert (leb full_tuples (2 * full_tuples % size_mod))
  force_assert (leb full_tuples (4 * full_tuples % size_mod))
  force_assert (leb (4 * full_tuples % size_mod) require_space)
  force_assert (leb require_space out_length)
  (p, end) ← encode_tuples charset out start input
  force_assert (leb (end - start) out_length)
  ok (p, end - start)

pub li_to_base64 : Bytes → ℕ → ℕ → Bytes → Charset → Outcome (Bytes × ℕ)
li_to_base64 out start out_length input charset = do
  let in_tuple_remainder = length input % 3
  let padding_length = if in_tuple_remainder == 0 then 0 else 3 - in_tuple_remainder
  let padding = (last_digits charset).2
  force_assert (leb padding_length out_length)
  (p, out_pos) ← li_to_base64_no_padding out start (out_length - padding_length) input charset
  q ← memcpy p (start + out_pos) (replicate padding_length padding)
  force_assert (leb (out_pos + padding_length) out_length)
  ok (q, out_pos + padding_length)

module _ (heap : Allocator) where
  pub buffer_append_base64_encode_no_padding : Buffer → Bytes → Charset → Outcome Buffer
  buffer_append_base64_encode_no_padding out input charset = do
    let reserve = (4 * (length input / 3) + 4) % size_mod
    b ← buffer_string_prepare_append heap out reserve
    (p, n) ← li_to_base64_no_padding b.ptr (end_of_string b) reserve input charset
    buffer_commit (record b { ptr = p }) n

  pub buffer_append_base64_encode : Buffer → Bytes → Charset → Outcome Buffer
  buffer_append_base64_encode out input charset = do
    let reserve = (4 * (length input / 3) + 4) % size_mod
    b ← buffer_string_prepare_append heap out reserve
    (p, n) ← li_to_base64 b.ptr (end_of_string b) reserve input charset
    buffer_commit (record b { ptr = p }) n

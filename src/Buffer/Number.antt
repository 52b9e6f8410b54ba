-- ===== src/Buffer/Number.antt =====
-- buffer.c: numbers written into buffers, in decimal and in hexadecimal, and bytes in hexadecimal.
pub mod Hexadecimal
pub mod Integer
use lighttpd_multithread.Base.{
  ℕ, zero, suc, ◌+◌, ◌*◌, ◌/◌, ◌%◌, ◌^◌, [], ◌∷◌, ◌++◌, ltb, leb, ◌==◌, if◌then◌else◌, length,
  Outcome, ok, force_assert, ◌>>=◌, ◌>>◌, ◌&&◌,
}
use lighttpd_multithread.Base.Memory.{Bytes, size_mod, Allocator, memcpy}
use lighttpd_multithread.Buffer.{
  Buffer, buffer_append_string_len, buffer_commit, buffer_string_length,
  buffer_string_prepare_append, buffer_string_set_length, end_of_string,
}
use lighttpd_multithread.Buffer.Decimal.{utostr, itostr}
use lighttpd_multithread.Buffer.Hex.{hex_char}

-- The first loop: the bytes that the value needs, one at least. Eight is the size of `uintmax_t`.
pub count_value_bytes : ℕ → ℕ → ℕ
count_value_bytes zero copy = 0
count_value_bytes (suc fuel) copy =
    let rest = count_value_bytes fuel (copy / 256) in if copy / 256 == 0 then 1 else 1 + rest

-- The second loop, with `n` digits to write.
pub hex_digits : ℕ → ℕ → Bytes
hex_digits zero value = []
hex_digits (suc n) value = hex_char (value / 16 ^ n % 16) ∷ hex_digits n value

pub tohex_bytes : Bytes → Bytes
tohex_bytes [] = []
tohex_bytes (c ∷ s) = hex_char (c / 16 % 16) ∷ hex_char (c % 16) ∷ tohex_bytes s

pub li_tohex : Bytes → ℕ → Bytes → Outcome Bytes
unfolding tohex_bytes
li_tohex buf buf_len s = do
  force_assert (ltb (length s) (2 * length s % size_mod))
  force_assert (ltb (2 * length s % size_mod) buf_len)
  memcpy buf 0 (tohex_bytes s ++ (0 ∷ []))

abbrev pub li_itostring_length : ℕ
li_itostring_length = 2 + (8 * 8 * 31 + 99) / 100

-- `*str = '\0'` and the copy of a decimal number with it.
abbrev copy_number : Bytes → ℕ → Bytes → Outcome Bytes
copy_number buf buf_len digits = do
  let p_buf = digits ++ (0 ∷ [])
  force_assert (ltb 0 (length p_buf) && leb (length p_buf) li_itostring_length)
  force_assert (leb (length p_buf) buf_len)
  memcpy buf 0 p_buf

pub li_itostrn : Bytes → ℕ → ℕ → Outcome Bytes
li_itostrn buf buf_len val = copy_number buf buf_len (itostr val)

pub li_utostrn : Bytes → ℕ → ℕ → Outcome Bytes
li_utostrn buf buf_len val = copy_number buf buf_len (utostr val)

module _ (heap : Allocator) where
  pub buffer_append_uint_hex : Buffer → ℕ → Outcome Buffer
  unfolding count_value_bytes hex_digits
  buffer_append_uint_hex b value = do
    let n = 2 * count_value_bytes 8 value
    b' ← buffer_string_prepare_append heap b n
    c ← buffer_commit b' n
    p ← memcpy c.ptr (end_of_string b') (hex_digits n value)
    ok (record c { ptr = p })

  pub buffer_append_int : Buffer → ℕ → Outcome Buffer
  buffer_append_int b val = do
    let str = itostr val
    force_assert (ltb 0 (length str) && leb (length str) li_itostring_length)
    buffer_append_string_len heap b str

  pub buffer_copy_int : Buffer → ℕ → Outcome Buffer
  buffer_copy_int b val = buffer_append_int (record b { used = 0 }) val

  pub buffer_copy_string_hex : Buffer → Bytes → Outcome Buffer
  buffer_copy_string_hex b input = do
    force_assert (ltb (length input) (length input * 2 % size_mod))
    b' ← buffer_string_set_length heap b (2 * length input)
    p ← li_tohex b'.ptr (buffer_string_length b' + 1) input
    ok (record b' { ptr = p })

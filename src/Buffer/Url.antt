-- ===== src/Buffer/Url.antt =====
-- buffer.c: `buffer_urldecode_internal`, which decodes a buffer in place.
pub mod Decode
pub mod Steps
pub mod InPlace
pub mod Internal
use lighttpd_multithread.Base.{
  ℕ, zero, suc, ◌+◌, ◌-◌, ◌*◌, ◌%◌, ◌/◌, Bool, true, false, ◌&&◌, ◌||◌, Option, none, some, List,
  [], ◌∷◌, ltb, leb, ◌==◌, if◌then◌else◌, get_elem?, length, Outcome, ok, fault, force_assert,
  ◌>>=◌, ◌>>◌,
}
use lighttpd_multithread.Base.Memory.{Bytes, memcpy}
use lighttpd_multithread.Buffer.{Buffer, buffer_string_is_empty, store}
use lighttpd_multithread.Buffer.Encode.{byte_at}
use lighttpd_multithread.Buffer.Hex.{hex2int}

-- `high = (high << 4) | low`, on digits below 16, and control characters mapped out.
unfoldable pub decoded_byte : ℕ → ℕ → ℕ
decoded_byte high low = let c = high * 16 % 256 + low in if ltb c 32 || c == 127 then b'_' else c

-- The first loop: up to the first '%', the bytes stay where they are. The result is `src`.
pub skip_plain : Bool → ℕ → Bytes → ℕ → Outcome (Bytes × ℕ)
unfolding store
skip_plain is_query zero ptr src = fault
skip_plain is_query (suc fuel) ptr src = do
  c ← byte_at ptr src
  let plus = do p ← store ptr src b' '; skip_plain is_query fuel p (src + 1)
  let plain = skip_plain is_query fuel ptr (src + 1)
  if c == 0 || c == b'%' then ok (ptr, src) else if is_query && c == b'+' then plus else plain

-- The second loop. The result is `dst`.
pub decode_in_place : Bool → ℕ → Bytes → ℕ → ℕ → Outcome (Bytes × ℕ)
unfolding store
decode_in_place is_query zero ptr src dst = fault
decode_in_place is_query (suc fuel) ptr src dst = do
  c ← byte_at ptr src
  let next = λ (p : Bytes) (read : ℕ). decode_in_place is_query fuel p (src + read) (dst + 1)
  let plus = do p ← store ptr dst b' '; next p 1
  let plain = do p ← store ptr dst c; next p 1
  let percent = do
    p ← store ptr dst b'%'
    first ← byte_at p (src + 1)
    let second = do
      d ← byte_at p (src + 2)
      let pair = do q ← store p dst (decoded_byte (hex2int first) (hex2int d)); next q 3
      let broken = next p 1
      if hex2int d == 0xff then broken else pair
    let alone = next p 1
    if hex2int first == 0xff then alone else second
  let char = if is_query && c == b'+' then plus else if c == b'%' then percent else plain
  if c == 0 then ok (ptr, dst) else char

-- The loops never run longer than the string: `used` is fuel enough.
pub buffer_urldecode_internal : Buffer → Bool → Outcome Buffer
unfolding buffer_string_is_empty store
buffer_urldecode_internal url is_query =
    let decode = (do
      last ← byte_at url.ptr (url.used - 1)
      force_assert (last == 0)
      (ptr, src) ← skip_plain is_query url.used url.ptr 0
      (ptr', dst) ← decode_in_place is_query url.used ptr src src
      p ← store ptr' dst 0
      ok (record { ptr = p; used = dst + 1 })) in
    if buffer_string_is_empty url then ok url else decode

pub buffer_urldecode_path : Buffer → Outcome Buffer
buffer_urldecode_path url = buffer_urldecode_internal url false

pub buffer_urldecode_query : Buffer → Outcome Buffer
buffer_urldecode_query url = buffer_urldecode_internal url true

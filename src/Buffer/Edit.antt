-- ===== src/Buffer/Edit.antt =====
-- buffer.c: changes to a string in its place, and the names of CGI variables.
pub mod Case
use lighttpd_multithread.Base.{
  ℕ, zero, suc, ◌+◌, ◌-◌, ◌%◌, ◌/◌, Bool, true, false, not, ◌&&◌, [], ◌∷◌, ◌++◌, ltb, leb, ◌==◌,
  if◌then◌else◌, length, take, drop, Outcome, ok, fault, force_assert, ◌>>=◌, ◌>>◌,
}
use lighttpd_multithread.Base.Memory.{Bytes, size_mod, Allocator, memcpy}
use lighttpd_multithread.Buffer.{
  Buffer, buffer_copy_string_len, buffer_reset, buffer_string_length, buffer_string_prepare_append,
  buffer_string_set_length, size, store,
}
use lighttpd_multithread.Buffer.Equal.{same_caseless}
use lighttpd_multithread.Buffer.Compare.{lowercase}
use lighttpd_multithread.Buffer.Hex.{codes, light_isalpha, light_isdigit}

-- `memmove(mem + dest, mem + src, n)`.
pub memmove : Bytes → ℕ → ℕ → ℕ → Outcome Bytes
memmove mem dest src n =
    if leb (src + n) (length mem) then memcpy mem dest (take n (drop src mem)) else fault

module _ (heap : Allocator) where
  -- `offset + len` is within the string, as the callers see to.
  pub buffer_substr_replace : Buffer → ℕ → ℕ → Buffer → Outcome Buffer
  unfolding memmove
  buffer_substr_replace b offset len replace = do
    let blen = buffer_string_length b
    let rlen = buffer_string_length replace
    let new_length = (blen - len + rlen) % size_mod
    let longer = do
      c ← buffer_string_set_length heap b new_length
      p ← memmove c.ptr (offset + rlen) (offset + len) (blen - offset - len)
      ok (record c { ptr = p })
    b' ← (if ltb len rlen then longer else ok b)
    p ← memcpy b'.ptr offset (take rlen replace.ptr)
    let shorter = do
      q ← memmove p (offset + rlen) (offset + len) (blen - offset - len)
      buffer_string_set_length heap (record b' { ptr = q }) new_length
    if ltb rlen len then shorter else ok (record b' { ptr = p })

-- `c &= ~0x20` for the letters 'a' to 'z' of a CGI name, whose bit 5 is 1, and for 'A' to 'Z', whose
-- bit 5 is 0.
abbrev pub uppercase : ℕ → ℕ
uppercase c = if leb b'a' c && leb c b'z' then c - 32 else c

pub cgi_char : ℕ → ℕ
cgi_char c = if light_isalpha c then uppercase c else if light_isdigit c then c else b'_'

-- The loop, which writes `ptr[j++]`.
pub write_cgi_name : Bytes → ℕ → Bytes → Outcome (Bytes × ℕ)
unfolding cgi_char
write_cgi_name ptr j [] = ok (ptr, j)
write_cgi_name ptr j (c ∷ s) = do p ← store ptr j (cgi_char c); write_cgi_name p (j + 1) s

abbrev content_type : Bytes
content_type = codes "CONTENT-TYPE"

module _ (heap : Allocator) where
  -- `s` is a C string of `s_len` characters that is not NULL: the 0 stands behind them.
  pub buffer_copy_string_encoded_cgi_varnames : Buffer → Bytes → Bool → Outcome Buffer
  unfolding write_cgi_name
  buffer_copy_string_encoded_cgi_varnames b s is_http_header = do
    r ← buffer_reset b
    same ←
        (if is_http_header
          then same_caseless (s ++ (0 ∷ [])) (content_type ++ (0 ∷ []))
          else ok true)
    let header = do
      p ← buffer_string_prepare_append heap r ((length s + 5) % size_mod)
      buffer_copy_string_len heap p (codes "HTTP_")
    t ← (if not same then header else buffer_string_prepare_append heap r (length s))
    (p, j) ← write_cgi_name t.ptr (buffer_string_length t) s
    q ← store p j 0
    ok (record { ptr = q; used = j + 1 })

-- The loops of `buffer_to_lower` and `buffer_to_upper`, over `used` bytes. In `buffer_to_upper` the
-- letters tested for are the upper-case ones, in which bit 5 is 0 already.
pub map_used : (ℕ → ℕ) → ℕ → Bytes → Outcome Bytes
map_used f zero mem = ok mem
map_used f (suc n) [] = fault
map_used f (suc n) (c ∷ mem) = do rest ← map_used f n mem; ok (f c ∷ rest)

pub buffer_to_lower : Buffer → Outcome Buffer
unfolding map_used
buffer_to_lower b = do p ← map_used lowercase b.used b.ptr; ok (record b { ptr = p })

abbrev clear_bit_5 : ℕ → ℕ
clear_bit_5 c = if c / 32 % 2 == 1 then c - 32 else c

abbrev pub to_upper : ℕ → ℕ
to_upper c = if leb b'A' c && leb c b'Z' then clear_bit_5 c else c

pub buffer_to_upper : Buffer → Outcome Buffer
buffer_to_upper b = do p ← map_used to_upper b.used b.ptr; ok (record b { ptr = p })

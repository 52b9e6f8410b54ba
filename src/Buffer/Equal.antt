-- ===== src/Buffer/Equal.antt =====
-- buffer.c: the tests whether two strings are equal.
pub mod Same
use lighttpd_multithread.Base.{
  ℕ, ◌+◌, ◌-◌, ◌%◌, Bool, true, false, not, ◌&&◌, ◌||◌, [], ◌∷◌, ltb, leb, ◌==◌, if◌then◌else◌,
  length, take, drop, Outcome, ok, fault, force_assert, ◌>>=◌, ◌>>◌, ◌++◌,
}
use lighttpd_multithread.Base.Memory.{Bytes, size_mod}
use lighttpd_multithread.Buffer.{Buffer}
use lighttpd_multithread.Buffer.Encode.{byte_at}
use lighttpd_multithread.Buffer.Compare.{lowercase}

abbrev pub same_bytes : Bytes → Bytes → Bool
same_bytes [] [] = true
same_bytes [] (y ∷ t) = false
same_bytes (x ∷ s) [] = false
same_bytes (x ∷ s) (y ∷ t) = if x == y then same_bytes s t else false

-- `0 == memcmp(a + i, b + j, n)`.
pub memory_equal : Bytes → ℕ → Bytes → ℕ → ℕ → Outcome Bool
memory_equal a i b j n =
    if leb (i + n) (length a) && leb (j + n) (length b)
    then ok (same_bytes (take n (drop i a)) (take n (drop j b)))
    else fault

-- `0 == strcasecmp(a, b)`, in the C locale. A string that has no end is read past its end.
pub same_caseless : Bytes → Bytes → Outcome Bool
same_caseless [] b = fault
same_caseless (x ∷ a) [] = fault
same_caseless (x ∷ a) (y ∷ b) =
    let rest = same_caseless a b in
    if not (lowercase x == lowercase y) then ok false else if x == 0 then ok true else rest

pub buffer_is_equal : Buffer → Buffer → Outcome Bool
unfolding memory_equal
buffer_is_equal a b =
    if not (a.used == b.used)
    then ok false
    else if a.used == 0
    then ok true
    else memory_equal a.ptr 0 b.ptr 0 a.used

pub buffer_is_equal_string : Buffer → Bytes → Outcome Bool
unfolding memory_equal
buffer_is_equal_string a s = do
  force_assert (ltb (length s) ((length s + 1) % size_mod))
  let compared = do
    same ← memory_equal a.ptr 0 s 0 (length s)
    last ← byte_at a.ptr (a.used - 1)
    ok (same && last == 0)
  if a.used == (length s + 1) % size_mod then compared else ok false

-- `s` is a C string of `b_len` characters: the 0 stands behind them.
pub buffer_is_equal_caseless_string : Buffer → Bytes → Outcome Bool
unfolding same_caseless
buffer_is_equal_caseless_string a s =
    let compared = (do
      last ← byte_at a.ptr (a.used - 1)
      force_assert (last == 0)
      same_caseless a.ptr (s ++ (0 ∷ []))) in
    if a.used == (length s + 1) % size_mod then compared else ok false

pub buffer_is_equal_right_len : Buffer → Buffer → ℕ → Outcome Bool
buffer_is_equal_right_len b1 b2 len =
    if len == 0
    then ok true
    else if b1.used == 0 || b2.used == 0
    then ok false
    else if ltb (b1.used - 1) len || ltb (b2.used - 1) len
    then ok false
    else memory_equal b1.ptr (b1.used - 1 - len) b2.ptr (b2.used - 1 - len) len

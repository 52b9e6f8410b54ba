-- ===== src/Buffer/Holds.antt =====
-- The abstract view of a buffer: the byte string that it holds.
use lighttpd_multithread.Base.{
  ℕ, ◌+◌, ◌≤◌, ◌<◌, ◌≡◌, refl, sym, ap, ◌∙◌, ◌⊎◌, [], ◌∷◌, ◌++◌, append_assoc, length,
  length-append, take-append_left, Outcome, ok, aborted, arith,
}
use lighttpd_multithread.Base.Memory.{Bytes, size_mod, memcpy-append}
use lighttpd_multithread.Buffer.{
  Buffer, size, buffer_align_size, buffer_commit, buffer_string_length, store, string_bytes,
}

-- The bytes of `s` stand at `ptr`, a 0 behind them, and any bytes up to the end of the allocation.
pub record IsString (s : Bytes) (b : Buffer) : Type 0 where
  pub spare : Bytes
  pub ptr_is : b.ptr ≡ s ++ (0 ∷ spare)
  pub used_is : b.used ≡ length s + 1
  pub fits : length b.ptr < size_mod

-- The special state of a buffer with `used == 0`.
pub record IsUnset (b : Buffer) : Type 0 where
  pub unused : b.used ≡ 0
  pub fits : length b.ptr < size_mod

abbrev pub Holds : Bytes → Buffer → Type 0
Holds s b = IsString s b ⊎ (IsUnset b × (s ≡ []))

-- A routine's outcome is a buffer with the string `s`, or an abort because `s` and its terminator
-- do not fit in the address space.
abbrev pub Stores : Bytes → Outcome Buffer → Type 0
Stores s o =
    ((b : Buffer) × (o ≡ ok b) × IsString s b) ⊎ ((size_mod ≤ length s + 1) × (o ≡ aborted))

pub buffer_align_size_bounds :
    (n : ℕ) → n < size_mod → (n ≤ buffer_align_size n) × (buffer_align_size n < size_mod)
unfolding buffer_align_size
buffer_align_size_bounds n h = ground arith

pub size-IsString :
    {s : Bytes} {b : Buffer} (i : IsString s b) → size b ≡ length s + 1 + length i.spare
size-IsString {s} i = ap length i.ptr_is ∙ omega (arith, length-append s (0 ∷ i.spare))

pub string_bytes-IsString : {s : Bytes} {b : Buffer} → IsString s b → string_bytes b ≡ s
unfolding buffer_string_length
string_bytes-IsString {s} {b} i = rw i.ptr_is (take-append_left s (0 ∷ i.spare) _ (ground arith))

-- `buffer_commit` takes the bytes behind the string into it.
pub buffer_commit_lem :
    (b : Buffer) (s t : Bytes) (z : ℕ) (spare : Bytes)
    → b.ptr ≡ s ++ (t ++ (z ∷ spare))
    → b.used ≡ length s + 1
    → size b < size_mod
    → buffer_commit b (length t)
      ≡ ok (record { ptr = (s ++ t) ++ (0 ∷ spare); used = length s + 1 + length t })
unfolding buffer_commit
buffer_commit_lem b s t z spare p u f = ground (
  arith,
  ap length p,
  length-append s (t ++ (z ∷ spare)),
  length-append t (z ∷ spare),
  length-append s t,
  append_assoc s t (z ∷ spare),
  memcpy-append (s ++ t) (z ∷ []) spare (length s + length t) (0 ∷ []),
)

-- A byte is stored behind `front` and `between`.
pub store-between :
    (front between : Bytes) (x : ℕ) (back : Bytes) (i v : ℕ)
    → i ≡ length front + length between
    → store (front ++ (between ++ (x ∷ back))) i v ≡ ok (front ++ (between ++ (v ∷ back)))
unfolding store
store-between front between x back i v e = rw (sym (append_assoc front between (x ∷ back))) (
    memcpy-append (front ++ between) (x ∷ []) back i (v ∷ [])
      (omega (arith, length-append front between)) refl
    ∙ ap ok (append_assoc front between (v ∷ back)))

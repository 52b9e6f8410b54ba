-- ===== src/Buffer/Number/Integer.antt =====
-- buffer.c: a signed number is written whole, with its sign.
use lighttpd_multithread.Base.{
  ℕ, ◌+◌, ◌-◌, ◌%◌, ◌^◌, ◌≤◌, ◌<◌, ◌≡◌, refl, ap, ◌⊎◌, inl, inr, ◌∷◌, ◌++◌, ltb, ltb→lt, ltb→ge,
  lt→ltb, le→leb, Bool-cases, length, arith,
}
use lighttpd_multithread.Base.Memory.{Bytes, size_mod, Allocator}
use lighttpd_multithread.Buffer.{Buffer}
use lighttpd_multithread.Buffer.Holds.{Holds, Stores}
use lighttpd_multithread.Buffer.Append.{append_string_len-Stores}
use lighttpd_multithread.Buffer.Decimal.{utostr, itostr}
use lighttpd_multithread.Buffer.Decimal.Value.{IsDecimal, utostr-IsDecimal}
use lighttpd_multithread.Buffer.Number.{buffer_append_int, li_itostring_length}

-- From 2 ^ 63 on, the bits stand for a negative number.
abbrev pub IsInteger : ℕ → Bytes → Type 0
IsInteger val t =
    ((val < 2 ^ 63) × IsDecimal val t)
    ⊎ ((2 ^ 63 ≤ val) × ((u : Bytes) × (t ≡ b'-' ∷ u) × IsDecimal (2 ^ 64 - val) u))

itostr-IsInteger : (val : ℕ) → val < 2 ^ 64 → IsInteger val (itostr val)
unfolding itostr
itostr-IsInteger val h = elim (Bool-cases (ltb val (2 ^ 63))) [
  | inl small ↦ rw small (inl (ltb→lt val (2 ^ 63) small, utostr-IsDecimal val h))
  | inr large ↦
      let g = ltb→ge val (2 ^ 63) large in
      let e : (size_mod - 1 - val + 1) % size_mod ≡ 2 ^ 64 - val = omega (arith, g, h) in
      rw (large, e)
        (inr (g, (utostr (2 ^ 64 - val), refl, utostr-IsDecimal (2 ^ 64 - val) (omega (arith, g)))))
]

length-IsInteger :
    (val : ℕ) (t : Bytes) → IsInteger val t → (0 < length t) × (length t ≤ li_itostring_length)
length-IsInteger val t (inl (h, d)) = (omega (arith, ap length d.is_first), omega (arith, d.short))
length-IsInteger val t (inr (h, (u, e, d))) =
    (omega (arith, ap length e), omega (arith, ap length e, d.short))

-- For a number of 64 bits and a buffer that holds `s`, buffer_append_int stores `s` and the digits of
-- the number, with a '-' where its bits stand for a negative one, or aborts because this does not fit
-- in the address space; the array for the digits is never too small.
pub append_int-Stores :
    (heap : Allocator) (b : Buffer) (s : Bytes) (val : ℕ)
    → Holds s b
    → val < 2 ^ 64
    → (t : Bytes) × IsInteger val t × Stores (s ++ t) (buffer_append_int heap b val)
unfolding buffer_append_int
append_int-Stores heap b s val h f =
    let i = itostr-IsInteger val f in
    let (some_there, room) = length-IsInteger val (itostr val) i in
    let x = lt→ltb 0 (length (itostr val)) some_there in
    let y = le→leb (length (itostr val)) li_itostring_length room in
    (
      itostr val,
      i,
      rw (x, y) (append_string_len-Stores heap s (itostr val) b h (omega (arith, room))),
    )

-- ===== src/Buffer/Whole.antt =====
-- Routines on whole buffers: reset, move, copy and append of one buffer to another.
use lighttpd_multithread.Base.{
  ◌≤◌, ◌<◌, ◌≡◌, refl, ap, ◌↔◌, inl, inr, [], ◌∷◌, ◌++◌, ltb, length, uncons, Bool-cases, ltb→lt,
  ltb→ge, ok, arith, some,
}
use lighttpd_multithread.Base.Memory.{Bytes, size_mod, Allocator, memcpy-append}
use lighttpd_multithread.Buffer.{
  Buffer, size, string_bytes, buffer_reset, buffer_move, buffer_copy_buffer,
  buffer_append_string_buffer, buffer_string_length,
}
use lighttpd_multithread.Buffer.Holds.{IsUnset, Holds, size-IsString, string_bytes-IsString, Stores}
use lighttpd_multithread.Buffer.Append.{
  prepare_copy_lem, append_string_len-Stores, copy_string_len-Stores,
}

pub string_bytes-Holds : (s : Bytes) (b : Buffer) → Holds s b → string_bytes b ≡ s
string_bytes-Holds s b (inl i) = string_bytes-IsString i
string_bytes-Holds s b (inr (u, e)) = unfold buffer_string_length in ground (arith, u.unused)

-- A buffer that was reset has no string.
pub buffer_reset_used : (b : Buffer) → (b' : Buffer) × (buffer_reset b ≡ ok b') × (b'.used ≡ 0)
unfolding buffer_reset
buffer_reset_used b = elim (Bool-cases (ltb 4096 (size b))) [
  | inl large ↦ (record { ptr = []; used = 0 }, rw large, refl)
  | inr small ↦ elim (Bool-cases (ltb 0 (size b))) [
    | inl some_bytes ↦
        let (z, rest, e) = uncons b.ptr (ltb→lt _ _ some_bytes) in
        (
          record { ptr = 0 ∷ rest; used = 0 },
          rw (small, some_bytes)
              (rw e (rw (memcpy-append [] (z ∷ []) rest 0 (0 ∷ []) (omega arith) refl))),
          refl,
        )
    | inr no_bytes ↦ (record b { used = 0 }, rw (small, no_bytes), refl)
  ]
]

-- A reset buffer is unset, and keeps an allocation of 4096 bytes at most.
pub buffer_reset_lem :
    (b : Buffer)
    → size b < size_mod
    → (b' : Buffer) × (buffer_reset b ≡ ok b') × IsUnset b' × (size b' ≤ 4096)
unfolding buffer_reset
buffer_reset_lem b f = elim (Bool-cases (ltb 4096 (size b))) [
  | inl large ↦ (
    record { ptr = []; used = 0 },
    rw large,
    record { unused = refl; fits = omega arith },
    omega arith,
  )
  | inr small ↦ elim (Bool-cases (ltb 0 (size b))) [
    | inl some_bytes ↦
        let (z, rest, e) = uncons b.ptr (ltb→lt _ _ some_bytes) in
        (
          record { ptr = 0 ∷ rest; used = 0 },
          rw (small, some_bytes)
              (rw e (rw (memcpy-append [] (z ∷ []) rest 0 (0 ∷ []) (omega arith) refl))),
          record { unused = refl; fits = omega (arith, ap length e) },
          omega (arith, ap length e, ltb→ge _ _ small),
        )
    | inr no_bytes ↦ (
      record b { used = 0 },
      rw (small, no_bytes),
      record { unused = refl; fits = f },
      ltb→ge _ _ small,
    )
  ]
]

-- `buffer_move` of one buffer to another: the first holds the string of the second afterwards, with
-- the same allocation, and the second is unset.
pub buffer_move_lem :
    (b src : Buffer) (s : Bytes)
    → size b < size_mod
    → Holds s src
    → (b' src' : Buffer) × (buffer_move (some b) (some src) ≡ ok (some b', some src'))
      × Holds s b'
      × (b'.ptr ≡ src.ptr)
      × IsUnset src'
unfolding buffer_move
buffer_move_lem b src s f h = let (t, e, u, _) = buffer_reset_lem b f in (src, t, rw e, h, refl, u)

module _ (heap : Allocator) where
  -- `buffer_copy_buffer` never aborts: `b` holds the string of `src` afterwards, and is unset
  -- exactly when `src` is.
  pub copy_buffer-Holds :
      (s : Bytes) (b src : Buffer)
      → size b < size_mod
      → Holds s src
      → (b' : Buffer) × (buffer_copy_buffer heap b (some src) ≡ ok b')
        × Holds s b'
        × ((b'.used ≡ 0) ↔ (src.used ≡ 0))
  unfolding buffer_copy_buffer
  copy_buffer-Holds s b src f (inr (u, e)) =
      let (c, p, i, _) = prepare_copy_lem heap b 0 (omega arith) f in
      (
        record c { used = 0 },
        rw u.unused (rw p),
        inr (record { unused = refl; fits = i.fits }, e),
        ground (arith, u.unused),
      )
  copy_buffer-Holds s b src f (inl i) =
      elim (copy_string_len-Stores heap s b f (omega (arith, size-IsString i, i.fits))) [
        | inl (c, e, j) ↦ (
          c,
          ground (arith, i.used_is, string_bytes-IsString i, e),
          inl j,
          ground (arith, i.used_is, j.used_is),
        )
        | inr (large, e) ↦ absurd (omega (arith, size-IsString i, i.fits))
      ]

  -- `buffer_append_string_buffer` adds the string of `src`, or nothing where `src` is NULL.
  pub append_string_buffer-Stores :
      (s t : Bytes) (b src : Buffer)
      → Holds s b
      → Holds t src
      → length t < size_mod
      → Stores (s ++ t) (buffer_append_string_buffer heap b (some src))
  unfolding buffer_append_string_buffer
  append_string_buffer-Stores s t b src h k f =
      rw (string_bytes-Holds t src k) (append_string_len-Stores heap s t b h f)

-- ===== src/Buffer/Append.antt =====
-- Copying and appending: no access outside the allocation, and an abort exactly on overflow.
use lighttpd_multithread.Base.{
  ℕ, ◌+◌, ◌≤◌, ◌<◌, ◌≡◌, refl, ap, ◌∙◌, inl, inr, [], ◌∷◌, ◌++◌, append_assoc, append-nil, ltb, leb,
  ◌==◌, if◌then◌else◌, length, length-append, parts_at, Bool-cases, ltb→lt, ltb→ge, uncons, Outcome,
  ok, aborted, ◌>>=◌, arith,
}
use lighttpd_multithread.Base.Memory.{Bytes, size_mod, Allocator, memcpy, memcpy-append}
use lighttpd_multithread.Buffer.{
  Buffer, size, buffer_align_size, buffer_alloc, buffer_realloc, buffer_commit, end_of_string,
  buffer_string_prepare_copy, buffer_string_prepare_append, buffer_string_set_length,
  buffer_copy_string_len, buffer_append_string_len,
}
use lighttpd_multithread.Buffer.Holds.{
  IsString, Holds, buffer_align_size_bounds, size-IsString, buffer_commit_lem, Stores,
}

module _ (heap : Allocator) where
  buffer_alloc_bounds :
      (b : Buffer) (n : ℕ)
      → n < size_mod
      → size b < size_mod
      → (n ≤ size (buffer_alloc heap b n))
        × (0 < size (buffer_alloc heap b n))
        × (size (buffer_alloc heap b n) < size_mod)
  unfolding buffer_alloc
  buffer_alloc_bounds b n h f = ground (
    arith,
    buffer_align_size_bounds 1,
    buffer_align_size_bounds n,
    heap.length-malloc (buffer_align_size 1),
    heap.length-malloc (buffer_align_size n),
  )

  -- Room for `n` bytes and a terminator, over the empty string.
  pub prepare_copy_lem :
      (b : Buffer) (n : ℕ)
      → n + 1 < size_mod
      → size b < size_mod
      → (b' : Buffer) × (buffer_string_prepare_copy heap b n ≡ ok b')
        × IsString [] b'
        × (n + 1 ≤ size b')
  unfolding buffer_string_prepare_copy
  prepare_copy_lem b n h f =
      let bounds = buffer_alloc_bounds b (n + 1) h f in
      let (z, rest, e) = uncons (buffer_alloc heap b (n + 1)).ptr bounds.1 in
      let b' : Buffer = record { ptr = 0 ∷ rest; used = 1 } in
      (
        b',
        ground (arith, memcpy-append [] (z ∷ []) rest 0 (0 ∷ [])),
        record { spare = rest; ptr_is = refl; used_is = refl; fits = omega (arith, ap length e) },
        omega (arith, ap length e),
      )

  -- At the largest `size_t` there is no room for the terminator.
  pub prepare_copy_overflow :
      (b : Buffer) (n : ℕ) → n + 1 ≡ size_mod → buffer_string_prepare_copy heap b n ≡ aborted
  unfolding buffer_string_prepare_copy
  prepare_copy_overflow b n h = ground arith

  buffer_realloc_keeps :
      (b : Buffer) (n : ℕ)
      → 0 < n
      → n < size_mod
      → size b < size_mod
      → (more : Bytes) × (buffer_realloc heap b n ≡ record b { ptr = b.ptr ++ more })
        × (n ≤ size b + length more)
        × (size b + length more < size_mod)
  unfolding buffer_realloc
  buffer_realloc_keeps b n p h f = elim (Bool-cases (leb n (size b))) [
    | inl enough ↦
        ([], ground (arith, append-nil b.ptr), ground (arith, enough), ground (arith, enough))
    | inr grow ↦
        let (le, lt) = buffer_align_size_bounds n h in
        let (more, e, len) =
          heap.realloc_keeps b.ptr (buffer_align_size n) (ground (arith, grow, le)) in
        (more, ground arith, omega arith, omega arith)
  ]

  prepare_append_IsString :
      (s : Bytes) (b : Buffer) (n : ℕ)
      → IsString s b
      → length s + 1 + n < size_mod
      → (b' : Buffer) × (buffer_string_prepare_append heap b n ≡ ok b')
        × IsString s b'
        × (length s + 1 + n ≤ size b')
  unfolding buffer_string_prepare_append
  prepare_append_IsString [] b n i h =
      let (b', e, j, room) = prepare_copy_lem b n (omega arith) i.fits in
      (b', ground arith, j, omega arith)
  prepare_append_IsString (c ∷ s) b n i h =
      let n' = length (c ∷ s) + 1 + n in
      let (more, e, room, f) = buffer_realloc_keeps b n' (omega arith) h i.fits in
      let grown : Buffer = record b { ptr = b.ptr ++ more } in
      (
        grown,
        ground arith,
        record {
          spare = i.spare ++ more;
          ptr_is = rw i.ptr_is (append_assoc (c ∷ s) (0 ∷ i.spare) more);
          used_is = i.used_is;
          fits = omega (arith, length-append b.ptr more);
        },
        rw length-append room,
      )

  -- Room for `n` more bytes behind the string.
  pub prepare_append_lem :
      (s : Bytes) (b : Buffer) (n : ℕ)
      → Holds s b
      → length s + 1 + n < size_mod
      → (b' : Buffer) × (buffer_string_prepare_append heap b n ≡ ok b')
        × IsString s b'
        × (length s + 1 + n ≤ size b')
  prepare_append_lem s b n (inl i) h = prepare_append_IsString s b n i h
  prepare_append_lem s b n (inr (u, e)) h =
      let (b', c, j, room) = prepare_copy_lem b n (omega (arith, ap length e)) u.fits in
      (
        b',
        unfold buffer_string_prepare_append in ground (arith, u.unused),
        rw e j,
        omega (arith, ap length e),
      )

  pub prepare_append_overflow :
      (s : Bytes) (b : Buffer) (n : ℕ)
      → Holds s b
      → n < size_mod
      → size_mod ≤ length s + 1 + n
      → buffer_string_prepare_append heap b n ≡ aborted
  unfolding buffer_string_prepare_append
  prepare_append_overflow [] b n (inl i) f h = ground (arith, prepare_copy_overflow b n, i.used_is)
  prepare_append_overflow (c ∷ s) b n (inl i) f h = ground (arith, i.used_is)
  prepare_append_overflow s b n (inr (u, e)) f h =
      ground (arith, prepare_copy_overflow b n, u.unused, ap length e)

  -- `buffer_string_set_length` with 0 leaves the empty string.
  pub set_length_zero :
      (b : Buffer)
      → size b < size_mod
      → (b' : Buffer) × (buffer_string_set_length heap b 0 ≡ ok b') × IsString [] b'
  unfolding buffer_string_set_length
  set_length_zero b f =
      let (more, e, room, g) = buffer_realloc_keeps b 1 (omega arith) (omega arith) f in
      let (z, rest, c) = uncons (b.ptr ++ more) (omega (arith, length-append b.ptr more)) in
      (
        record { ptr = 0 ∷ rest; used = 1 },
        rw (e, c, memcpy-append [] (z ∷ []) rest 0 (0 ∷ []) refl refl) refl,
        record {
          spare = rest;
          ptr_is = refl;
          used_is = refl;
          fits = omega (arith, ap length c, length-append b.ptr more);
        },
      )

-- `memcpy` behind the string and `buffer_commit`.
abbrev fill : Buffer → Bytes → Outcome Buffer
fill b t = do p ← memcpy b.ptr (end_of_string b) t; buffer_commit (record b { ptr = p }) (length t)

fill_at :
    (s t front back : Bytes) (z : ℕ) (b : Buffer)
    → IsString s b
    → b.ptr ≡ s ++ (front ++ (z ∷ back))
    → length front ≡ length t
    → (b' : Buffer) × (fill b t ≡ ok b') × IsString (s ++ t) b'
fill_at s t front back z b i e f =
    let b' : Buffer = record { ptr = (s ++ t) ++ (0 ∷ back); used = length s + 1 + length t } in
    let copied : memcpy b.ptr (end_of_string b) t ≡ ok (s ++ (t ++ (z ∷ back))) =
      ap (λ p. memcpy p (end_of_string b) t) e
      ∙ memcpy-append s front (z ∷ back) (end_of_string b) t (omega (arith, i.used_is)) f in
    (
      b',
      rw copied (
          buffer_commit_lem (record { ptr = s ++ (t ++ (z ∷ back)); used = b.used }) s t z back refl
            i.used_is (omega (arith, length-append {0}, ap length e))),
      record {
        spare = back;
        ptr_is = refl;
        used_is = omega (arith, length-append {0});
        fits = omega (arith, length-append {0}, ap length e);
      },
    )

fill_lem :
    (s t : Bytes) (b : Buffer)
    → IsString s b
    → length s + 1 + length t ≤ size b
    → (b' : Buffer) × (fill b t ≡ ok b') × IsString (s ++ t) b'
fill_lem s t b i room =
    let c = parts_at (0 ∷ i.spare) (length t) (omega (arith, size-IsString i)) in
    fill_at s t c.front c.back c.here b i (i.ptr_is ∙ ap (◌++◌ s) c.cut) c.length-front

append_into :
    (s t : Bytes) (b : Buffer)
    → IsString s b
    → length s + 1 + length t ≤ size b
    → Stores (s ++ t) (if length t == 0 then ok b else fill b t)
append_into s [] b i room = inl (b, refl, rw append-nil i)
append_into s (c ∷ t) b i room =
    let (b', e, j) = fill_lem s (c ∷ t) b i room in inl (b', ground (arith, e), j)

copy_into :
    (t : Bytes) (b : Buffer)
    → IsString [] b
    → length t + 1 ≤ size b
    → Stores t (do
      p ← (if length t == 0 then ok b.ptr else memcpy b.ptr 0 t)
      buffer_commit (record b { ptr = p }) (length t))
copy_into [] b i room = inl (
  record { ptr = 0 ∷ i.spare; used = 1 },
  buffer_commit_lem b [] [] 0 i.spare i.ptr_is i.used_is i.fits,
  record { spare = i.spare; ptr_is = refl; used_is = refl; fits = omega (arith, size-IsString i) },
)
copy_into (c ∷ t) b i room =
    let (b', e, j) = fill_lem [] (c ∷ t) b i (omega arith) in
    inl (b', ground (arith, e, i.used_is), j)

module _ (heap : Allocator) where
  -- `buffer_append_string_len` keeps the string `s` and adds `t` behind it, without an access
  -- outside the allocation; it aborts exactly when the result does not fit in the address space.
  pub append_string_len-Stores :
      (s t : Bytes) (b : Buffer)
      → Holds s b
      → length t < size_mod
      → Stores (s ++ t) (buffer_append_string_len heap b t)
  unfolding buffer_append_string_len
  append_string_len-Stores s t b h f = elim (Bool-cases (ltb (length s + 1 + length t) size_mod)) [
    | inl fits ↦
        let (b', e, i, room) = prepare_append_lem heap s b (length t) h (ltb→lt _ _ fits) in
        rw e (append_into s t b' i room)
    | inr large ↦ inr (
      omega (arith, length-append {0}, ltb→ge _ _ large),
      rw (prepare_append_overflow heap s b (length t) h f (ltb→ge _ _ large)),
    )
  ]

  -- `buffer_copy_string_len` replaces whatever the buffer holds by the string `t`.
  pub copy_string_len-Stores :
      (t : Bytes) (b : Buffer)
      → size b < size_mod
      → length t < size_mod
      → Stores t (buffer_copy_string_len heap b t)
  unfolding buffer_copy_string_len
  copy_string_len-Stores t b g f = elim (Bool-cases (ltb (length t + 1) size_mod)) [
    | inl fits ↦
        let (b', e, i, room) = prepare_copy_lem heap b (length t) (ltb→lt _ _ fits) g in
        rw e (copy_into t b' i (omega arith))
    | inr large ↦ inr (
      ltb→ge _ _ large,
      rw (prepare_copy_overflow heap b (length t) (omega (arith, ltb→ge _ _ large))),
    )
  ]

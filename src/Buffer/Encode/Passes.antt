-- ===== src/Buffer/Encode/Passes.antt =====
-- The two passes agree: what is written fits exactly into the room that was counted.
use lighttpd_multithread.Base.{
  ℕ, ◌+◌, ◌%◌, ◌≤◌, ◌<◌, ◌≡◌, refl, sym, ap, ◌∙◌, inl, inr, [], ◌∷◌, ◌++◌, append_assoc, ltb, ◌==◌,
  length, length-append, take, drop, length-take, take-append-drop, parts_at, Outcome, ok,
  force_assert, ◌>>=◌, ◌>>◌, Bool-cases, ltb→lt, ltb→ge, arith, length-drop,
}
use lighttpd_multithread.Base.Memory.{Bytes, size_mod, Allocator, memcpy, memcpy-append}
use lighttpd_multithread.Base.Slots.{get_elem?-middle}
use lighttpd_multithread.Buffer.{Buffer, size, buffer_commit, end_of_string}
use lighttpd_multithread.Buffer.Holds.{IsString, Holds, Stores, size-IsString, buffer_commit_lem}
use lighttpd_multithread.Buffer.Append.{prepare_append_lem, prepare_append_overflow}
use lighttpd_multithread.Buffer.Encode.{
  Encoding, rel_uri, width_in, encode_char, escaped_width, escape_char, count_bytes, write_bytes,
  byte_at, append_in_two_passes, buffer_append_string_encoded, buffer_append_string_c_escaped,
}

-- The text that a map of characters to bytes makes of a string.
abbrev pub expanded : (ℕ → Bytes) → Bytes → Bytes
expanded bytes [] = []
expanded bytes (c ∷ s) = bytes c ++ expanded bytes s

module _ (width : ℕ → ℕ) (bytes : ℕ → Bytes) (agree : (c : ℕ) → width c ≡ length (bytes c)) where
  count_bytes-expanded :
      (s : Bytes) (d : ℕ)
      → d + length (expanded bytes s) < size_mod
      → count_bytes width s d ≡ d + length (expanded bytes s)
  unfolding count_bytes
  count_bytes-expanded [] d h = omega arith
  count_bytes-expanded (c ∷ s) d h =
      let n = length-append (bytes c) (expanded bytes s) in
      let e : (d + width c) % size_mod ≡ d + length (bytes c) = omega (arith, agree c, n) in
      rw e (omega (arith, n, count_bytes-expanded s (d + length (bytes c)) (omega (arith, n))))

  write_bytes-expanded :
      (s front gap back : Bytes) (d : ℕ)
      → d ≡ length front
      → length gap ≡ length (expanded bytes s)
      → write_bytes bytes s (front ++ (gap ++ back)) d ≡ ok (front ++ (expanded bytes s ++ back))
  unfolding write_bytes
  write_bytes-expanded [] front [] back d e f = refl
  write_bytes-expanded [] front (x ∷ gap) back d e f = absurd (omega arith)
  write_bytes-expanded (c ∷ s) front gap back d e f =
      let k = length (bytes c) in
      let n = length-append (bytes c) (expanded bytes s) in
      let rest = expanded bytes s ++ back in
      let parts : front ++ (gap ++ back) ≡ front ++ (take k gap ++ (drop k gap ++ back)) =
        ap (λ (l : Bytes). front ++ l)
          (ap (λ (l : Bytes). l ++ back) (sym (take-append-drop k gap))
            ∙ append_assoc (take k gap) (drop k gap) back) in
      let copied : memcpy (front ++ (gap ++ back)) d (bytes c)
          ≡ ok ((front ++ bytes c) ++ (drop k gap ++ back)) =
        ap (λ (l : Bytes). memcpy l d (bytes c)) parts
        ∙ memcpy-append front (take k gap) (drop k gap ++ back) d (bytes c) e
            (omega (arith, length-take k gap, n))
        ∙ ap ok (sym (append_assoc front (bytes c) (drop k gap ++ back))) in
      rw copied (
        write_bytes-expanded s (front ++ bytes c) (drop k gap) back (d + k)
          (omega (arith, length-append front (bytes c))) (omega (arith, length-drop k gap, n))
        ∙ ap ok (
            append_assoc front (bytes c) rest
            ∙ ap (λ (l : Bytes). front ++ l)
                (sym (append_assoc (bytes c) (expanded bytes s) back))))

  first_byte :
      (s front back rest : Bytes) (z : ℕ) (i : ℕ)
      → i ≡ length s
      → 0 ∷ rest ≡ front ++ (z ∷ back)
      → byte_at ((s ++ front) ++ (0 ∷ back)) i ≡ ok 0
  first_byte s [] back rest z i e f =
      ground (arith, append_assoc s [] (0 ∷ back), get_elem?-middle s 0 back i e)
  first_byte s (x ∷ front) back rest z i e f = ground (
    arith,
    f,
    append_assoc s (x ∷ front) (0 ∷ back),
    get_elem?-middle s x (front ++ (0 ∷ back)) i e,
  )

  module _ (heap : Allocator) where
    abbrev passes : Buffer → Bytes → ℕ → Outcome Buffer
    passes a t n = do
      b' ← buffer_commit a n
      first ← byte_at b'.ptr (end_of_string a)
      force_assert (first == 0)
      p ← write_bytes bytes t b'.ptr (end_of_string a)
      ok (record b' { ptr = p })

    passes_at :
        (s t : Bytes) (a : Buffer) (front back : Bytes) (z : ℕ)
        → IsString s a
        → a.ptr ≡ s ++ (front ++ (z ∷ back))
        → length front ≡ length (expanded bytes t)
        → byte_at ((s ++ front) ++ (0 ∷ back)) (end_of_string a) ≡ ok 0
        → (b : Buffer) × (passes a t (length (expanded bytes t)) ≡ ok b)
          × IsString (s ++ expanded bytes t) b
    passes_at s t a front back z i whole len first =
        let text = expanded bytes t in
        let b : Buffer = record {
          ptr = (s ++ text) ++ (0 ∷ back);
          used = length s + 1 + length text;
        } in
        let committed : buffer_commit a (length text)
            ≡ ok (record { ptr = (s ++ front) ++ (0 ∷ back); used = length s + 1 + length front }) =
          ap (buffer_commit a) (sym len)
          ∙ buffer_commit_lem a s front z back whole i.used_is i.fits in
        let written : write_bytes bytes t ((s ++ front) ++ (0 ∷ back)) (end_of_string a)
            ≡ ok ((s ++ text) ++ (0 ∷ back)) =
          ap (λ (l : Bytes). write_bytes bytes t l (end_of_string a))
            (append_assoc s front (0 ∷ back))
          ∙ write_bytes-expanded t s front (0 ∷ back) (end_of_string a) (omega (arith, i.used_is))
              len
          ∙ ap ok (sym (append_assoc s text (0 ∷ back))) in
        (
          b,
          rw (committed, first) (rw (written, len)),
          record {
            spare = back;
            ptr_is = refl;
            used_is = omega (arith, length-append {0});
            fits = omega (arith, length-append {0}, ap length whole, len, i.fits);
          },
        )

    -- With the room made, both passes together put the text behind the string.
    passes_fit :
        (s t : Bytes) (a : Buffer)
        → IsString s a
        → length s + 1 + length (expanded bytes t) ≤ size a
        → (b : Buffer) × (passes a t (length (expanded bytes t)) ≡ ok b)
          × IsString (s ++ expanded bytes t) b
    passes_fit s t a i room =
        let n = length (expanded bytes t) in
        let c = parts_at (0 ∷ i.spare) n (omega (arith, size-IsString i)) in
        let at : end_of_string a ≡ length s = omega (arith, i.used_is) in
        let whole : a.ptr ≡ s ++ (c.front ++ (c.here ∷ c.back)) =
          i.ptr_is ∙ ap (λ (l : Bytes). s ++ l) c.cut in
        passes_at s t a c.front c.back c.here i whole c.length-front
          (first_byte s c.front c.back i.spare c.here (end_of_string a) at c.cut)

    -- Both functions put the text that the characters of `c ∷ t` expand to behind the string, in the
    -- room that was counted, and abort exactly when the result does not fit in the address space.
    pub two_passes-Stores :
        (s : Bytes) (c : ℕ) (t : Bytes) (b : Buffer)
        → Holds s b
        → length (expanded bytes (c ∷ t)) < size_mod
        → Stores (s ++ expanded bytes (c ∷ t)) (append_in_two_passes heap width bytes b (c ∷ t))
    unfolding append_in_two_passes
    two_passes-Stores s c t b h f =
        let n = length (expanded bytes (c ∷ t)) in
        let counted = count_bytes-expanded (c ∷ t) 0 (omega arith) in
        let counted' : count_bytes width (c ∷ t) 0 ≡ n = omega (arith, counted) in
        elim (Bool-cases (ltb (length s + 1 + n) size_mod)) [
          | inl fits ↦
              let (a, e, i, room) = prepare_append_lem heap s b n h (ltb→lt _ _ fits) in
              let (b', e', i') = passes_fit s (c ∷ t) a i room in inl (b', rw (counted', e) e', i')
          | inr large ↦ inr (
            omega (arith, length-append s (expanded bytes (c ∷ t)), ltb→ge _ _ large),
            rw (counted', prepare_append_overflow heap s b n h f (ltb→ge _ _ large)),
          )
        ]

width_in-agrees :
    (encoding : Encoding) (c : ℕ) → width_in encoding c ≡ length (encode_char encoding c)
unfolding width_in encode_char
width_in-agrees rel_uri c = ground arith
width_in-agrees _ c = ground arith

escaped_width-agrees : (c : ℕ) → escaped_width c ≡ length (escape_char c)
unfolding escaped_width escape_char
escaped_width-agrees c = ground arith

module _ (heap : Allocator) where
  -- `buffer_append_string_encoded` puts the encoded text behind the string of the buffer, for every
  -- encoding: the first pass counts exactly the bytes that the second writes, nothing outside the
  -- allocation is touched, and the call aborts exactly when the result does not fit in the address
  -- space. (The empty text leaves the buffer as it is; the encoded text itself is shorter than 2 ^ 64.)
  pub append_string_encoded-Stores :
      (encoding : Encoding) (s : Bytes) (c : ℕ) (t : Bytes) (b : Buffer)
      → Holds s b
      → length (expanded (encode_char encoding) (c ∷ t)) < size_mod
      → Stores
          (s ++ expanded (encode_char encoding) (c ∷ t))
          (buffer_append_string_encoded heap b (c ∷ t) encoding)
  unfolding buffer_append_string_encoded
  append_string_encoded-Stores encoding s c t b h f =
      two_passes-Stores (width_in encoding) (encode_char encoding) (width_in-agrees encoding) heap s
        c t b h f

  -- The same for `buffer_append_string_c_escaped`.
  pub append_string_c_escaped-Stores :
      (s : Bytes) (c : ℕ) (t : Bytes) (b : Buffer)
      → Holds s b
      → length (expanded escape_char (c ∷ t)) < size_mod
      → Stores (s ++ expanded escape_char (c ∷ t)) (buffer_append_string_c_escaped heap b (c ∷ t))
  unfolding buffer_append_string_c_escaped
  append_string_c_escaped-Stores s c t b h f =
      two_passes-Stores escaped_width escape_char escaped_width-agrees heap s c t b h f

-- ===== src/Buffer/Url/Steps.antt =====
-- The steps of decoding in place, and of decoding a string.
use lighttpd_multithread.Base.{
  ℕ, suc, ◌+◌, ◌≡◌, refl, sym, ap, ◌∙◌, Bool, true, false, ◌&&◌, [], ◌∷◌, ◌++◌, append_assoc, ◌==◌,
  length, length-append, ok, arith,
}
use lighttpd_multithread.Base.Memory.{Bytes, memcpy, memcpy-append}
use lighttpd_multithread.Base.Slots.{get_elem?-middle}
use lighttpd_multithread.Buffer.Hex.{hex2int}
use lighttpd_multithread.Buffer.Encode.{byte_at}
use lighttpd_multithread.Buffer.Url.{decoded_byte, decode_in_place}
use lighttpd_multithread.Buffer.Url.Decode.{urldecode, urldecode-cons, two_chars, is_hex}

-- The memory: what is written, what lies between, and what is to be read.
abbrev pub memory : Bytes → Bytes → Bytes → Bytes
memory out gap rest = out ++ (gap ++ rest)

pub read_next :
    (out gap : Bytes) (c : ℕ) (rest : Bytes) (src : ℕ)
    → src ≡ length out + length gap
    → byte_at (memory out gap (c ∷ rest)) src ≡ ok c
read_next out gap c rest src e = ground (
  arith,
  sym (append_assoc out gap (c ∷ rest)),
  get_elem?-middle (out ++ gap) c rest src (omega (arith, length-append out gap)),
)

-- The byte that a write replaces is the first of the gap, or the one just read.
first_free :
    (gap : Bytes) (c : ℕ) (rest : Bytes)
    → (x : ℕ) × (gap' : Bytes) × (gap ++ (c ∷ rest) ≡ x ∷ (gap' ++ rest))
      × (length gap' ≡ length gap)
first_free [] c rest = (c, [], refl, refl)
first_free (x ∷ gap) c rest = (
  x,
  gap ++ (c ∷ []),
  ap (◌∷◌ x) (sym (append_assoc gap (c ∷ []) rest)),
  omega (arith, length-append gap (c ∷ [])),
)

-- One byte is read and one written.
pub write_next :
    (out gap : Bytes) (c : ℕ) (rest : Bytes) (v dst : ℕ)
    → dst ≡ length out
    → (gap' : Bytes) × (memcpy (memory out gap (c ∷ rest)) dst (v ∷ [])
        ≡ ok (memory (out ++ (v ∷ [])) gap' rest))
      × (length gap' ≡ length gap)
write_next out gap c rest v dst e =
    let (x, gap', f, n) = first_free gap c rest in
    (
      gap',
      ap (λ (l : Bytes). memcpy (out ++ l) dst (v ∷ [])) f
          ∙ memcpy-append out (x ∷ []) (gap' ++ rest) dst (v ∷ []) e refl
          ∙ ap ok (sym (append_assoc out (v ∷ []) (gap' ++ rest))),
      n,
    )

module _ (q : Bool) (fuel : ℕ) (mem p : Bytes) (src dst c d : ℕ) where
  pub end_step :
      byte_at mem src ≡ ok c
      → (c == 0) ≡ true
      → decode_in_place q (suc fuel) mem src dst ≡ ok (mem, dst)
  unfolding decode_in_place
  end_step r z = rw (r, z) refl

  module _ (r : byte_at mem src ≡ ok c) (z : (c == 0) ≡ false) where
    pub plus_step :
        (q && c == b'+') ≡ true
        → memcpy mem dst (b' ' ∷ []) ≡ ok p
        → decode_in_place q (suc fuel) mem src dst ≡ decode_in_place q fuel p (src + 1) (dst + 1)
    unfolding decode_in_place
    plus_step x w = rw (r, z, x, w) refl

    pub plain_step :
        (q && c == b'+') ≡ false
        → (c == b'%') ≡ false
        → memcpy mem dst (c ∷ []) ≡ ok p
        → decode_in_place q (suc fuel) mem src dst ≡ decode_in_place q fuel p (src + 1) (dst + 1)
    unfolding decode_in_place
    plain_step x y w = rw (r, z, x, y, w) refl

    module _ (x : (q && c == b'+') ≡ false) (y : (c == b'%') ≡ true)
        (w : memcpy mem dst (b'%' ∷ []) ≡ ok p) (f : byte_at p (src + 1) ≡ ok d) where
      pub alone_step :
          (hex2int d == 0xff) ≡ true
          → decode_in_place q (suc fuel) mem src dst ≡ decode_in_place q fuel p (src + 1) (dst + 1)
      unfolding decode_in_place
      alone_step h = rw (r, z, x, y, w, f, h) refl

      pub broken_step :
          (e : ℕ)
          → (hex2int d == 0xff) ≡ false
          → byte_at p (src + 2) ≡ ok e
          → (hex2int e == 0xff) ≡ true
          → decode_in_place q (suc fuel) mem src dst ≡ decode_in_place q fuel p (src + 1) (dst + 1)
      unfolding decode_in_place
      broken_step e h g k = rw (r, z, x, y, w, f, h, g, k) refl

      pub pair_step :
          (e : ℕ) (p' : Bytes)
          → (hex2int d == 0xff) ≡ false
          → byte_at p (src + 2) ≡ ok e
          → (hex2int e == 0xff) ≡ false
          → memcpy p dst (decoded_byte (hex2int d) (hex2int e) ∷ []) ≡ ok p'
          → decode_in_place q (suc fuel) mem src dst ≡ decode_in_place q fuel p' (src + 3) (dst + 1)
      unfolding decode_in_place
      pair_step e p' h g k v = rw (r, z, x, y, w, f, h, g, k, v) refl

module _ (q : Bool) (c : ℕ) where
  pub decode_end : (s : Bytes) → (c == 0) ≡ true → urldecode q (c ∷ s) ≡ []
  decode_end [] z = unfold urldecode in rw z refl
  decode_end (d ∷ []) z = rw (two_chars q c d, z) refl
  decode_end (d ∷ e ∷ s) z = rw (urldecode-cons q c d e s, z) refl

  module _ (z : (c == 0) ≡ false) where
    pub decode_plus :
        (s : Bytes) → (q && c == b'+') ≡ true → urldecode q (c ∷ s) ≡ b' ' ∷ urldecode q s
    decode_plus [] x = unfold urldecode in rw (z, x) refl
    decode_plus (d ∷ []) x = rw (two_chars q c d, z, x) refl
    decode_plus (d ∷ e ∷ s) x = rw (urldecode-cons q c d e s, z, x) refl

    pub decode_other :
        (s : Bytes)
        → (q && c == b'+') ≡ false
        → (c == b'%') ≡ false
        → urldecode q (c ∷ s) ≡ c ∷ urldecode q s
    decode_other [] x y = unfold urldecode in rw (z, x) refl
    decode_other (d ∷ []) x y = rw (two_chars q c d, z, x) refl
    decode_other (d ∷ e ∷ s) x y = rw (urldecode-cons q c d e s, z, x, y) refl

    module _ (x : (q && c == b'+') ≡ false) (y : (c == b'%') ≡ true) where
      pub decode_last : urldecode q (c ∷ []) ≡ c ∷ urldecode q []
      decode_last = unfold urldecode in rw (z, x) refl

      pub decode_last_but_one : (d : ℕ) → urldecode q (c ∷ d ∷ []) ≡ c ∷ urldecode q (d ∷ [])
      decode_last_but_one d = rw (two_chars q c d, z, x) refl

      pub decode_broken :
          (d e : ℕ) (s : Bytes)
          → (is_hex d && is_hex e) ≡ false
          → urldecode q (c ∷ d ∷ e ∷ s) ≡ c ∷ urldecode q (d ∷ e ∷ s)
      decode_broken d e s h = rw (urldecode-cons q c d e s, z, x, y, h) refl

      pub decode_pair :
          (d e : ℕ) (s : Bytes)
          → (is_hex d && is_hex e) ≡ true
          → urldecode q (c ∷ d ∷ e ∷ s) ≡ decoded_byte (hex2int d) (hex2int e) ∷ urldecode q s
      decode_pair d e s h = rw (urldecode-cons q c d e s, z, x, y, h) refl

-- ===== src/Buffer/Url/Internal.antt =====
-- buffer.c: `buffer_urldecode_internal` decodes the string that a buffer holds.
use lighttpd_multithread.Base.{
  ℕ, zero, suc, ◌+◌, ◌-◌, ◌<◌, ◌≡◌, refl, sym, ap, ◌∙◌, inl, inr, Bool, true, false, ◌&&◌, ◌||◌, [],
  ◌∷◌, ◌++◌, append_assoc, ◌==◌, length, length-append, uncons, Outcome, ok, Bool-cases, arith,
}
use lighttpd_multithread.Base.Memory.{Bytes, memcpy, memcpy-append}
use lighttpd_multithread.Buffer.{Buffer, buffer_string_is_empty}
use lighttpd_multithread.Buffer.Holds.{IsString, size-IsString}
use lighttpd_multithread.Buffer.Encode.{byte_at}
use lighttpd_multithread.Buffer.Url.{
  decode_in_place, skip_plain, buffer_urldecode_internal, buffer_urldecode_path,
}
use lighttpd_multithread.Buffer.Url.Decode.{urldecode}
use lighttpd_multithread.Buffer.Url.Steps.{read_next, decode_plus, decode_other}
use lighttpd_multithread.Buffer.Url.InPlace.{decode_in_place-Decodes}

module _ (q : Bool) (fuel : ℕ) (mem : Bytes) (src c : ℕ) (r : byte_at mem src ≡ ok c) where
  skip_stop : (c == 0 || c == b'%') ≡ true → skip_plain q (suc fuel) mem src ≡ ok (mem, src)
  unfolding skip_plain
  skip_stop z = rw (r, z) refl

  skip_plus :
      (p : Bytes)
      → (c == 0 || c == b'%') ≡ false
      → (q && c == b'+') ≡ true
      → memcpy mem src (b' ' ∷ []) ≡ ok p
      → skip_plain q (suc fuel) mem src ≡ skip_plain q fuel p (src + 1)
  unfolding skip_plain
  skip_plus p z x w = rw (r, z, x, w) refl

  skip_other :
      (c == 0 || c == b'%') ≡ false
      → (q && c == b'+') ≡ false
      → skip_plain q (suc fuel) mem src ≡ skip_plain q fuel mem (src + 1)
  unfolding skip_plain
  skip_other z x = rw (r, z, x) refl

-- A decoded front stands in its place, and the rest of the string is as it was.
abbrev Skips : Bool → Bytes → Bytes → Bytes → Outcome (Bytes × ℕ) → Type 0
Skips q out s spare o =
    (front : Bytes) × (rest : Bytes) × (o
      ≡ ok (out ++ (front ++ (rest ++ (0 ∷ spare))), length out + length front))
    × (urldecode q s ≡ front ++ urldecode q rest)
    × (length front + length rest ≡ length s)

stop-Skips :
    (q : Bool) (out s spare : Bytes) (src : ℕ) (o : Outcome (Bytes × ℕ))
    → src ≡ length out
    → o ≡ ok (out ++ (s ++ (0 ∷ spare)), src)
    → Skips q out s spare o
stop-Skips q out s spare src o e f =
    ([], s, f ∙ ap (λ (k : ℕ). ok (out ++ (s ++ (0 ∷ spare)), k)) (omega arith), refl, omega arith)

extend-Skips :
    (q : Bool) (out : Bytes) (v c : ℕ) (s spare : Bytes) (o o' : Outcome (Bytes × ℕ))
    → Skips q (out ++ (v ∷ [])) s spare o
    → urldecode q (c ∷ s) ≡ v ∷ urldecode q s
    → o' ≡ o
    → Skips q out (c ∷ s) spare o'
extend-Skips q out v c s spare o o' (front, rest, e, d, l) f g =
    let a = append_assoc out (v ∷ []) (front ++ (rest ++ (0 ∷ spare))) in
    let x : length (out ++ (v ∷ [])) + length front ≡ length out + length (v ∷ front) =
      omega (arith, length-append out (v ∷ [])) in
    (v ∷ front, rest, g ∙ e ∙ rw (a, x) refl, f ∙ ap (◌∷◌ v) d, omega arith)

skip_plain-Skips :
    (q : Bool) (fuel : ℕ) (out s spare : Bytes) (src : ℕ)
    → length s < fuel
    → src ≡ length out
    → Skips q out s spare (skip_plain q fuel (out ++ (s ++ (0 ∷ spare))) src)
skip_plain-Skips q zero out s spare src h e = absurd (omega arith)
skip_plain-Skips q (suc fuel) out [] spare src h e =
    let r = read_next out [] 0 spare src (omega arith) in
    stop-Skips q out [] spare src _ e (skip_stop q fuel _ src 0 r refl)
skip_plain-Skips q (suc fuel) out (c ∷ s) spare src h e =
    let rest = s ++ (0 ∷ spare) in
    let r = read_next out [] c rest src (omega arith) in
    let next = λ (v : ℕ).
      skip_plain-Skips q fuel (out ++ (v ∷ [])) s spare (src + 1) (omega arith)
        (omega (arith, length-append out (v ∷ []))) in
    elim (Bool-cases (c == 0 || c == b'%')) [
      | inl z ↦ stop-Skips q out (c ∷ s) spare src _ e (skip_stop q fuel _ src c r z)
      | inr z ↦
          let nonzero : (c == 0) ≡ false = ground (arith, z) in
          let no_percent : (c == b'%') ≡ false = ground (arith, z) in
          elim (Bool-cases (q && c == b'+')) [
            | inl x ↦
                let w =
                  memcpy-append out (c ∷ []) rest src (b' ' ∷ []) e refl
                  ∙ ap ok (sym (append_assoc out (b' ' ∷ []) rest)) in
                extend-Skips q out b' ' c s spare _ _ (next b' ') (decode_plus q c nonzero s x)
                  (skip_plus q fuel _ src c r _ z x w)
            | inr x ↦
                extend-Skips q out c c s spare _ _ (next c)
                  (decode_other q c nonzero s x no_percent)
                  (skip_other q fuel _ src c r z x
                    ∙ ap (λ (l : Bytes). skip_plain q fuel l (src + 1))
                        (sym (append_assoc out (c ∷ []) rest)))
          ]
    ]

-- The calls of the routine, one by one.
internal_calls :
    (q : Bool) (b : Buffer) (m m' p : Bytes) (src dst : ℕ)
    → buffer_string_is_empty b ≡ false
    → byte_at b.ptr (b.used - 1) ≡ ok 0
    → skip_plain q b.used b.ptr 0 ≡ ok (m, src)
    → decode_in_place q b.used m src src ≡ ok (m', dst)
    → memcpy m' dst (0 ∷ []) ≡ ok p
    → buffer_urldecode_internal b q ≡ ok (record { ptr = p; used = dst + 1 })
unfolding buffer_urldecode_internal
internal_calls q b m m' p src dst e f g h k = rw (e, f, g, h, k) refl

-- The end of the second loop, and the terminator behind what it wrote.
abbrev Terminates : Bytes → Bytes → ℕ → Bytes → ℕ → Type 0
Terminates out decoded n m dst =
    (back : Bytes) × (memcpy m dst (0 ∷ []) ≡ ok ((out ++ decoded) ++ (0 ∷ back)))
    × (dst ≡ length out + length decoded)
    × (length decoded + length back + 1 ≡ n)

terminate :
    (out decoded tail : Bytes) (n : ℕ)
    → 0 < length tail
    → length decoded + length tail ≡ n
    → Terminates out decoded n (out ++ (decoded ++ tail)) (length out + length decoded)
terminate out decoded tail n p l =
    let (x, back, t) = uncons tail p in
    let a = append_assoc out decoded (x ∷ back) in
    let dst = length out + length decoded in
    (
      back,
      rw (t, sym a)
          (memcpy-append (out ++ decoded) (x ∷ []) back dst (0 ∷ [])
            (omega (arith, length-append out decoded)) refl),
      refl,
      omega (arith, ap length t),
    )

decoded-IsString :
    (s front decoded back : Bytes) (b : Buffer) (i : IsString s b) (u : Bytes) (rest_length dst : ℕ)
    → u ≡ front ++ decoded
    → length front + rest_length ≡ length s
    → dst ≡ length front + length decoded
    → length decoded + length back + 1 ≡ 0 + rest_length + 1 + length i.spare
    → IsString u (record { ptr = (front ++ decoded) ++ (0 ∷ back); used = dst + 1 })
decoded-IsString s front decoded back b i u k dst e l f g =
    let n = length-append front decoded in
    record {
      spare = back;
      ptr_is = ap (λ (w : Bytes). w ++ (0 ∷ back)) (sym e);
      used_is = omega (arith, ap length e, n);
      fits = omega (arith, n, length-append (front ++ decoded) (0 ∷ back), size-IsString i, i.fits);
    }

not_empty : (b : Buffer) → 1 < b.used → buffer_string_is_empty b ≡ false
unfolding buffer_string_is_empty
not_empty b h = ground arith

long_string :
    (q : Bool) (s : Bytes) (b : Buffer) (i : IsString s b)
    → 0 < length s
    → (b' : Buffer) × (buffer_urldecode_internal b q ≡ ok b') × IsString (urldecode q s) b'
long_string q s b i h =
    let (front, rest, e, d, l) =
      skip_plain-Skips q b.used [] s i.spare 0 (omega (arith, i.used_is)) refl in
    let src = length {A = ℕ} [] + length front in
    let (tail, e', p, l') =
      decode_in_place-Decodes q b.used front [] rest i.spare src src _ (omega (arith, i.used_is))
        (omega arith) (omega arith) refl in
    let (back, w, f, n) = terminate front (urldecode q rest) tail _ p l' in
    let last = read_next s [] 0 i.spare (b.used - 1) (omega (arith, i.used_is)) in
    (
      _,
      internal_calls q b _ _ _ src _ (not_empty b (omega (arith, i.used_is))) (rw i.ptr_is last)
          (rw i.ptr_is e) e' w,
      decoded-IsString s front (urldecode q rest) back b i (urldecode q s) (length rest) _ d l f n,
    )

-- `buffer_urldecode_internal` on a buffer that holds a string always returns, and the buffer then
-- holds the decoded string: the writes never overtake the reads, and nothing outside the
-- allocation is touched.
pub buffer_urldecode_internal-IsString :
    (q : Bool) (s : Bytes) (b : Buffer)
    → IsString s b
    → (b' : Buffer) × (buffer_urldecode_internal b q ≡ ok b') × IsString (urldecode q s) b'
unfolding buffer_urldecode_internal buffer_string_is_empty
buffer_urldecode_internal-IsString q [] b i =
    let empty : urldecode q [] ≡ [] = unfold urldecode in refl in
    (b, ground (arith, i.used_is), rw empty i)
buffer_urldecode_internal-IsString q (c ∷ s) b i = long_string q (c ∷ s) b i (omega arith)

-- A path keeps its '+'.
pub buffer_urldecode_path-IsString :
    (s : Bytes) (b : Buffer)
    → IsString s b
    → (b' : Buffer) × (buffer_urldecode_path b ≡ ok b') × IsString (urldecode false s) b'
unfolding buffer_urldecode_path
buffer_urldecode_path-IsString s b i = buffer_urldecode_internal-IsString false s b i

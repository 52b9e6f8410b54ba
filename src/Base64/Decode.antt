-- ===== src/Base64/Decode.antt =====
-- base64.c: the text of a byte string is decoded to the byte string.
use lighttpd_multithread.Base.{
  ℕ, ◌+◌, ◌-◌, ◌*◌, ◌/◌, ◌≤◌, ◌<◌, ◌≡◌, refl, sym, ap, ◌∙◌, Bool, true, false, [], ◌∷◌, ◌++◌,
  append_assoc, append-nil, length, if◌then◌else◌, length-append, Outcome, ok, ◌>>=◌, arith,
}
use mathlib.Core.Path.{subst}
use lighttpd_multithread.Base.Memory.{Bytes, size_mod, Allocator}
use lighttpd_multithread.Buffer.{Buffer, buffer_commit, end_of_string}
use lighttpd_multithread.Buffer.Append.{prepare_append_lem}
use lighttpd_multithread.Buffer.Holds.{IsString, Holds, size-IsString, buffer_commit_lem}
use lighttpd_multithread.Base64.{
  Charset, last_digits, Decoding, decode_chars, last_group, buffer_append_base64_decode,
}
use lighttpd_multithread.Base64.Digits.{text, AreBytes}
use lighttpd_multithread.Base64.Groups.{
  at_group, byte_between, decode_tuple, decode_pair, decode_triple, padding_ends,
}

-- The state after the text of `s`: its bytes stand in the memory, and the last group is good.
record IsDecoded (start pos : ℕ) (front s : Bytes) (size : ℕ) (d : Decoding) : Type 0 where
  next : ℕ
  more : Bytes
  result_is : d.result ≡ (front ++ s) ++ (next ∷ more)
  out_pos_is : d.out_pos ≡ pos + length s
  good : last_group start d ≡ ok true
  length-result : length d.result ≡ size

decode_text :
    (charset : Charset) (start pos : ℕ) (front s back : Bytes)
    → AreBytes s
    → start + pos ≡ length front
    → length s < length back
    → (d : Decoding) × (decode_chars charset start (at_group (front ++ back) pos 0) (text charset s)
        ≡ ok (d, true))
      × IsDecoded start pos front s (length (front ++ back)) d
unfolding decode_chars last_group text
decode_text charset start pos front [] [] v e h = absurd (omega (arith, h))
decode_text charset start pos front [] (x ∷ back) v e h = (
  at_group (front ++ (x ∷ back)) pos 0,
  refl,
  record {
    next = x;
    more = back;
    result_is = rw (append-nil front) refl;
    out_pos_is = omega arith;
    good = refl;
    length-result = refl;
  },
)
decode_text charset start pos front (a ∷ []) (x ∷ y ∷ back) v e h = (
  at_group (front ++ (a ∷ 0 ∷ back)) (pos + 1) 2,
  decode_pair charset start pos a x y front back
        ((last_digits charset).2 ∷ (last_digits charset).2 ∷ []) e v.0
      ∙ padding_ends charset start (at_group (front ++ (a ∷ 0 ∷ back)) (pos + 1) 2)
          ((last_digits charset).2 ∷ []) refl,
  record {
    next = 0;
    more = back;
    result_is = sym (append_assoc front (a ∷ []) (0 ∷ back));
    out_pos_is = omega arith;
    good = rw (byte_between front (a ∷ []) 0 back (start + (pos + 1)) (omega (arith, e))) refl;
    length-result = omega (arith, length-append {0});
  },
)
decode_text charset start pos front (a ∷ b ∷ []) (x ∷ y ∷ z ∷ back) v e h = (
  at_group (front ++ (a ∷ b ∷ 0 ∷ back)) (pos + 1 + 1) 3,
  decode_triple charset start pos a b x y z front back ((last_digits charset).2 ∷ []) e v.0 v.1.0
      ∙ padding_ends charset start (at_group (front ++ (a ∷ b ∷ 0 ∷ back)) (pos + 1 + 1) 3) [] refl,
  record {
    next = 0;
    more = back;
    result_is = sym (append_assoc front (a ∷ b ∷ []) (0 ∷ back));
    out_pos_is = omega arith;
    good =
        rw (byte_between front (a ∷ b ∷ []) 0 back (start + (pos + 1 + 1)) (omega (arith, e))) refl;
    length-result = omega (arith, length-append {0});
  },
)
decode_text charset start pos front (a ∷ b ∷ c ∷ s) (x ∷ y ∷ z ∷ back) v e h =
    let again : front ++ (a ∷ b ∷ c ∷ back) ≡ (front ++ (a ∷ b ∷ c ∷ [])) ++ back =
      sym (append_assoc front (a ∷ b ∷ c ∷ []) back) in
    let (d, f, i) =
      decode_text charset start (pos + 1 + 1 + 1) (front ++ (a ∷ b ∷ c ∷ [])) s back v.1.1.1
        (omega (arith, e, length-append front (a ∷ b ∷ c ∷ []))) (omega (arith, h)) in
    (
      d,
      decode_tuple charset start pos a b c x y z front back (text charset s) e v.0 v.1.0 v.1.1.0
          ∙ ap (λ m. decode_chars charset start (at_group m (pos + 1 + 1 + 1) 0) (text charset s))
              again
          ∙ f,
      record {
        next = i.next;
        more = i.more;
        result_is =
            i.result_is ∙ ap (λ m. m ++ (i.next ∷ i.more)) (append_assoc front (a ∷ b ∷ c ∷ []) s);
        out_pos_is = omega (arith, i.out_pos_is);
        good = i.good;
        length-result = omega (arith, i.length-result, length-append {0});
      },
    )
decode_text charset start pos front (a ∷ s) [] v e h = absurd (omega (arith, h))
decode_text charset start pos front (a ∷ s) (x ∷ []) v e h = absurd (omega (arith, h))
decode_text charset start pos front (a ∷ b ∷ s) (x ∷ y ∷ []) v e h = absurd (omega (arith, h))

pub length-text :
    (charset : Charset) (s : Bytes) → length (text charset s) ≡ 4 * ((length s + 2) / 3)
unfolding text
length-text charset [] = omega arith
length-text charset (a ∷ []) = omega arith
length-text charset (a ∷ b ∷ []) = omega arith
length-text charset (a ∷ b ∷ c ∷ s) = omega (arith, length-text charset s)

zero_add : (n : ℕ) → 0 + n ≡ n
zero_add n = omega arith

-- `buffer_append_base64_decode` where the room is there.
abbrev decode_into : Buffer → Bytes → Charset → Outcome (Buffer × Bool)
decode_into b input charset = do
  let start = end_of_string b
  (d, going) ← decode_chars charset start (record { result = b.ptr; out_pos = 0; group = 0 }) input
  good ← (if going then last_group start d else ok false)
  let b' = record b { ptr = d.result }
  let commit = do c ← buffer_commit b' d.out_pos; ok (c, true)
  if good then commit else ok (b', false)

abbrev Decodes : Bytes → Outcome (Buffer × Bool) → Type 0
Decodes s o = (r : Buffer) × (o ≡ ok (r, true)) × IsString s r

decode_into-Decodes :
    (charset : Charset) (u s spare : Bytes)
    → AreBytes s
    → length s ≤ length spare
    → length (u ++ (0 ∷ spare)) < size_mod
    → Decodes (u ++ s) (
        decode_into
          (record { ptr = u ++ (0 ∷ spare); used = length u + 1 })
          (text charset s)
          charset)
decode_into-Decodes charset u s spare v room fits =
    let at_start : length u + 1 - 1 + 0 ≡ length u = omega arith in
    let (d, f, k) =
      decode_text charset (length u + 1 - 1) 0 u s (0 ∷ spare) v at_start (omega (arith, room)) in
    let decoded = k.result_is ∙ append_assoc u s (k.next ∷ k.more) in
    let committed =
      ap (buffer_commit (record { ptr = d.result; used = length u + 1 }))
        (k.out_pos_is ∙ zero_add (length s))
      ∙ buffer_commit_lem (record { ptr = d.result; used = length u + 1 }) u s k.next k.more decoded
          refl (omega (arith, k.length-result, fits)) in
    (
      record { ptr = (u ++ s) ++ (0 ∷ k.more); used = length u + 1 + length s },
      rw (f, k.good, committed) refl,
      record {
        spare = k.more;
        ptr_is = refl;
        used_is = omega (arith, length-append u s);
        fits = omega (
          arith,
          k.length-result,
          fits,
          ap length k.result_is,
          length-append (u ++ s) (0 ∷ k.more),
          length-append (u ++ s) (k.next ∷ k.more),
        );
      },
    )

-- For a byte string `s` and a buffer that holds `u`, buffer_append_base64_decode appends `s` where it
-- is given the base64 text of `s`, in either alphabet, unless the room for it would not fit in the
-- address space: it returns, and does not say that the text is bad.
pub decode_text-IsString :
    (heap : Allocator) (b : Buffer) (u s : Bytes) (charset : Charset)
    → Holds u b
    → AreBytes s
    → length u + 4 + 3 * (length (text charset s) / 4) < size_mod
    → (r : Buffer) × (buffer_append_base64_decode heap b (text charset s) charset ≡ ok (r, true))
      × IsString (u ++ s) r
unfolding buffer_append_base64_decode
decode_text-IsString heap b u s charset h v fits =
    let input = text charset s in
    let n = 3 * (length input / 4) + 3 in
    let (b', e, i, room) = prepare_append_lem heap u b n h (omega (arith, fits)) in
    let ready : Buffer = record { ptr = u ++ (0 ∷ i.spare); used = length u + 1 } in
    let same : ready ≡ b' = λ j. record { ptr = sym i.ptr_is j; used = sym i.used_is j } in
    rw e (
      subst (λ x. Decodes (u ++ s) (decode_into x input charset)) same
        (decode_into-Decodes charset u s i.spare v
          (omega (arith, room, size-IsString i, length-text charset s))
          (omega (arith, i.fits, ap length i.ptr_is))))

-- ===== src/Base64/Encode.antt =====
-- base64.c: a byte string is appended to a buffer as its text.
use lighttpd_multithread.Base.{
  ℕ, suc, ◌+◌, ◌-◌, ◌*◌, ◌/◌, ◌%◌, ◌≤◌, ◌<◌, ◌≡◌, refl, sym, ap, ◌∙◌, ◌∷◌, ◌++◌, append_assoc,
  length, length-append, length-replicate, take, drop, take-append-drop, length-take, length-drop,
  parts_at, Outcome, ok, ◌>>=◌, arith,
}
use mathlib.Core.Path.{subst}
use lighttpd_multithread.Base.Memory.{Bytes, size_mod, Allocator}
use lighttpd_multithread.Buffer.{Buffer, buffer_commit, end_of_string}
use lighttpd_multithread.Buffer.Append.{prepare_append_lem}
use lighttpd_multithread.Buffer.Holds.{IsString, Holds, size-IsString, buffer_commit_lem}
use lighttpd_multithread.Base64.{Charset, last_digits, li_to_base64, buffer_append_base64_encode}
use lighttpd_multithread.Base64.Digits.{text, AreBytes}
use lighttpd_multithread.Base64.Tuples.{
  digits, padding_length, length-digits, both_small, text-digits, padding, padded_lem,
}

-- `buffer_append_base64_encode` where the room is there.
abbrev encode_into : Buffer → ℕ → Bytes → Charset → Outcome Buffer
encode_into b reserve input charset = do
  (p, n) ← li_to_base64 b.ptr (end_of_string b) reserve input charset
  buffer_commit (record b { ptr = p }) n

abbrev Encodes : Bytes → Outcome Buffer → Type 0
Encodes s o = (r : Buffer) × (o ≡ ok r) × IsString s r

encode_into-Encodes :
    (charset : Charset) (u input spare : Bytes)
    → AreBytes input
    → 4 * (length input / 3) + 4 ≤ length spare
    → length (u ++ (0 ∷ spare)) < size_mod
    → Encodes (u ++ text charset input) (
        encode_into
          (record { ptr = u ++ (0 ∷ spare); used = length u + 1 })
          (4 * (length input / 3) + 4)
          input
          charset)
encode_into-Encodes charset u input spare v room fits =
    let n = length (digits charset input) in
    let pad = padding_length (length input) in
    let total = length-append u (0 ∷ spare) in
    let fit : n + pad ≤ 4 * (length input / 3) + 4 =
      omega (arith, length-digits charset input, both_small (length input)) in
    let c = parts_at (0 ∷ spare) (n + pad) (omega (arith, room, fit)) in
    let old = take n c.front in
    let gap = drop n c.front in
    let cut : 0 ∷ spare ≡ old ++ (gap ++ (c.here ∷ c.back)) =
      c.cut
      ∙ ap (λ l. l ++ (c.here ∷ c.back)) (sym (take-append-drop n c.front))
      ∙ append_assoc old gap (c.here ∷ c.back) in
    let length-old : length old ≡ n = omega (arith, length-take n c.front, c.length-front) in
    let length-gap : length gap ≡ pad = omega (arith, length-drop n c.front, c.length-front) in
    let pads = padding charset u input v (omega (arith, room, fits, total)) in
    let at_end : length u + 1 - 1 ≡ length u = omega arith in
    let encoded =
      ap (λ m. li_to_base64 (u ++ m) (length u + 1 - 1) (4 * (length input / 3) + 4) input charset)
        cut
      ∙ padded_lem charset u input v (omega (arith, room, fits, total)) old gap (c.here ∷ c.back)
          (length u + 1 - 1) (4 * (length input / 3) + 4) at_end length-old length-gap
          (omega arith) in
    let whole = text-digits charset input in
    let size_same : n + pad ≡ length (text charset input) = sym (
      ap length whole
      ∙ length-append (digits charset input) pads
      ∙ ap (λ k. n + k) (length-replicate pad (last_digits charset).2)) in
    let stands : u ++ (digits charset input ++ (pads ++ (c.here ∷ c.back)))
        ≡ u ++ (text charset input ++ (c.here ∷ c.back)) =
      ap (λ l. u ++ l)
        (sym (append_assoc (digits charset input) pads (c.here ∷ c.back))
          ∙ ap (λ l. l ++ (c.here ∷ c.back)) (sym whole)) in
    let length-back : length (0 ∷ spare) ≡ n + pad + suc (length c.back) =
      omega (arith, ap length cut, length-append {0}, length-old, length-gap) in
    let written = u ++ (digits charset input ++ (pads ++ (c.here ∷ c.back))) in
    let length-written : length written < size_mod =
      omega (arith, ap length stands, length-append {0}, size_same, length-back, fits) in
    let committed =
      ap (buffer_commit (record { ptr = written; used = length u + 1 })) size_same
      ∙ buffer_commit_lem (record { ptr = written; used = length u + 1 }) u (text charset input)
          c.here c.back stands refl length-written in
    (
      record {
        ptr = (u ++ text charset input) ++ (0 ∷ c.back);
        used = length u + 1 + length (text charset input);
      },
      rw (encoded, committed) refl,
      record {
        spare = c.back;
        ptr_is = refl;
        used_is = omega (arith, length-append {0});
        fits = omega (arith, length-append {0}, size_same, length-back, fits);
      },
    )

-- For a byte string and a buffer that holds `u`, buffer_append_base64_encode appends the base64 text of
-- the byte string, in either alphabet, unless the room for it would not fit in the address space.
pub encode-IsString :
    (heap : Allocator) (b : Buffer) (u input : Bytes) (charset : Charset)
    → Holds u b
    → AreBytes input
    → length u + 5 + 4 * (length input / 3) < size_mod
    → (r : Buffer) × (buffer_append_base64_encode heap b input charset ≡ ok r)
      × IsString (u ++ text charset input) r
unfolding buffer_append_base64_encode
encode-IsString heap b u input charset h v fits =
    let n = 4 * (length input / 3) + 4 in
    let small : n % size_mod ≡ n = omega (arith, fits) in
    let (b', e, i, room) = prepare_append_lem heap u b n h (omega (arith, fits)) in
    let ready : Buffer = record { ptr = u ++ (0 ∷ i.spare); used = length u + 1 } in
    let same : ready ≡ b' = λ j. record { ptr = sym i.ptr_is j; used = sym i.used_is j } in
    rw (small, e)
      (subst (λ x. Encodes (u ++ text charset input) (encode_into x n input charset)) same
        (encode_into-Encodes charset u input i.spare v (omega (arith, room, size-IsString i))
          (omega (arith, i.fits, ap length i.ptr_is))))

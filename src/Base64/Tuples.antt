-- ===== src/Base64/Tuples.antt =====
-- base64.c: the digits and the padding that are written into memory.
use lighttpd_multithread.Base.{
  ℕ, suc, ◌+◌, ◌-◌, ◌*◌, ◌/◌, ◌%◌, ◌≤◌, ◌<◌, ◌≡◌, refl, sym, ap, ◌∙◌, [], ◌∷◌, ◌++◌, append_assoc,
  le→leb, ◌==◌, if◌then◌else◌, Bool-cases, length, length-append, replicate, length-replicate, inl,
  inr, ok, eq_nil_of_length, arith,
}
use lighttpd_multithread.Base.Memory.{Bytes, size_mod, memcpy, memcpy-append}
use lighttpd_multithread.Base64.{
  Charset, last_digits, base64_table, encode_tuples, li_to_base64_no_padding, li_to_base64,
}
use lighttpd_multithread.Base64.Digits.{text, AreBytes}

-- The text without its padding.
abbrev pub digits : Charset → Bytes → Bytes
digits charset [] = []
digits charset (a ∷ []) = base64_table charset (a / 4) ∷ base64_table charset (a % 4 * 16) ∷ []
digits charset (a ∷ b ∷ []) =
    base64_table charset (a / 4)
    ∷ base64_table charset (a % 4 * 16 + b / 16)
    ∷ base64_table charset (b % 16 * 4)
    ∷ []
digits charset (a ∷ b ∷ c ∷ s) =
    base64_table charset (a / 4)
    ∷ base64_table charset (a % 4 * 16 + b / 16)
    ∷ base64_table charset (b % 16 * 4 + c / 64)
    ∷ base64_table charset (c % 64)
    ∷ digits charset s

abbrev pub remainder_digits : ℕ → ℕ
remainder_digits n = if n % 3 == 0 then 0 else 1 + n % 3

abbrev pub padding_length : ℕ → ℕ
padding_length n = if n % 3 == 0 then 0 else 3 - n % 3

same_remainder : (n : ℕ) → suc (suc (suc n)) % 3 ≡ n % 3
same_remainder n = omega arith

pub length-digits :
    (charset : Charset) (s : Bytes)
    → length (digits charset s) ≡ 4 * (length s / 3) + remainder_digits (length s)
length-digits charset [] = omega arith
length-digits charset (a ∷ []) = omega arith
length-digits charset (a ∷ b ∷ []) = omega arith
length-digits charset (a ∷ b ∷ c ∷ s) =
    let e : remainder_digits (suc (suc (suc (length s)))) ≡ remainder_digits (length s) =
      ap (λ r. if r == 0 then 0 else 1 + r) (same_remainder (length s)) in
    omega (arith, length-digits charset s, e)

remainder_small : (n : ℕ) → remainder_digits n ≤ 3
remainder_small n = elim (Bool-cases (n % 3 == 0)) [
  | inl e ↦ rw e (omega arith)
  | inr e ↦ rw e (omega arith)
]

pub both_small : (n : ℕ) → remainder_digits n + padding_length n ≤ 4
both_small n = elim (Bool-cases (n % 3 == 0)) [
  | inl e ↦ rw e (omega arith)
  | inr e ↦ rw e (omega arith)
]

pub text-digits :
    (charset : Charset) (s : Bytes)
    → text charset s
      ≡ digits charset s ++ replicate (padding_length (length s)) (last_digits charset).2
unfolding text
text-digits charset [] = refl
text-digits charset (a ∷ []) = refl
text-digits charset (a ∷ b ∷ []) = refl
text-digits charset (a ∷ b ∷ c ∷ s) =
    let pad = (last_digits charset).2 in
    let e : padding_length (length s) ≡ padding_length (suc (suc (suc (length s)))) =
      ap (λ r. if r == 0 then 0 else 3 - r) (sym (same_remainder (length s))) in
    ap
      (λ l.
        base64_table charset (a / 4)
        ∷ base64_table charset (a % 4 * 16 + b / 16)
        ∷ base64_table charset (b % 16 * 4 + c / 64)
        ∷ base64_table charset (c % 64)
        ∷ l)
      (text-digits charset s ∙ ap (λ n. digits charset s ++ replicate n pad) e)

encode_tuples_lem :
    (charset : Charset) (front old back input : Bytes) (p : ℕ)
    → AreBytes input
    → p ≡ length front
    → length old ≡ length (digits charset input)
    → encode_tuples charset (front ++ (old ++ back)) p input
      ≡ ok (front ++ (digits charset input ++ back), p + length (digits charset input))
unfolding encode_tuples
encode_tuples_lem charset front old back [] p v e h =
    let n : old ≡ [] = eq_nil_of_length old h in
    let q : p ≡ p + 0 = omega arith in rw n (ap (λ k. ok (front ++ back, k)) q)
encode_tuples_lem charset front old back (a ∷ []) p v e h =
    let x : a * 16 / 64 % 64 ≡ a / 4 = omega (arith, v.0) in
    let y : a * 16 % 64 ≡ a % 4 * 16 = omega arith in
    rw (x, y, memcpy-append front old back p (digits charset (a ∷ [])) e h) refl
encode_tuples_lem charset front old back (a ∷ b ∷ []) p v e h =
    let v' = a * 1024 + b * 4 in
    let x : v' / 64 / 64 % 64 ≡ a / 4 = omega (arith, v.0, v.1.0) in
    let y : v' / 64 % 64 ≡ a % 4 * 16 + b / 16 = omega (arith, v.1.0) in
    let z : v' % 64 ≡ b % 16 * 4 = omega arith in
    rw (x, y, z, memcpy-append front old back p (digits charset (a ∷ b ∷ [])) e h) refl
encode_tuples_lem charset front (o ∷ k ∷ l ∷ m ∷ old) back (a ∷ b ∷ c ∷ s) p v e h =
    let v' = a * 65536 + b * 256 + c in
    let w : v' / 64 / 64 / 64 % 64 ≡ a / 4 = omega (arith, v.0, v.1.0, v.1.1.0) in
    let x : v' / 64 / 64 % 64 ≡ a % 4 * 16 + b / 16 = omega (arith, v.1.0, v.1.1.0) in
    let y : v' / 64 % 64 ≡ b % 16 * 4 + c / 64 = omega (arith, v.1.1.0) in
    let z : v' % 64 ≡ c % 64 = omega arith in
    let four =
      base64_table charset (a / 4)
      ∷ base64_table charset (a % 4 * 16 + b / 16)
      ∷ base64_table charset (b % 16 * 4 + c / 64)
      ∷ base64_table charset (c % 64)
      ∷ [] in
    let n = length (digits charset s) in
    let q : p + 4 + n ≡ p + suc (suc (suc (suc n))) = omega arith in
    let next =
      encode_tuples_lem charset (front ++ four) old back s (p + 4) v.1.1.1
        (omega (arith, e, length-append front four)) (omega (arith, h)) in
    rw (w, x, y, z, memcpy-append front (o ∷ k ∷ l ∷ m ∷ []) (old ++ back) p four e refl)
      (ap (λ m'. encode_tuples charset m' (p + 4) s) (sym (append_assoc front four (old ++ back)))
        ∙ next
        ∙ ap (λ m'. ok (m', p + 4 + n)) (append_assoc front four (digits charset s ++ back))
        ∙ ap (λ k'. ok (front ++ (four ++ (digits charset s ++ back)), k')) q)
encode_tuples_lem charset front old back (a ∷ b ∷ c ∷ s) p v e h = absurd (omega (arith, h))

module _ (charset : Charset) (front input : Bytes) (v : AreBytes input)
    (bound : 4 * (length input / 3) + 4 < size_mod) where
  no_padding_lem :
      (old back : Bytes) (start out_length : ℕ)
      → start ≡ length front
      → length old ≡ length (digits charset input)
      → length (digits charset input) ≤ out_length
      → li_to_base64_no_padding (front ++ (old ++ back)) start out_length input charset
        ≡ ok (front ++ (digits charset input ++ back), length (digits charset input))
  unfolding li_to_base64_no_padding
  no_padding_lem old back start out_length e h room =
      let full = length input / 3 in
      let extra = remainder_digits (length input) in
      let len = length-digits charset input in
      let extra_small : extra ≤ 3 = remainder_small (length input) in
      let needed : (4 * full + extra) % size_mod ≡ length (digits charset input) =
        omega (arith, bound, len, extra_small) in
      let taken : start + length (digits charset input) - start ≡ length (digits charset input) =
        omega arith in
      rw
        (
          le→leb full (2 * full % size_mod) (omega (arith, bound)),
          le→leb full (4 * full % size_mod) (omega (arith, bound)),
          needed,
          le→leb (4 * full % size_mod) (length (digits charset input)) (omega (arith, len, bound)),
          le→leb (length (digits charset input)) out_length room,
          encode_tuples_lem charset front old back input start v e h,
          taken,
          le→leb (length (digits charset input)) out_length room,
        )
        refl

  abbrev pub padding : Bytes
  padding = replicate (padding_length (length input)) (last_digits charset).2

  pub padded_lem :
      (old gap back : Bytes) (start out_length : ℕ)
      → start ≡ length front
      → length old ≡ length (digits charset input)
      → length gap ≡ padding_length (length input)
      → 4 * (length input / 3) + 4 ≤ out_length
      → li_to_base64 (front ++ (old ++ (gap ++ back))) start out_length input charset
        ≡ ok (
          front ++ (digits charset input ++ (padding ++ back)),
          length (digits charset input) + padding_length (length input),
        )
  unfolding li_to_base64
  padded_lem old gap back start out_length e h g room =
      let pad = padding_length (length input) in
      let len = length-digits charset input in
      let fit : length (digits charset input) + pad ≤ 4 * (length input / 3) + 4 =
        omega (arith, len, both_small (length input)) in
      let placed =
        ap (λ m. memcpy m (start + length (digits charset input)) padding)
          (sym (append_assoc front (digits charset input) (gap ++ back)))
        ∙ memcpy-append (front ++ digits charset input) gap back
            (start + length (digits charset input)) padding
            (omega (arith, e, length-append front (digits charset input)))
            (g ∙ sym (length-replicate pad (last_digits charset).2))
        ∙ ap ok (append_assoc front (digits charset input) (padding ++ back)) in
      rw
        (
          le→leb pad out_length (omega (arith, fit, room)),
          no_padding_lem old (gap ++ back) start (out_length - pad) e h (omega (arith, fit, room)),
          placed,
          le→leb (length (digits charset input) + pad) out_length (omega (arith, fit, room)),
        )
        refl

-- ===== src/Base64/Groups.antt =====
-- base64.c: the digits of a group are decoded to its bytes, at their place in memory.
use lighttpd_multithread.Base.{
  ℕ, ◌+◌, ◌*◌, ◌/◌, ◌%◌, ◌<◌, ◌≡◌, refl, sym, ap, ◌∙◌, true, Option, none, some, [], ◌∷◌, ◌++◌,
  append_assoc, leb, length, length-append, Outcome, ok, fault, ◌>>=◌, arith,
}
use lighttpd_multithread.Base.Slots.{get_elem?-middle}
use lighttpd_multithread.Base.Memory.{Bytes}
use lighttpd_multithread.Buffer.Encode.{byte_at}
use lighttpd_multithread.Buffer.Holds.{store-between}
use lighttpd_multithread.Base64.{
  Charset, base64_standard, base64_url, last_digits, base64_table, Decoding, decode_digit,
  decode_chars,
}
use lighttpd_multithread.Base64.Digits.{base64_table-IsDigit, padding_reads}

pub byte_between :
    (front between : Bytes) (x : ℕ) (back : Bytes) (i : ℕ)
    → i ≡ length front + length between
    → byte_at (front ++ (between ++ (x ∷ back))) i ≡ ok x
byte_between front between x back i e =
    ap (λ ptr. byte_at ptr i) (sym (append_assoc front between (x ∷ back)))
    ∙ ap (λ (o : Option ℕ). elim o as (λ z. Outcome ℕ) [ none ↦ fault | some c ↦ ok c ])
        (get_elem?-middle (front ++ between) x back i (omega (arith, length-append front between)))

decode_one :
    (charset : Charset) (start : ℕ) (d : Decoding) (k : ℕ) (input : Bytes)
    → k < 64
    → decode_chars charset start d (base64_table charset k ∷ input)
      ≡ (do e ← decode_digit start d k; decode_chars charset start e input)
unfolding decode_chars
decode_one charset start d k input h =
    let i = base64_table-IsDigit charset k h in rw (i.not_zero, i.ascii, i.read) refl

abbrev pub at_group : Bytes → ℕ → ℕ → Decoding
at_group result pos group = record { result = result; out_pos = pos; group = group }

module _ (start pos : ℕ) (front : Bytes) (here : start + pos ≡ length front) where
  first_digit :
      (x : ℕ) (back : Bytes) (k : ℕ)
      → decode_digit start (at_group (front ++ (x ∷ back)) pos 0) k
        ≡ ok (at_group (front ++ (k * 4 % 256 ∷ back)) pos 1)
  unfolding decode_digit
  first_digit x back k =
      rw (store-between front [] x back (start + pos) (k * 4 % 256) (omega (arith, here))) refl

  second_digit :
      (o y : ℕ) (back : Bytes) (k : ℕ)
      → decode_digit start (at_group (front ++ (o ∷ y ∷ back)) pos 1) k
        ≡ ok (at_group (front ++ ((o + k / 16) ∷ (k % 16 * 16) ∷ back)) (pos + 1) 2)
  unfolding decode_digit
  second_digit o y back k =
      rw
        (
          byte_between front [] o (y ∷ back) (start + pos) (omega (arith, here)),
          store-between front [] o (y ∷ back) (start + pos) (o + k / 16) (omega (arith, here)),
          store-between front ((o + k / 16) ∷ []) y back (start + pos + 1) (k % 16 * 16)
              (omega (arith, here)),
        )
        refl

  third_digit :
      (a o z : ℕ) (back : Bytes) (k : ℕ)
      → decode_digit start (at_group (front ++ (a ∷ o ∷ z ∷ back)) (pos + 1) 2) k
        ≡ ok (at_group (front ++ (a ∷ (o + k / 4) ∷ (k % 4 * 64) ∷ back)) (pos + 1 + 1) 3)
  unfolding decode_digit
  third_digit a o z back k =
      rw
        (
          byte_between front (a ∷ []) o (z ∷ back) (start + (pos + 1)) (omega (arith, here)),
          store-between front (a ∷ []) o (z ∷ back) (start + (pos + 1)) (o + k / 4)
              (omega (arith, here)),
          store-between front (a ∷ (o + k / 4) ∷ []) z back (start + (pos + 1) + 1) (k % 4 * 64)
              (omega (arith, here)),
        )
        refl

  fourth_digit :
      (a b o : ℕ) (back : Bytes) (k : ℕ)
      → decode_digit start (at_group (front ++ (a ∷ b ∷ o ∷ back)) (pos + 1 + 1) 3) k
        ≡ ok (at_group (front ++ (a ∷ b ∷ (o + k) ∷ back)) (pos + 1 + 1 + 1) 0)
  unfolding decode_digit
  fourth_digit a b o back k =
      rw
        (
          byte_between front (a ∷ b ∷ []) o back (start + (pos + 1 + 1)) (omega (arith, here)),
          store-between front (a ∷ b ∷ []) o back (start + (pos + 1 + 1)) (o + k)
              (omega (arith, here)),
        )
        refl

pub decode_tuple :
    (charset : Charset) (start pos a b c x y z : ℕ) (front back input : Bytes)
    → start + pos ≡ length front
    → a < 256
    → b < 256
    → c < 256
    → decode_chars charset start (at_group (front ++ (x ∷ y ∷ z ∷ back)) pos 0) (
        base64_table charset (a / 4)
        ∷ base64_table charset (a % 4 * 16 + b / 16)
        ∷ base64_table charset (b % 16 * 4 + c / 64)
        ∷ base64_table charset (c % 64)
        ∷ input)
      ≡ decode_chars charset start
          (at_group (front ++ (a ∷ b ∷ c ∷ back)) (pos + 1 + 1 + 1) 0)
          input
decode_tuple charset start pos a b c x y z front back input e f g h =
    let p = a / 4 in
    let q = a % 4 * 16 + b / 16 in
    let r = b % 16 * 4 + c / 64 in
    let t = c % 64 in
    let byte_a : p * 4 % 256 + q / 16 ≡ a = omega (arith, f, g) in
    let byte_b : q % 16 * 16 + r / 4 ≡ b = omega (arith, g, h) in
    let byte_c : r % 4 * 64 + t ≡ c = omega (arith, h) in
    rw
      (
        decode_one charset start (at_group (front ++ (x ∷ y ∷ z ∷ back)) pos 0) p _
            (omega (arith, f)),
        first_digit start pos front e x (y ∷ z ∷ back) p,
        decode_one charset start (at_group (front ++ ((p * 4 % 256) ∷ y ∷ z ∷ back)) pos 1) q _
            (omega (arith, f, g)),
        second_digit start pos front e (p * 4 % 256) y (z ∷ back) q,
        byte_a,
        decode_one charset start (at_group (front ++ (a ∷ (q % 16 * 16) ∷ z ∷ back)) (pos + 1) 2) r
            _ (omega (arith, g, h)),
        third_digit start pos front e a (q % 16 * 16) z back r,
        byte_b,
        decode_one charset start (at_group (front ++ (a ∷ b ∷ (r % 4 * 64) ∷ back)) (pos + 1 + 1) 3)
            t _ (omega arith),
        fourth_digit start pos front e a b (r % 4 * 64) back t,
        byte_c,
      )
      refl

pub padding_ends :
    (charset : Charset) (start : ℕ) (d : Decoding) (input : Bytes)
    → leb 2 d.group ≡ true
    → decode_chars charset start d ((last_digits charset).2 ∷ input) ≡ ok (d, true)
unfolding decode_chars
padding_ends base64_standard start d input e = rw (padding_reads base64_standard, e) refl
padding_ends base64_url start d input e = rw (padding_reads base64_url, e) refl

pub decode_pair :
    (charset : Charset) (start pos a x y : ℕ) (front back input : Bytes)
    → start + pos ≡ length front
    → a < 256
    → decode_chars charset start
        (at_group (front ++ (x ∷ y ∷ back)) pos 0)
        (base64_table charset (a / 4) ∷ base64_table charset (a % 4 * 16) ∷ input)
      ≡ decode_chars charset start (at_group (front ++ (a ∷ 0 ∷ back)) (pos + 1) 2) input
decode_pair charset start pos a x y front back input e f =
    let p = a / 4 in
    let q = a % 4 * 16 in
    let byte_a : p * 4 % 256 + q / 16 ≡ a = omega (arith, f) in
    let byte_b : q % 16 * 16 ≡ 0 = omega (arith, f) in
    rw
      (
        decode_one charset start (at_group (front ++ (x ∷ y ∷ back)) pos 0) p _ (omega (arith, f)),
        first_digit start pos front e x (y ∷ back) p,
        decode_one charset start (at_group (front ++ ((p * 4 % 256) ∷ y ∷ back)) pos 1) q _
            (omega (arith, f)),
        second_digit start pos front e (p * 4 % 256) y back q,
        byte_a,
        byte_b,
      )
      refl

pub decode_triple :
    (charset : Charset) (start pos a b x y z : ℕ) (front back input : Bytes)
    → start + pos ≡ length front
    → a < 256
    → b < 256
    → decode_chars charset start (at_group (front ++ (x ∷ y ∷ z ∷ back)) pos 0) (
        base64_table charset (a / 4)
        ∷ base64_table charset (a % 4 * 16 + b / 16)
        ∷ base64_table charset (b % 16 * 4)
        ∷ input)
      ≡ decode_chars charset start (at_group (front ++ (a ∷ b ∷ 0 ∷ back)) (pos + 1 + 1) 3) input
decode_triple charset start pos a b x y z front back input e f g =
    let p = a / 4 in
    let q = a % 4 * 16 + b / 16 in
    let r = b % 16 * 4 in
    let byte_a : p * 4 % 256 + q / 16 ≡ a = omega (arith, f, g) in
    let byte_b : q % 16 * 16 + r / 4 ≡ b = omega (arith, g) in
    let byte_c : r % 4 * 64 ≡ 0 = omega (arith, g) in
    rw
      (
        decode_one charset start (at_group (front ++ (x ∷ y ∷ z ∷ back)) pos 0) p _
            (omega (arith, f)),
        first_digit start pos front e x (y ∷ z ∷ back) p,
        decode_one charset start (at_group (front ++ ((p * 4 % 256) ∷ y ∷ z ∷ back)) pos 1) q _
            (omega (arith, f, g)),
        second_digit start pos front e (p * 4 % 256) y (z ∷ back) q,
        byte_a,
        decode_one charset start (at_group (front ++ (a ∷ (q % 16 * 16) ∷ z ∷ back)) (pos + 1) 2) r
            _ (omega (arith, g)),
        third_digit start pos front e a (q % 16 * 16) z back r,
        byte_b,
        byte_c,
      )
      refl

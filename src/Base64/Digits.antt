-- ===== src/Base64/Digits.antt =====
-- base64.c: the digits of the two alphabets, and the text of a byte string.
use lighttpd_multithread.Base.{
  ℕ, ◌+◌, ◌*◌, ◌/◌, ◌%◌, ◌<◌, ◌≡◌, refl, Bool, true, false, not, ◌&&◌, [], ◌∷◌, leb, ◌==◌, ==_iff,
  arith,
}
use lighttpd_multithread.Base.Memory.{Bytes}
use lighttpd_multithread.Buffer.Hex.{all_below, all_below_sound}
use lighttpd_multithread.Base64.{
  Charset, base64_standard, base64_url, last_digits, base64_table, Reverse, digit, invalid_char,
  skip_char, padding_char, base64_reverse_table,
}

abbrev is_digit : ℕ → Reverse → Bool
is_digit k (digit n) = n == k
is_digit k invalid_char = false
is_digit k skip_char = false
is_digit k padding_char = false

-- The digit `k` is an ASCII character that is not 0, and is read back.
abbrev reads_back : Charset → ℕ → Bool
reads_back charset k =
    let c = base64_table charset k in
    not (c == 0) && (not (leb 128 c) && is_digit k (base64_reverse_table charset c))

table_reads_back : (charset : Charset) → all_below 64 (reads_back charset) ≡ true
unfolding base64_table base64_reverse_table
table_reads_back base64_standard = refl
table_reads_back base64_url = refl

-- A character with a digit's value.
pub record IsDigit (charset : Charset) (k c : ℕ) : Type 0 where
  pub not_zero : (c == 0) ≡ false
  pub ascii : leb 128 c ≡ false
  pub read : base64_reverse_table charset c ≡ digit k

digit_is : (k : ℕ) (r : Reverse) → is_digit k r ≡ true → r ≡ digit k
digit_is k (digit n) h = let e : n ≡ k = (==_iff n k).0 h in rw e refl
digit_is k invalid_char h = absurd (ground (arith, h))
digit_is k skip_char h = absurd (ground (arith, h))
digit_is k padding_char h = absurd (ground (arith, h))

and_all : (x y z : Bool) → not x && (not y && z) ≡ true → (x ≡ false) × (y ≡ false) × (z ≡ true)
and_all true y z h = absurd (ground (arith, h))
and_all false true z h = absurd (ground (arith, h))
and_all false false z h = (refl, refl, h)

pub base64_table-IsDigit :
    (charset : Charset) (k : ℕ) → k < 64 → IsDigit charset k (base64_table charset k)
base64_table-IsDigit charset k h =
    let c = base64_table charset k in
    let (x, y, z) =
      and_all (c == 0) (leb 128 c) (is_digit k (base64_reverse_table charset c))
        (all_below_sound 64 (reads_back charset) k (table_reads_back charset) h) in
    record { not_zero = x; ascii = y; read = digit_is k (base64_reverse_table charset c) z }

pub padding_reads :
    (charset : Charset) → base64_reverse_table charset (last_digits charset).2 ≡ padding_char
unfolding base64_reverse_table
padding_reads base64_standard = refl
padding_reads base64_url = refl

-- The text of RFC 4648: four digits for three bytes, and padding at the end.
unfoldable pub text : Charset → Bytes → Bytes
text charset [] = []
text charset (a ∷ []) =
    let pad = (last_digits charset).2 in
    base64_table charset (a / 4) ∷ base64_table charset (a % 4 * 16) ∷ pad ∷ pad ∷ []
text charset (a ∷ b ∷ []) =
    base64_table charset (a / 4)
    ∷ base64_table charset (a % 4 * 16 + b / 16)
    ∷ base64_table charset (b % 16 * 4)
    ∷ (last_digits charset).2
    ∷ []
text charset (a ∷ b ∷ c ∷ s) =
    base64_table charset (a / 4)
    ∷ base64_table charset (a % 4 * 16 + b / 16)
    ∷ base64_table charset (b % 16 * 4 + c / 64)
    ∷ base64_table charset (c % 64)
    ∷ text charset s

abbrev pub AreBytes : Bytes → Type 0
AreBytes [] = Unit
AreBytes (c ∷ s) = (c < 256) × AreBytes s

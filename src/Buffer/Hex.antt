-- ===== src/Buffer/Hex.antt =====
-- buffer.c: hexadecimal digits and the character classes of `light_is…`.
use lighttpd_multithread.Base.{
  ℕ, zero, suc, ◌+◌, ◌-◌, ◌%◌, ◌<◌, ◌≡◌, refl, Bool, true, ◌&&◌, ◌||◌, [], ◌∷◌, ltb, leb, ◌==◌,
  if◌then◌else◌, get_or, arith, ==_iff,
}
use lighttpd_multithread.Base.Memory.{Bytes}
use Prim.Native.Nat.{bit_or}
use Prim.Native.Char.{code}
use Prim.Native.String.{String}

-- The bytes of a literal in ASCII.
abbrev pub codes : String → Bytes
codes String.[] = []
codes (String.◌∷◌ c s) = code c ∷ codes s

abbrev pub hex_chars : Bytes
hex_chars = codes "0123456789abcdef"

-- `hex_chars[n]`.
unfoldable pub hex_char : ℕ → ℕ
hex_char n = get_or hex_chars n 0

unfoldable pub int2hex : ℕ → ℕ
unfolding hex_char
int2hex c = hex_char (c % 16)

-- The arithmetic is that of `unsigned char`.
unfoldable pub hex2int : ℕ → ℕ
hex2int hex =
    let value = (hex + 256 - b'0') % 256 in
    let letter = (bit_or hex 0x20 + 256 - b'a' + 10) % 256 in
    let value' = if ltb 9 value then (if ltb letter 10 then 0xff else letter) else value in
    if ltb 15 value' then 0xff else value'

unfoldable pub light_isdigit : ℕ → Bool
light_isdigit c = leb b'0' c && leb c b'9'

unfoldable pub light_isxdigit : ℕ → Bool
unfolding light_isdigit
light_isxdigit c = light_isdigit c || (leb b'a' (bit_or c 32) && leb (bit_or c 32) b'f')

unfoldable pub light_isalpha : ℕ → Bool
light_isalpha c = leb b'a' (bit_or c 32) && leb (bit_or c 32) b'z'

unfoldable pub light_isalnum : ℕ → Bool
unfolding light_isdigit light_isalpha
light_isalnum c = light_isdigit c || light_isalpha c

-- A test of every value below a bound, by evaluation.
abbrev pub all_below : ℕ → (ℕ → Bool) → Bool
all_below zero p = true
all_below (suc n) p = p n && all_below n p

pub all_below_sound : (n : ℕ) (p : ℕ → Bool) (x : ℕ) → all_below n p ≡ true → x < n → p x ≡ true
all_below_sound zero p x h lt = absurd (omega arith)
all_below_sound (suc n) p x h lt = ground (arith, all_below_sound n p x)

hex2int_digits : all_below 16 (λ n. hex2int (hex_char n) == n) ≡ true
unfolding hex2int hex_char
hex2int_digits = refl

-- `hex2int` reads the digits that `hex_chars` writes.
pub hex2int-hex_char : (n : ℕ) → n < 16 → hex2int (hex_char n) ≡ n
hex2int-hex_char n h =
    (==_iff _ n).0 (all_below_sound 16 (λ x. hex2int (hex_char x) == x) n hex2int_digits h)

-- ===== src/Buffer/Number/Hexadecimal.antt =====
-- buffer.c: a number is written in hexadecimal so that its digits are read back as the number.
use lighttpd_multithread.Base.{
  ℕ, zero, suc, ◌+◌, ◌*◌, ◌/◌, ◌%◌, ◌^◌, ◌≤◌, ◌<◌, ◌≡◌, refl, sym, ap, ◌∙◌, ◌⊎◌, inl, inr, [], ◌∷◌,
  ◌++◌, ◌==◌, ltb, ltb→lt, ltb→ge, Bool-cases, length, length-append, parts_at, append_assoc, ok,
  ◌>>=◌, arith,
}
use Prim.Native.Nat.pow
use native.Mathlib.Nat.{div-div-eq-div-mul, div-eq_of_lt}
use lighttpd_multithread.Base.Memory.{Bytes, size_mod, Allocator, memcpy, memcpy-append}
use lighttpd_multithread.Buffer.{Buffer, buffer_commit, end_of_string}
use lighttpd_multithread.Buffer.Hex.{hex_char, hex2int, hex2int-hex_char}
use lighttpd_multithread.Buffer.Holds.{IsString, Holds, Stores, size-IsString, buffer_commit_lem}
use lighttpd_multithread.Buffer.Append.{prepare_append_lem, prepare_append_overflow}
use lighttpd_multithread.Buffer.Number.{count_value_bytes, hex_digits, buffer_append_uint_hex}

-- The number that hexadecimal digits stand for, behind those of `n`.
abbrev pub hex_value : Bytes → ℕ → ℕ
hex_value [] n = n
hex_value (c ∷ s) n = hex_value s (n * 16 + hex2int c)

-- Only digits that `hex_chars` has.
abbrev pub AreHexDigits : Bytes → Type 0
AreHexDigits [] = Unit
AreHexDigits (c ∷ s) = ((d : ℕ) × (d < 16) × (c ≡ hex_char d)) × AreHexDigits s

pub record IsHexadecimal (n : ℕ) (s : Bytes) : Type 0 where
  pub digits : AreHexDigits s
  pub stands_for : hex_value s 0 ≡ n
  pub some_there : 0 < length s
  pub short : length s ≤ 16

power_suc : (n : ℕ) → 16 ^ suc n ≡ 16 ^ n * 16
power_suc n = (λ i. pow.suc 16 n i) ∙ omega arith

length-hex_digits : (n v : ℕ) → length (hex_digits n v) ≡ n
unfolding hex_digits
length-hex_digits zero v = refl
length-hex_digits (suc n) v = ap suc (length-hex_digits n v)

hex_digits-AreHexDigits : (n v : ℕ) → AreHexDigits (hex_digits n v)
unfolding hex_digits
hex_digits-AreHexDigits zero v = tt
hex_digits-AreHexDigits (suc n) v =
    ((v / 16 ^ n % 16, omega arith, refl), hex_digits-AreHexDigits n v)

next_digit : (n v : ℕ) → v / 16 ^ suc n * 16 + v / 16 ^ n % 16 ≡ v / 16 ^ n
next_digit n v =
    let e : v / 16 ^ suc n ≡ v / 16 ^ n / 16 =
      ap (λ p. v / p) (power_suc n) ∙ sym (div-div-eq-div-mul v (16 ^ n) 16) in
    omega (arith, e)

value-hex_digits : (n v : ℕ) → hex_value (hex_digits n v) (v / 16 ^ n) ≡ v
unfolding hex_digits
value-hex_digits zero v = omega arith
value-hex_digits (suc n) v =
    ap (hex_value (hex_digits n v)) (
      ap (λ d. v / 16 ^ suc n * 16 + d) (hex2int-hex_char (v / 16 ^ n % 16) (omega arith))
      ∙ next_digit n v)
    ∙ value-hex_digits n v

power_two : (n : ℕ) → 16 ^ (2 * suc n) ≡ 16 ^ (2 * n) * 256
power_two n =
    let e : 2 * suc n ≡ suc (suc (2 * n)) = omega arith in
    ap (λ k. 16 ^ k) e ∙ omega (arith, power_suc (suc (2 * n)), power_suc (2 * n))

count_cases :
    (fuel v : ℕ)
    → ((count_value_bytes (suc fuel) v ≡ 1) × (v < 256))
      ⊎ ((count_value_bytes (suc fuel) v ≡ suc (count_value_bytes fuel (v / 256))) × (256 ≤ v))
unfolding count_value_bytes
count_cases fuel v = elim (Bool-cases (v / 256 == 0)) [
  | inl last ↦ inl (rw last refl, ground (arith, last))
  | inr more ↦ inr (rw more (omega arith), ground (arith, more))
]

-- The digits of the bytes counted are enough for the number.
count_lem :
    (fuel v : ℕ)
    → v < 16 ^ (2 * suc fuel)
    → let n = count_value_bytes (suc fuel) v in (0 < n) × (n ≤ suc fuel) × (v < 16 ^ (2 * n))
count_lem zero v h = elim (count_cases zero v) [
  | inl (e, lt) ↦ rw e (omega arith, omega arith, lt)
  | inr (e, ge) ↦ absurd (omega (arith, h, ge))
]
count_lem (suc fuel) v h = elim (count_cases (suc fuel) v) [
  | inl (e, lt) ↦ rw e (omega arith, omega arith, lt)
  | inr (e, ge) ↦
      let (one, most, below) = count_lem fuel (v / 256) (omega (arith, h, power_two (suc fuel))) in
      let c = count_value_bytes (suc fuel) (v / 256) in
      let step : 16 ^ (2 * suc c) ≡ 16 ^ (2 * c) * 256 = power_two c in
      rw e (omega arith, omega (arith, most), omega (arith, below, step))
]

digits-IsHexadecimal :
    (v : ℕ) → v < 2 ^ 64 → IsHexadecimal v (hex_digits (2 * count_value_bytes 8 v) v)
digits-IsHexadecimal v h =
    let (one, most, below) = count_lem 7 v h in
    let n = 2 * count_value_bytes 8 v in
    record {
      digits = hex_digits-AreHexDigits n v;
      stands_for =
          ap (hex_value (hex_digits n v)) (sym (div-eq_of_lt below)) ∙ value-hex_digits n v;
      some_there = omega (arith, one, length-hex_digits n v);
      short = omega (arith, most, length-hex_digits n v);
    }

-- Room behind the string is committed, then written.
commit_then_write :
    (s t : Bytes) (n : ℕ) (b : Buffer)
    → IsString s b
    → length t ≡ n
    → length s + 1 + n ≤ length b.ptr
    → Stores
        (s ++ t)
        (do c ← buffer_commit b n; p ← memcpy c.ptr (end_of_string b) t; ok (record c { ptr = p }))
commit_then_write s t n b i same room =
    let c = parts_at (0 ∷ i.spare) n (omega (arith, size-IsString i)) in
    let filled : length c.front ≡ length t = c.length-front ∙ sym same in
    let e = i.ptr_is ∙ ap (◌++◌ s) c.cut in
    let committed : buffer_commit b n
        ≡ ok (record { ptr = (s ++ c.front) ++ (0 ∷ c.back); used = length s + 1 + n }) =
      ap (buffer_commit b) (sym c.length-front)
      ∙ buffer_commit_lem b s c.front c.here c.back e i.used_is i.fits
      ∙ ap (λ k. ok (record { ptr = (s ++ c.front) ++ (0 ∷ c.back); used = length s + 1 + k }))
          c.length-front in
    let written : memcpy ((s ++ c.front) ++ (0 ∷ c.back)) (end_of_string b) t
        ≡ ok (s ++ (t ++ (0 ∷ c.back))) =
      rw (append_assoc s c.front (0 ∷ c.back)) (
        memcpy-append s c.front (0 ∷ c.back) (end_of_string b) t (omega (arith, i.used_is))
          filled) in
    inl (
      record { ptr = s ++ (t ++ (0 ∷ c.back)); used = length s + 1 + n },
      rw (committed, written) refl,
      record {
        spare = c.back;
        ptr_is = sym (append_assoc s t (0 ∷ c.back));
        used_is = omega (arith, length-append {0}, same);
        fits = omega (arith, length-append {0}, ap length e, filled, same, i.fits);
      },
    )

-- For a number of 64 bits and a buffer that holds `s`, buffer_append_uint_hex stores `s` and a text of
-- 1 to 16 hexadecimal digits that are read back as the number, or aborts because this does not fit in
-- the address space.
pub append_uint_hex-Stores :
    (heap : Allocator) (b : Buffer) (s : Bytes) (value : ℕ)
    → Holds s b
    → value < 2 ^ 64
    → (t : Bytes) × IsHexadecimal value t × Stores (s ++ t) (buffer_append_uint_hex heap b value)
unfolding buffer_append_uint_hex
append_uint_hex-Stores heap b s value h f =
    let n = 2 * count_value_bytes 8 value in
    let t = hex_digits n value in
    let same = length-hex_digits n value in
    (
      t,
      digits-IsHexadecimal value f,
      elim (Bool-cases (ltb (length s + 1 + n) size_mod)) [
        | inl fits ↦
            let (b', e, i, room) = prepare_append_lem heap s b n h (ltb→lt _ _ fits) in
            rw e (commit_then_write s t n b' i same room)
        | inr large ↦ inr (
          omega (arith, length-append s t, same, ltb→ge _ _ large),
          rw
              (prepare_append_overflow heap s b n h
                (omega (arith, (digits-IsHexadecimal value f).short, same)) (ltb→ge _ _ large))
              refl,
        )
      ],
    )

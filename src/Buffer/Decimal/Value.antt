-- ===== src/Buffer/Decimal/Value.antt =====
-- buffer.c: the decimal digits of a number are read back as the number, and fit in the array for them.
use lighttpd_multithread.Base.{
  ℕ, zero, suc, ◌+◌, ◌-◌, ◌*◌, ◌/◌, ◌%◌, ◌^◌, ◌≤◌, ◌<◌, ◌≡◌, ◌≢◌, refl, ap, ◌∙◌, ◌⊎◌, inl, inr, [],
  ◌∷◌, ◌==◌, Bool-cases, true, length, arith,
}
use Prim.Native.Nat.pow
use lighttpd_multithread.Base.Memory.{Bytes}
use lighttpd_multithread.Buffer.Decimal.{utostr_loop, utostr}

-- The number that digits stand for, behind those of `n`.
abbrev pub value : Bytes → ℕ → ℕ
value [] n = n
value (c ∷ s) n = value s (n * 10 + (c - b'0'))

abbrev pub AreDigits : Bytes → Type 0
AreDigits [] = Unit
AreDigits (c ∷ s) = (b'0' ≤ c) × (c ≤ b'9') × AreDigits s

-- Digits without a 0 before others.
pub record IsDecimal (n : ℕ) (s : Bytes) : Type 0 where
  pub digits : AreDigits s
  pub stands_for : value s 0 ≡ n
  pub first : ℕ
  pub others : Bytes
  pub is_first : s ≡ first ∷ others
  pub no_zero : (n ≡ 0) ⊎ (first ≢ b'0')
  pub short : length s ≤ 20

power_suc : (n : ℕ) → 10 ^ suc n ≡ 10 * 10 ^ n
power_suc n = (λ i. pow.suc 10 n i) ∙ omega arith

value-utostr_loop :
    (fuel n : ℕ) (out : Bytes) → n < 10 ^ fuel → value (utostr_loop fuel n out) 0 ≡ value out n
unfolding utostr_loop
value-utostr_loop zero n out h = ap (value out) (omega (arith, h))
value-utostr_loop (suc fuel) n out h = elim (Bool-cases (n / 10 == 0)) [
  | inl last ↦ rw last (ap (value out) (ground (arith, last)))
  | inr more ↦ rw more (
      value-utostr_loop fuel (n / 10) ((b'0' + n % 10) ∷ out) (omega (arith, h, power_suc fuel))
      ∙ ap (value out) (omega arith))
]

length-utostr_loop :
    (fuel n : ℕ) (out : Bytes) → length (utostr_loop fuel n out) ≤ fuel + length out
unfolding utostr_loop
length-utostr_loop zero n out = omega arith
length-utostr_loop (suc fuel) n out = elim (Bool-cases (n / 10 == 0)) [
  | inl last ↦ rw last (omega arith)
  | inr more ↦
      let m = length-utostr_loop fuel (n / 10) ((b'0' + n % 10) ∷ out) in rw more (omega (arith, m))
]

utostr_loop-AreDigits :
    (fuel n : ℕ) (out : Bytes) → AreDigits out → AreDigits (utostr_loop fuel n out)
unfolding utostr_loop
utostr_loop-AreDigits zero n out h = h
utostr_loop-AreDigits (suc fuel) n out h =
    let digit : AreDigits ((b'0' + n % 10) ∷ out) = (omega arith, omega arith, h) in
    elim (Bool-cases (n / 10 == 0)) [
      | inl last ↦ rw last digit
      | inr more ↦ rw more (utostr_loop-AreDigits fuel (n / 10) ((b'0' + n % 10) ∷ out) digit)
    ]

-- At least one digit, and a first 0 only for 0.
abbrev Leads : ℕ → Bytes → Type 0
Leads n s = (c : ℕ) × (r : Bytes) × (s ≡ c ∷ r) × ((n ≡ 0) ⊎ (c ≢ b'0'))

utostr_loop-Leads :
    (fuel n : ℕ) (out : Bytes) → n < 10 ^ suc fuel → Leads n (utostr_loop (suc fuel) n out)
unfolding utostr_loop
utostr_loop-Leads zero n out h =
    let last : (n / 10 == 0) ≡ true = ground (arith, h, power_suc 0) in
    let digit : (n ≡ 0) ⊎ (b'0' + n % 10 ≢ b'0') = ground (arith, last) in
    rw last (b'0' + n % 10, out, refl, digit)
utostr_loop-Leads (suc fuel) n out h = elim (Bool-cases (n / 10 == 0)) [
  | inl last ↦
      let digit : (n ≡ 0) ⊎ (b'0' + n % 10 ≢ b'0') = ground (arith, last) in
      rw last (b'0' + n % 10, out, refl, digit)
  | inr more ↦
      let p : 0 < n / 10 = ground (arith, more) in
      let (c, r, e, d) =
        utostr_loop-Leads fuel (n / 10) ((b'0' + n % 10) ∷ out)
          (omega (arith, h, power_suc (suc fuel))) in
      rw more (c, r, e, elim d [ inl z ↦ absurd (omega (arith, z, p)) | inr x ↦ inr x ])
]

-- The digits that utostr writes for a number below 2 ^ 64 are at most 20, do not start with 0 unless
-- the number is 0, and stand for the number.
pub utostr-IsDecimal : (n : ℕ) → n < 2 ^ 64 → IsDecimal n (utostr n)
unfolding utostr
utostr-IsDecimal n h =
    let fuel : n < 10 ^ 20 = omega (arith, h) in
    let (c, r, e, d) = utostr_loop-Leads 19 n [] fuel in
    record {
      digits = utostr_loop-AreDigits 20 n [] tt;
      stands_for = value-utostr_loop 20 n [] fuel;
      first = c;
      others = r;
      is_first = e;
      no_zero = d;
      short = omega (arith, length-utostr_loop 20 n []);
    }

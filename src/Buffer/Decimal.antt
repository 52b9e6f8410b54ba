-- ===== src/Buffer/Decimal.antt =====
-- buffer.c: numbers in decimal and in hexadecimal.
pub mod Value
use lighttpd_multithread.Base.{
  ℕ, zero, suc, ◌+◌, ◌-◌, ◌/◌, ◌%◌, ◌^◌, [], ◌∷◌, ltb, ◌==◌, if◌then◌else◌,
}
use lighttpd_multithread.Base.Memory.{Bytes, size_mod}

-- `do { *--cur = '0' + val % 10; val /= 10; } while (0 != val)`: `out` is what `cur` points to.
-- A `uintmax_t` has 20 digits at most, which the fuel of `utostr` is.
pub utostr_loop : ℕ → ℕ → Bytes → Bytes
utostr_loop zero val out = out
utostr_loop (suc fuel) val out =
    let out' = (b'0' + val % 10) ∷ out in
    let rest = utostr_loop fuel (val / 10) out' in if val / 10 == 0 then out' else rest

unfoldable pub utostr : ℕ → Bytes
unfolding utostr_loop
utostr val = utostr_loop 20 val []

-- An `intmax_t` is its bit pattern, below 2 ^ 64; from 2 ^ 63 on it stands for a negative number,
-- whose absolute value is `~val + 1`.
unfoldable pub itostr : ℕ → Bytes
itostr val =
    if ltb val (2 ^ 63) then utostr val else b'-' ∷ utostr ((size_mod - 1 - val + 1) % size_mod)

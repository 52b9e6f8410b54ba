-- ===== src/Base/Memory.antt =====
-- Bytes in memory: an allocation is the list of its bytes.
use lighttpd_multithread.Base.Lists.{
  length, take, drop, length-append, take-append_left, drop-append_both,
}
use lighttpd_multithread.Base.Outcomes.{Outcome, ok, fault}
use lighttpd_multithread.Base.Tests.{leb, le→leb, if◌then◌else◌}
use Prim.Native.Nat.{ℕ, ◌+◌, ◌^◌, ◌≤◌}
use mathlib.Core.Path.{◌≡◌, refl}
use mathlib.Core.List.{List, ◌++◌}
use native.Mathlib.Omega.{arith}

abbrev pub Bytes : Type 0
Bytes = List ℕ

-- `size_t` has 64 bits.
abbrev pub size_mod : ℕ
size_mod = 2 ^ 64

-- The C library's `malloc` and `realloc`, where they succeed. New bytes hold anything.
pub record Allocator : Type 0 where
  pub malloc : ℕ → Bytes
  pub realloc : Bytes → ℕ → Bytes
  pub length-malloc : (n : ℕ) → length (malloc n) ≡ n
  pub realloc_keeps :
      (old : Bytes) (n : ℕ)
      → length old ≤ n
      → (more : Bytes) × (realloc old n ≡ old ++ more) × (length old + length more ≡ n)

-- `memcpy(mem + off, src, length src)` into an allocation that is known by its bytes.
pub memcpy : Bytes → ℕ → Bytes → Outcome Bytes
memcpy mem off src =
    if leb (off + length src) (length mem)
    then ok (take off mem ++ (src ++ drop (off + length src) mem))
    else fault

pub memcpy-append :
    (front old back : Bytes) (off : ℕ) (src : Bytes)
    → off ≡ length front
    → length old ≡ length src
    → memcpy (front ++ (old ++ back)) off src ≡ ok (front ++ (src ++ back))
unfolding memcpy
memcpy-append front old back off src e f =
    rw
      (
        le→leb (off + length src) (length (front ++ (old ++ back)))
            (omega (arith, length-append front (old ++ back), length-append old back)),
        take-append_left front (old ++ back) off e,
        drop-append_both front old back (off + length src) (omega arith),
      )
      refl

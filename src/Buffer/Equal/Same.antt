-- ===== src/Buffer/Equal/Same.antt =====
-- buffer.c: what the tests of equality decide.
use lighttpd_multithread.Base.{
  ◌+◌, ◌≡◌, ◌≢◌, refl, sym, ap, ◌∙◌, inl, inr, ◌↔◌, Bool, true, false, [], ◌∷◌, ◌++◌, ◌==◌, length,
  length-append, take, take-append_left, append_assoc, ok, arith, Bool-cases, ==_iff,
}
use lighttpd_multithread.Base.Memory.{Bytes}
use lighttpd_multithread.Buffer.{Buffer}
use lighttpd_multithread.Buffer.Holds.{IsString}
use lighttpd_multithread.Buffer.Equal.{same_bytes, memory_equal, buffer_is_equal}

same_bytes_sound : (s t : Bytes) → same_bytes s t ≡ true → s ≡ t
same_bytes_sound [] [] e = refl
same_bytes_sound [] (y ∷ t) e = ground arith
same_bytes_sound (x ∷ s) [] e = ground arith
same_bytes_sound (x ∷ s) (y ∷ t) e = elim (Bool-cases (x == y)) [
  | inl f ↦ ground (arith, (==_iff x y).0 f, same_bytes_sound s t)
  | inr f ↦ ground arith
]

same_bytes_refl : (s : Bytes) → same_bytes s s ≡ true
same_bytes_refl [] = refl
same_bytes_refl (x ∷ s) = rw ((==_iff x x).1 refl) (same_bytes_refl s)

append_cancel : (s t u v : Bytes) → length s ≡ length t → s ++ u ≡ t ++ v → s ≡ t
append_cancel s t u v e f =
    sym (take-append_left s u (length s) refl)
    ∙ ap (take (length s)) f
    ∙ take-append_left t v (length s) e

-- A comparison of all bytes of two strings, each with its 0, from memory that holds more.
memory_equal_strings :
    (s t more more' : Bytes)
    → length s ≡ length t
    → memory_equal (s ++ (0 ∷ more)) 0 (t ++ (0 ∷ more')) 0 (length s + 1)
      ≡ ok (same_bytes (s ++ (0 ∷ [])) (t ++ (0 ∷ [])))
unfolding memory_equal
memory_equal_strings s t more more' e =
    let a = append_assoc s (0 ∷ []) more in
    let b = append_assoc t (0 ∷ []) more' in
    let n = length-append s (0 ∷ []) in
    let m = length-append t (0 ∷ []) in
    rw
      (
        sym a,
        sym b,
        take-append_left (s ++ (0 ∷ [])) more (length s + 1) (omega (arith, n)),
        take-append_left (t ++ (0 ∷ [])) more' (length s + 1) (omega (arith, m)),
      )
      (ground
        (arith, length-append (s ++ (0 ∷ [])) more, length-append (t ++ (0 ∷ [])) more', n, m))

-- `buffer_is_equal` on two buffers that hold strings always returns, and what it returns is true
-- exactly when the strings are the same.
pub buffer_is_equal_lem :
    (s t : Bytes) (a b : Buffer)
    → IsString s a
    → IsString t b
    → (r : Bool) × (buffer_is_equal a b ≡ ok r) × ((r ≡ true) ↔ (s ≡ t))
unfolding buffer_is_equal
buffer_is_equal_lem s t a b i j = elim (Bool-cases (a.used == b.used)) [
  | inr f ↦
      let longer : s ≢ t = λ e. ground (arith, ap length e, i.used_is, j.used_is) in
      (false, ground (arith, f), ((λ e. ground arith), (λ e. absurd (longer e))))
  | inl f ↦
      let n : length s ≡ length t = ground (arith, i.used_is, j.used_is) in
      let same = same_bytes (s ++ (0 ∷ [])) (t ++ (0 ∷ [])) in
      let compared : memory_equal a.ptr 0 b.ptr 0 a.used ≡ ok same =
        rw (i.ptr_is, j.ptr_is, i.used_is) (memory_equal_strings s t i.spare j.spare n) in
      (
        same,
        ground (arith, f, compared, i.used_is),
        (
          (λ e.
              append_cancel s t (0 ∷ []) (0 ∷ []) n
                (same_bytes_sound (s ++ (0 ∷ [])) (t ++ (0 ∷ [])) e)),
          (λ e. rw e (same_bytes_refl (t ++ (0 ∷ [])))),
        ),
      )
]

-- ===== src/Buffer/Compare.antt =====
-- buffer.c: `buffer_caseless_compare`, the order of the keys of an array.
use lighttpd_multithread.Base.{
  ℕ, zero, suc, ◌+◌, ◌-◌, ◌<◌, ◌≡◌, ◌≢◌, refl, sym, ◌∙◌, ◌⊎◌, inl, inr, false, ◌&&◌, [], ◌∷◌, leb,
  ◌==◌, if◌then◌else◌, arith, Bool-cases,
}
use lighttpd_multithread.Base.Int.{ℤ, pos, negsuc, sub_ℕ, is_zero, is_positive, is_negative, sign}
use lighttpd_multithread.Base.Memory.{Bytes}

-- `if (ca >= 'A' && ca <= 'Z') ca |= 32`: bit 5 of a letter from 'A' to 'Z' is 0.
unfoldable pub lowercase : ℕ → ℕ
lowercase c = if leb b'A' c && leb c b'Z' then c + 32 else c

-- The loop over the common length; at the end of either string the lengths decide.
unfoldable pub buffer_caseless_compare : Bytes → Bytes → ℤ
unfolding lowercase
buffer_caseless_compare [] [] = pos 0
buffer_caseless_compare [] (c ∷ b) = negsuc 0
buffer_caseless_compare (c ∷ a) [] = pos 1
buffer_caseless_compare (ca ∷ a) (cb ∷ b) =
    let rest = buffer_caseless_compare a b in
    if ca == cb
    then rest
    else if lowercase ca == lowercase cb
    then rest
    else sub_ℕ (lowercase ca) (lowercase cb)

abbrev pub lower : Bytes → Bytes
lower [] = []
lower (c ∷ s) = lowercase c ∷ lower s

-- The lexicographic order of byte strings.
abbrev pub Before : Bytes → Bytes → Type 0
Before [] [] = ⊥
Before [] (y ∷ ys) = Unit
Before (x ∷ xs) [] = ⊥
Before (x ∷ xs) (y ∷ ys) = (x < y) ⊎ ((x ≡ y) × Before xs ys)

pub Before-irrefl : (a : Bytes) → ¬ Before a a
Before-irrefl [] h = h
Before-irrefl (x ∷ a) (inl h) = omega arith
Before-irrefl (x ∷ a) (inr (e, h)) = Before-irrefl a h

pub Before-trans : (a b c : Bytes) → Before a b → Before b c → Before a c
Before-trans [] [] c h k = absurd h
Before-trans [] (y ∷ b) [] h k = absurd k
Before-trans [] (y ∷ b) (z ∷ c) h k = tt
Before-trans (x ∷ a) [] c h k = absurd h
Before-trans (x ∷ a) (y ∷ b) [] h k = absurd k
Before-trans (x ∷ a) (y ∷ b) (z ∷ c) (inl h) (inl k) = inl (omega arith)
Before-trans (x ∷ a) (y ∷ b) (z ∷ c) (inl h) (inr (e, k)) = inl (omega arith)
Before-trans (x ∷ a) (y ∷ b) (z ∷ c) (inr (e, h)) (inl k) = inl (omega arith)
Before-trans (x ∷ a) (y ∷ b) (z ∷ c) (inr (e, h)) (inr (f, k)) = inr (e ∙ f, Before-trans a b c h k)

-- What the sign of a comparison says of the two strings in lower case.
abbrev pub Decides : ℤ → Bytes → Bytes → Type 0
Decides (pos zero) a b = a ≡ b
Decides (pos (suc n)) a b = Before b a
Decides (negsuc n) a b = Before a b

Decides-cons : (r : ℤ) (x y : ℕ) (a b : Bytes) → x ≡ y → Decides r a b → Decides r (x ∷ a) (y ∷ b)
Decides-cons (pos zero) x y a b e h = ground arith
Decides-cons (pos (suc n)) x y a b e h = inr (sym e, h)
Decides-cons (negsuc n) x y a b e h = inr (e, h)

Decides-head : (x y : ℕ) (a b : Bytes) → (x == y) ≡ false → Decides (sub_ℕ x y) (x ∷ a) (y ∷ b)
Decides-head x y a b h = elim (Bool-cases (leb y x)) [
  | inl above ↦ let e : x - y ≡ suc (x - y - 1) = ground arith in rw (above, e) (inl (ground arith))
  | inr below ↦ rw below (inl (ground arith))
]

-- The result is 0 exactly when the strings are equal in lower case, negative exactly when the first
-- comes before the second in the order of their lower case forms, and positive exactly when it comes after.
pub caseless_compare-Decides :
    (a b : Bytes) → Decides (buffer_caseless_compare a b) (lower a) (lower b)
unfolding buffer_caseless_compare
caseless_compare-Decides [] [] = refl
caseless_compare-Decides [] (c ∷ b) = tt
caseless_compare-Decides (c ∷ a) [] = tt
caseless_compare-Decides (ca ∷ a) (cb ∷ b) = elim (Bool-cases (ca == cb)) [
  | inl e ↦ rw e (Decides-cons _ _ _ _ _ (ground arith) (caseless_compare-Decides a b))
  | inr d ↦ elim (Bool-cases (lowercase ca == lowercase cb)) [
    | inl e ↦ rw (d, e) (Decides-cons _ _ _ _ _ (ground arith) (caseless_compare-Decides a b))
    | inr g ↦ rw (d, g) (Decides-head _ _ _ _ g)
  ]
]

pub same_key : (a b : Bytes) → (lower a ≡ lower b) ⊎ (lower a ≢ lower b)
same_key a b =
    let d = caseless_compare-Decides a b in
    elim (sign (buffer_caseless_compare a b)) [
      | is_zero z ↦ inl (rw z at d)
      | is_positive n z ↦ inr (λ e. Before-irrefl (lower b) (rw e at (rw z at d)))
      | is_negative n z ↦ inr (λ e. Before-irrefl (lower b) (rw e at (rw z at d)))
    ]

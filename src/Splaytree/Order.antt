-- ===== src/Splaytree/Order.antt =====
-- splaytree.c: the order of the keys, and lists of entries that lie below or above a key.
use lighttpd_multithread.Base.{
  ℕ, zero, suc, ◌<◌, ◌≡◌, ◌^◌, ap, true, ltb, ltb→lt, ◌⊎◌, inl, inr, List, [], ◌∷◌, ◌++◌, arith,
}
use lighttpd_multithread.Base.Int.{pos, negsuc, sign, is_zero, is_positive, is_negative}
use mathlib.Core.Path.{subst}
use lighttpd_multithread.Splaytree.{Key, compare}

abbrev key_of : (n : ℕ) → ltb n (2 ^ 31) ≡ true → Key
key_of n h = record { number = n; below = h }

same_bound : (n : ℕ) (g h : ltb n (2 ^ 31) ≡ true) → g ≡ h
same_bound n g h = let prop : IsProp (ltb n (2 ^ 31) ≡ true) = hlevel in prop g h

same_number :
    (m n : ℕ) (g : ltb m (2 ^ 31) ≡ true) (h : ltb n (2 ^ 31) ≡ true)
    → m ≡ n
    → key_of m g ≡ key_of n h
same_number m n g h e =
    subst (λ k. (f : ltb k (2 ^ 31) ≡ true) → key_of m g ≡ key_of k f) e
      (λ f. ap (key_of m) (same_bound m g f)) h

abbrev pub Less : Key → Key → Type 0
Less a b = a.number < b.number

pub Less-trans : (a b c : Key) → Less a b → Less b c → Less a c
Less-trans a b c h g = omega (arith, h, g)

pub compare_negative : (i k : Key) (n : ℕ) → compare i k ≡ negsuc n → Less i k
unfolding compare
compare_negative i k n e = ground (arith, e)

pub compare_positive : (i k : Key) (n : ℕ) → compare i k ≡ pos (suc n) → Less k i
unfolding compare
compare_positive i k n e = ground (arith, e)

pub compare_equal : (i k : Key) → compare i k ≡ pos zero → i ≡ k
unfolding compare
compare_equal i k e = same_number i.number k.number i.below k.below (ground (arith, e))

-- The difference of two keys is the number that C computes: it fits in an `int` of 32 bits.
compare_fits :
    (i k : Key)
    → ((n : ℕ) × (compare i k ≡ pos n) × (n < 2 ^ 31))
      ⊎ ((n : ℕ) × (compare i k ≡ negsuc n) × (n < 2 ^ 31))
unfolding compare
compare_fits i k = elim (sign (compare i k)) [
  | is_zero z ↦ inl (0, z, omega arith)
  | is_positive n z ↦ inl (suc n, z, ground (arith, z, ltb→lt _ _ i.below))
  | is_negative n z ↦ inr (n, z, ground (arith, z, ltb→lt _ _ k.below))
]

module _ {V : Type 0} where
  abbrev pub AllBelow : Key → List (Key × V) → Type 0
  AllBelow i [] = Unit
  AllBelow i (x ∷ xs) = Less x.0 i × AllBelow i xs

  abbrev pub AllAbove : Key → List (Key × V) → Type 0
  AllAbove i [] = Unit
  AllAbove i (x ∷ xs) = Less i x.0 × AllAbove i xs

  -- Each key is below all that come after it.
  abbrev pub Increasing : List (Key × V) → Type 0
  Increasing [] = Unit
  Increasing (x ∷ xs) = AllAbove x.0 xs × Increasing xs

  pub append-AllBelow :
      (i : Key) (xs ys : List (Key × V)) → AllBelow i xs → AllBelow i ys → AllBelow i (xs ++ ys)
  append-AllBelow i [] ys h g = g
  append-AllBelow i (x ∷ xs) ys h g = (h.0, append-AllBelow i xs ys h.1 g)

  pub append-AllAbove :
      (i : Key) (xs ys : List (Key × V)) → AllAbove i xs → AllAbove i ys → AllAbove i (xs ++ ys)
  append-AllAbove i [] ys h g = g
  append-AllAbove i (x ∷ xs) ys h g = (h.0, append-AllAbove i xs ys h.1 g)

  pub AllAbove-append :
      (i : Key) (xs ys : List (Key × V)) → AllAbove i (xs ++ ys) → AllAbove i xs × AllAbove i ys
  AllAbove-append i [] ys h = (tt, h)
  AllAbove-append i (x ∷ xs) ys h = let (a, b) = AllAbove-append i xs ys h.1 in ((h.0, a), b)

  pub AllBelow-trans : (i k : Key) (xs : List (Key × V)) → Less i k → AllBelow i xs → AllBelow k xs
  AllBelow-trans i k [] e h = tt
  AllBelow-trans i k (x ∷ xs) e h = (Less-trans x.0 i k h.0 e, AllBelow-trans i k xs e h.1)

  pub AllAbove-trans : (i k : Key) (xs : List (Key × V)) → Less k i → AllAbove i xs → AllAbove k xs
  AllAbove-trans i k [] e h = tt
  AllAbove-trans i k (x ∷ xs) e h = (Less-trans k i x.0 e h.0, AllAbove-trans i k xs e h.1)

  -- An increasing list around one of its entries.
  pub Increasing-middle :
      (xs ys : List (Key × V)) (k : Key) (d : V)
      → Increasing (xs ++ ((k, d) ∷ ys))
      → AllBelow k xs × AllAbove k ys
  Increasing-middle [] ys k d h = (tt, h.0)
  Increasing-middle (x ∷ xs) ys k d h =
      let (a, b) = Increasing-middle xs ys k d h.1 in
      (((AllAbove-append x.0 xs ((k, d) ∷ ys) h.0).1.0, a), b)

  pub Increasing-append :
      (xs ys : List (Key × V)) → Increasing (xs ++ ys) → Increasing xs × Increasing ys
  Increasing-append [] ys h = (tt, h)
  Increasing-append (x ∷ xs) ys h =
      let (a, b) = Increasing-append xs ys h.1 in (((AllAbove-append x.0 xs ys h.0).0, a), b)

  -- An entry put between what is below it and what is above it.
  pub insert-Increasing :
      (xs ys : List (Key × V)) (i : Key) (d : V)
      → Increasing (xs ++ ys)
      → AllBelow i xs
      → AllAbove i ys
      → Increasing (xs ++ ((i, d) ∷ ys))
  insert-Increasing [] ys i d h a b = (b, h)
  insert-Increasing (x ∷ xs) ys i d h a b =
      let (c, e) = AllAbove-append x.0 xs ys h.0 in
      (append-AllAbove x.0 xs ((i, d) ∷ ys) c (a.0, e), insert-Increasing xs ys i d h.1 a.1 b)

pub Less-irrefl : (a : Key) → Less a a → ⊥
Less-irrefl a h = omega (arith, h)

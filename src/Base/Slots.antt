-- ===== src/Base/Slots.antt =====
-- Reads after writes, insertions and removals, with a default for what is out of range.
use lighttpd_multithread.Base.Lists.{length, get_elem?, get_or, set, take, drop}
use Prim.Native.Nat.{ℕ, zero, suc, ◌+◌, ◌≤◌, ◌<◌}
use mathlib.Core.Path.{◌≡◌, refl, ap}
use mathlib.Core.Logic.{◌≢◌}
use mathlib.Core.Option.{some}
use mathlib.Core.List.{List, [], ◌∷◌, ◌++◌}
use native.Mathlib.Omega.{arith}

module _ {ℓ} {A : Type ℓ} where
  pub get_elem?-middle :
      (front : List A) (x : A) (back : List A) (n : ℕ)
      → n ≡ length front
      → get_elem? (front ++ (x ∷ back)) n ≡ some x
  get_elem?-middle [] x back zero e = refl
  get_elem?-middle [] x back (suc n) e = absurd (omega arith)
  get_elem?-middle (y ∷ front) x back zero e = absurd (omega arith)
  get_elem?-middle (y ∷ front) x back (suc n) e = get_elem?-middle front x back n (omega arith)

  pub get_or-set_self :
      (xs : List A) (i : ℕ) (v d : A) → i < length xs → get_or (set xs i v) i d ≡ v
  get_or-set_self [] i v d h = absurd (omega arith)
  get_or-set_self (x ∷ xs) zero v d h = refl
  get_or-set_self (x ∷ xs) (suc i) v d h = get_or-set_self xs i v d (omega arith)

  pub get_or-set_ne :
      (xs : List A) (i j : ℕ) (v d : A) → i ≢ j → get_or (set xs i v) j d ≡ get_or xs j d
  get_or-set_ne [] i j v d h = refl
  get_or-set_ne (x ∷ xs) zero zero v d h = absurd (h refl)
  get_or-set_ne (x ∷ xs) zero (suc j) v d h = refl
  get_or-set_ne (x ∷ xs) (suc i) zero v d h = refl
  get_or-set_ne (x ∷ xs) (suc i) (suc j) v d h = get_or-set_ne xs i j v d (λ e. h (ap suc e))

  pub get_or-append_left :
      (xs ys : List A) (i : ℕ) (d : A) → i < length xs → get_or (xs ++ ys) i d ≡ get_or xs i d
  get_or-append_left [] ys i d h = absurd (omega arith)
  get_or-append_left (x ∷ xs) ys zero d h = refl
  get_or-append_left (x ∷ xs) ys (suc i) d h = get_or-append_left xs ys i d (omega arith)

  -- `v` put in at place `r`: what stood from there on moves one place up.
  abbrev pub insert_at : List A → ℕ → A → List A
  insert_at xs r v = take r xs ++ (v ∷ drop r xs)

  pub insert_at_before :
      (xs : List A) (r i : ℕ) (v d : A)
      → r ≤ length xs
      → i < r
      → get_or (insert_at xs r v) i d ≡ get_or xs i d
  insert_at_before xs zero i v d h g = absurd (omega arith)
  insert_at_before [] (suc r) i v d h g = absurd (omega arith)
  insert_at_before (x ∷ xs) (suc r) zero v d h g = refl
  insert_at_before (x ∷ xs) (suc r) (suc i) v d h g =
      insert_at_before xs r i v d (omega arith) (omega arith)

  pub insert_at_here :
      (xs : List A) (r : ℕ) (v d : A) → r ≤ length xs → get_or (insert_at xs r v) r d ≡ v
  insert_at_here xs zero v d h = refl
  insert_at_here [] (suc r) v d h = absurd (omega arith)
  insert_at_here (x ∷ xs) (suc r) v d h = insert_at_here xs r v d (omega arith)

  pub insert_at_after :
      (xs : List A) (r i : ℕ) (v d : A)
      → r ≤ length xs
      → r ≤ i
      → get_or (insert_at xs r v) (suc i) d ≡ get_or xs i d
  insert_at_after xs zero i v d h g = refl
  insert_at_after [] (suc r) i v d h g = absurd (omega arith)
  insert_at_after (x ∷ xs) (suc r) zero v d h g = absurd (omega arith)
  insert_at_after (x ∷ xs) (suc r) (suc i) v d h g =
      insert_at_after xs r i v d (omega arith) (omega arith)

  pub length-insert_at :
      (xs : List A) (r : ℕ) (v : A) → r ≤ length xs → length (insert_at xs r v) ≡ length xs + 1
  length-insert_at xs zero v h = omega arith
  length-insert_at [] (suc r) v h = absurd (omega arith)
  length-insert_at (x ∷ xs) (suc r) v h = omega (arith, length-insert_at xs r v (omega arith))

  -- Place `r` taken out: what stood behind it moves one place down.
  abbrev pub remove_at : List A → ℕ → List A
  remove_at [] r = []
  remove_at (x ∷ xs) zero = xs
  remove_at (x ∷ xs) (suc r) = x ∷ remove_at xs r

  drop-nil : (n : ℕ) → drop {A = A} n [] ≡ []
  drop-nil zero = refl
  drop-nil (suc n) = refl

  pub remove_at-take-drop : (xs : List A) (r : ℕ) → take r xs ++ drop (r + 1) xs ≡ remove_at xs r
  remove_at-take-drop [] zero = rw drop-nil
  remove_at-take-drop [] (suc r) = rw drop-nil
  remove_at-take-drop (x ∷ xs) zero = refl
  remove_at-take-drop (x ∷ xs) (suc r) =
      let e : suc r + 1 ≡ suc (r + 1) = omega arith in rw e (ap (◌∷◌ x) (remove_at-take-drop xs r))

  pub remove_at_before :
      (xs : List A) (r i : ℕ) (d : A) → i < r → get_or (remove_at xs r) i d ≡ get_or xs i d
  remove_at_before [] r i d g = refl
  remove_at_before (x ∷ xs) zero i d g = absurd (omega arith)
  remove_at_before (x ∷ xs) (suc r) zero d g = refl
  remove_at_before (x ∷ xs) (suc r) (suc i) d g = remove_at_before xs r i d (omega arith)

  pub remove_at_after :
      (xs : List A) (r i : ℕ) (d : A) → r ≤ i → get_or (remove_at xs r) i d ≡ get_or xs (suc i) d
  remove_at_after [] r i d g = refl
  remove_at_after (x ∷ xs) zero i d g = refl
  remove_at_after (x ∷ xs) (suc r) zero d g = absurd (omega arith)
  remove_at_after (x ∷ xs) (suc r) (suc i) d g = remove_at_after xs r i d (omega arith)

  pub length-remove_at :
      (xs : List A) (r : ℕ) → r < length xs → length (remove_at xs r) + 1 ≡ length xs
  length-remove_at [] r h = absurd (omega arith)
  length-remove_at (x ∷ xs) zero h = omega arith
  length-remove_at (x ∷ xs) (suc r) h = omega (arith, length-remove_at xs r (omega arith))

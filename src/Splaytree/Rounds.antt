-- ===== src/Splaytree/Rounds.antt =====
-- splaytree.c: each round of the loop keeps the entries, and gets to a smaller tree.
use lighttpd_multithread.Base.{
  ℕ, ◌+◌, ◌<◌, ◌≡◌, refl, sym, ap, List, [], ◌∷◌, ◌++◌, append_assoc, length, length-append, arith,
}
use lighttpd_multithread.Base.Int.{sign, is_zero, is_positive, is_negative}
use lighttpd_multithread.Splaytree.{
  Key, Tree, empty, node, node_size, count, compare, Linked, Links, link_left, link_right, Turn,
  stop, down, rotated_left, rotated_right, turn_left, turn_right, turn,
}
use lighttpd_multithread.Splaytree.Contents.{
  inorder, IsSized, node_size-length, left_entries, right_entries, left_entries-append,
  right_entries-append, AreSized, append-AreSized,
}

module _ {V : Type 0} where
  abbrev pub IsBuilt : Links V → Type 0
  IsBuilt b =
      (b.l_size ≡ length (left_entries b.lefts))
      × (b.r_size ≡ length (right_entries b.rights))
      × AreSized b.lefts
      × AreSized b.rights

  -- All entries, with the tree that is still to be searched between the two that are built.
  abbrev pub entries : Tree V → Links V → List (Key × V)
  entries t b = left_entries b.lefts ++ (inorder t ++ right_entries b.rights)

  link_right_lem :
      (l : Tree V) (k : Key) (s : ℕ) (d : V) (r : Tree V) (b : Links V)
      → IsBuilt b
      → IsSized r
      → IsBuilt (link_right b k d r) × (entries l (link_right b k d r) ≡ entries (node l k s d r) b)
  link_right_lem l k s d r b h g =
      let p : Linked V = record { subtree = r; key = k; value = d } in
      let e = right_entries-append b.rights (p ∷ []) in
      let n = length-append ((k, d) ∷ inorder r) (right_entries b.rights) in
      (
        (
          h.0,
          omega (arith, h.1, node_size-length r g, ap length e, n),
          h.2,
          append-AreSized b.rights (p ∷ []) h.3 (g, tt),
        ),
        simp (e, append_assoc),
      )

  link_left_lem :
      (l : Tree V) (k : Key) (s : ℕ) (d : V) (r : Tree V) (b : Links V)
      → IsBuilt b
      → IsSized l
      → IsBuilt (link_left b l k d) × (entries r (link_left b l k d) ≡ entries (node l k s d r) b)
  link_left_lem l k s d r b h g =
      let p : Linked V = record { subtree = l; key = k; value = d } in
      let e = left_entries-append b.lefts (p ∷ []) in
      let n = length-append (left_entries b.lefts) (inorder l ++ ((k, d) ∷ [])) in
      let m = length-append (inorder l) ((k, d) ∷ []) in
      (
        (
          omega (arith, h.0, node_size-length l g, ap length e, n, m),
          h.1,
          append-AreSized b.lefts (p ∷ []) h.2 (g, tt),
          h.3,
        ),
        simp (e, append_assoc),
      )

  -- A round does not correct the size of the node that it ends at.
  abbrev pub BelowIsSized : Tree V → Type 0
  BelowIsSized empty = ⊥
  BelowIsSized (node l k s d r) = IsSized l × IsSized r

  -- What a round from `n` nodes with the entries `xs` comes to.
  abbrev pub Goes : ℕ → List (Key × V) → Turn V → Type 0
  Goes n xs (stop t b) = (entries t b ≡ xs) × BelowIsSized t × IsBuilt b
  Goes n xs (down t b) = (count t < n) × (0 < count t) × (entries t b ≡ xs) × IsSized t × IsBuilt b

  rotated_right-Goes :
      (l : Tree V) (k : Key) (s : ℕ) (d : V) (r : Tree V) (b : Links V)
      → IsBuilt b
      → IsSized l
      → IsSized r
      → Goes (count l + count r + 1) (entries (node l k s d r) b) (rotated_right l k s d r b)
  unfolding rotated_right
  rotated_right-Goes empty k s d r b h f g = (refl, (f, g), h)
  rotated_right-Goes (node a x n v c) k s d r b h f g =
      let (i, e) = link_right_lem (node a x n v c) k s d r b h g in
      (omega arith, omega arith, e, f, i)

  rotated_left-Goes :
      (l : Tree V) (k : Key) (s : ℕ) (d : V) (r : Tree V) (b : Links V)
      → IsBuilt b
      → IsSized l
      → IsSized r
      → Goes (count l + count r + 1) (entries (node l k s d r) b) (rotated_left l k s d r b)
  unfolding rotated_left
  rotated_left-Goes l k s d empty b h f g = (refl, (f, g), h)
  rotated_left-Goes l k s d (node a x n v c) b h f g =
      let (i, e) = link_left_lem l k s d (node a x n v c) b h f in
      (omega arith, omega arith, e, g, i)

  Goes-subst :
      (n m : ℕ) (xs ys : List (Key × V)) (t : Turn V) → n ≡ m → xs ≡ ys → Goes n xs t → Goes m ys t
  Goes-subst n m xs ys t e f g = rw (sym e, sym f) g

  turn_left-Goes :
      (i : Key) (l : Tree V) (k : Key) (s : ℕ) (d : V) (r : Tree V) (b : Links V)
      → IsBuilt b
      → IsSized l
      → IsSized r
      → Goes (count l + count r + 1) (entries (node l k s d r) b) (turn_left i l k s d r b)
  unfolding turn_left
  turn_left-Goes i empty k s d r b h f g = (refl, (tt, g), h)
  turn_left-Goes i (node ll lk ls ld lr) k s d r b h f g =
      let t = node lr k (node_size lr + node_size r + 1) d r in
      let straight = link_right_lem (node ll lk ls ld lr) k s d r b h g in
      let sized : IsSized t =
        (omega (arith, node_size-length lr f.2, node_size-length r g), f.2, g) in
      let rotated = rotated_right-Goes ll lk ls ld t b h f.1 sized in
      elim (sign (compare i lk)) [
        | is_zero z ↦ rw (Goes, z) (omega arith, omega arith, straight.1, f, straight.0)
        | is_positive n z ↦ rw (Goes, z) (omega arith, omega arith, straight.1, f, straight.0)
        | is_negative n z ↦
            rw (Goes, z) (Goes-subst _ _ _ _ _ (omega arith) (simp append_assoc) rotated)
      ]

  turn_right-Goes :
      (i : Key) (l : Tree V) (k : Key) (s : ℕ) (d : V) (r : Tree V) (b : Links V)
      → IsBuilt b
      → IsSized l
      → IsSized r
      → Goes (count l + count r + 1) (entries (node l k s d r) b) (turn_right i l k s d r b)
  unfolding turn_right
  turn_right-Goes i l k s d empty b h f g = (refl, (f, tt), h)
  turn_right-Goes i l k s d (node rl rk rs rd rr) b h f g =
      let t = node l k (node_size l + node_size rl + 1) d rl in
      let straight = link_left_lem l k s d (node rl rk rs rd rr) b h f in
      let sized : IsSized t =
        (omega (arith, node_size-length rl g.1, node_size-length l f), f, g.1) in
      let rotated = rotated_left-Goes t rk rs rd rr b h sized g.2 in
      elim (sign (compare i rk)) [
        | is_zero z ↦ rw (Goes, z) (omega arith, omega arith, straight.1, g, straight.0)
        | is_negative n z ↦ rw (Goes, z) (omega arith, omega arith, straight.1, g, straight.0)
        | is_positive n z ↦
            rw (Goes, z) (Goes-subst _ _ _ _ _ (omega arith) (simp append_assoc) rotated)
      ]

  pub turn-Goes :
      (i : Key) (l : Tree V) (k : Key) (s : ℕ) (d : V) (r : Tree V) (b : Links V)
      → IsBuilt b
      → IsSized l
      → IsSized r
      → Goes (count l + count r + 1) (entries (node l k s d r) b) (turn i l k s d r b)
  unfolding turn
  turn-Goes i l k s d r b h f g = elim (sign (compare i k)) [
    | is_zero z ↦ rw (Goes, z) (refl, (f, g), h)
    | is_negative n z ↦ rw (Goes, z) (turn_left-Goes i l k s d r b h f g)
    | is_positive n z ↦ rw (Goes, z) (turn_right-Goes i l k s d r b h f g)
  ]

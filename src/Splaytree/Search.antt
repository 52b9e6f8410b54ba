-- ===== src/Splaytree/Search.antt =====
-- splaytree.c: the splay searches: what it links lies on the right side of the key.
use lighttpd_multithread.Base.{ℕ, ◌+◌, ◌≡◌, refl, ◌⊎◌, inl, inr, List, [], ◌∷◌, ◌++◌, append_assoc}
use lighttpd_multithread.Base.Int.{sign, is_zero, is_positive, is_negative}
use lighttpd_multithread.Splaytree.{
  Key, Tree, empty, node, node_size, compare, Linked, Links, link_left, link_right, Turn, stop,
  down, rotated_left, rotated_right, turn_left, turn_right, turn,
}
use lighttpd_multithread.Splaytree.Contents.{
  inorder, left_entries, right_entries, left_entries-append, right_entries-append,
}
use lighttpd_multithread.Splaytree.Order.{
  Less, compare_negative, compare_positive, compare_equal, AllBelow, AllAbove, Increasing,
  append-AllBelow, append-AllAbove, AllAbove-trans, AllBelow-trans, Increasing-middle,
}

module _ {V : Type 0} where
  -- The two trees that are built lie on their sides of the key.
  abbrev pub Parted : Key → Links V → Type 0
  Parted i b = AllBelow i (left_entries b.lefts) × AllAbove i (right_entries b.rights)

  link_right-Parted :
      (i k : Key) (d : V) (r : Tree V) (b : Links V)
      → Parted i b
      → AllAbove i ((k, d) ∷ inorder r)
      → Parted i (link_right b k d r)
  link_right-Parted i k d r b h g =
      let p : Linked V = record { subtree = r; key = k; value = d } in
      (
        h.0,
        rw (right_entries-append b.rights (p ∷ []))
            (append-AllAbove i ((k, d) ∷ inorder r) (right_entries b.rights) g h.1),
      )

  link_left-Parted :
      (i k : Key) (d : V) (l : Tree V) (b : Links V)
      → Parted i b
      → AllBelow i (inorder l ++ ((k, d) ∷ []))
      → Parted i (link_left b l k d)
  link_left-Parted i k d l b h g =
      let p : Linked V = record { subtree = l; key = k; value = d } in
      (
        rw (left_entries-append b.lefts (p ∷ []))
            (append-AllBelow i (left_entries b.lefts) (inorder l ++ ((k, d) ∷ [])) h.0 g),
        h.1,
      )

  -- The loop ends at the key, or where the subtree in which the key would be is empty.
  abbrev pub AtRoot : Key → Tree V → Type 0
  AtRoot i empty = ⊥
  AtRoot i (node l k s d r) =
      (i ≡ k) ⊎ ((Less i k × (inorder l ≡ [])) ⊎ (Less k i × (inorder r ≡ [])))

  abbrev pub Searches : Key → Turn V → Type 0
  Searches i (stop t b) = Parted i b × AtRoot i t
  Searches i (down t b) = Parted i b

  above_all :
      (i k : Key) (d : V) (xs : List (Key × V))
      → Less i k
      → AllAbove k xs
      → AllAbove i ((k, d) ∷ xs)
  above_all i k d xs h g = (h, AllAbove-trans k i xs h g)

  below_all :
      (i k : Key) (d : V) (xs : List (Key × V))
      → Less k i
      → AllBelow k xs
      → AllBelow i (xs ++ ((k, d) ∷ []))
  below_all i k d xs h g = append-AllBelow i xs ((k, d) ∷ []) (AllBelow-trans k i xs h g) (h, tt)

  rotated_right-Searches :
      (i : Key) (l : Tree V) (k : Key) (s : ℕ) (d : V) (r : Tree V) (b : Links V)
      → Parted i b
      → Less i k
      → AllAbove k (inorder r)
      → Searches i (rotated_right l k s d r b)
  unfolding rotated_right
  rotated_right-Searches i empty k s d r b h e g = (h, inr (inl (e, refl)))
  rotated_right-Searches i (node a x n v c) k s d r b h e g =
      link_right-Parted i k d r b h (above_all i k d (inorder r) e g)

  rotated_left-Searches :
      (i : Key) (l : Tree V) (k : Key) (s : ℕ) (d : V) (r : Tree V) (b : Links V)
      → Parted i b
      → Less k i
      → AllBelow k (inorder l)
      → Searches i (rotated_left l k s d r b)
  unfolding rotated_left
  rotated_left-Searches i l k s d empty b h e g = (h, inr (inr (e, refl)))
  rotated_left-Searches i l k s d (node a x n v c) b h e g =
      link_left-Parted i k d l b h (below_all i k d (inorder l) e g)

  turn_left-Searches :
      (i : Key) (l : Tree V) (k : Key) (s : ℕ) (d : V) (r : Tree V) (b : Links V)
      → Parted i b
      → Less i k
      → Increasing (inorder (node l k s d r))
      → Searches i (turn_left i l k s d r b)
  unfolding turn_left
  turn_left-Searches i empty k s d r b h e g = (h, inr (inl (e, refl)))
  turn_left-Searches i (node ll lk ls ld lr) k s d r b h e g =
      let above = (Increasing-middle (inorder (node ll lk ls ld lr)) (inorder r) k d g).1 in
      let straight = link_right-Parted i k d r b h (above_all i k d (inorder r) e above) in
      let behind = inorder lr ++ ((k, d) ∷ inorder r) in
      let f : Increasing (inorder ll ++ ((lk, ld) ∷ behind)) =
        rw (append_assoc (inorder ll) ((lk, ld) ∷ inorder lr) ((k, d) ∷ inorder r)) at g in
      let t = node lr k (node_size lr + node_size r + 1) d r in
      elim (sign (compare i lk)) [
        | is_zero z ↦ rw (Searches, z) straight
        | is_positive n z ↦ rw (Searches, z) straight
        | is_negative n z ↦
            rw (Searches, z)
              (rotated_right-Searches i ll lk ls ld t b h (compare_negative i lk n z)
                (Increasing-middle (inorder ll) behind lk ld f).1)
      ]

  turn_right-Searches :
      (i : Key) (l : Tree V) (k : Key) (s : ℕ) (d : V) (r : Tree V) (b : Links V)
      → Parted i b
      → Less k i
      → Increasing (inorder (node l k s d r))
      → Searches i (turn_right i l k s d r b)
  unfolding turn_right
  turn_right-Searches i l k s d empty b h e g = (h, inr (inr (e, refl)))
  turn_right-Searches i l k s d (node rl rk rs rd rr) b h e g =
      let below = (Increasing-middle (inorder l) (inorder (node rl rk rs rd rr)) k d g).0 in
      let straight = link_left-Parted i k d l b h (below_all i k d (inorder l) e below) in
      let before = inorder l ++ ((k, d) ∷ inorder rl) in
      let f : Increasing (before ++ ((rk, rd) ∷ inorder rr)) =
        rw (append_assoc (inorder l) ((k, d) ∷ inorder rl) ((rk, rd) ∷ inorder rr)) g in
      let t = node l k (node_size l + node_size rl + 1) d rl in
      elim (sign (compare i rk)) [
        | is_zero z ↦ rw (Searches, z) straight
        | is_negative n z ↦ rw (Searches, z) straight
        | is_positive n z ↦
            rw (Searches, z)
              (rotated_left-Searches i t rk rs rd rr b h (compare_positive i rk n z)
                (Increasing-middle before (inorder rr) rk rd f).0)
      ]

  pub turn-Searches :
      (i : Key) (l : Tree V) (k : Key) (s : ℕ) (d : V) (r : Tree V) (b : Links V)
      → Parted i b
      → Increasing (inorder (node l k s d r))
      → Searches i (turn i l k s d r b)
  unfolding turn
  turn-Searches i l k s d r b h g = elim (sign (compare i k)) [
    | is_zero z ↦ rw (Searches, z) (h, inl (compare_equal i k z))
    | is_negative n z ↦
        rw (Searches, z) (turn_left-Searches i l k s d r b h (compare_negative i k n z) g)
    | is_positive n z ↦
        rw (Searches, z) (turn_right-Searches i l k s d r b h (compare_positive i k n z) g)
  ]

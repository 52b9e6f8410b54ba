-- ===== src/Splaytree/Delete.antt =====
-- splaytree.c: a deletion takes out the entry with the key and no other.
use lighttpd_multithread.Base.{
  ℕ, ◌-◌, ◌<◌, ◌≡◌, refl, sym, ap, ◌∙◌, ◌⊎◌, inl, inr, List, [], ◌∷◌, ◌++◌, append_assoc, length,
  length-append, Outcome, ok, aborted, fault, ◌>>=◌, arith,
}
use lighttpd_multithread.Base.Int.{sign, is_zero, is_positive, is_negative}
use lighttpd_multithread.Splaytree.{
  Key, Tree, empty, node, compare, splaytree_splay, with_right, with_size, remove_root,
  delete_at_root, splaytree_delete,
}
use lighttpd_multithread.Splaytree.Contents.{inorder, IsSized}
use lighttpd_multithread.Splaytree.Splay.{IsRearranged, splaytree_splay-IsRearranged}
use lighttpd_multithread.Splaytree.Order.{
  Less-trans, Less-irrefl, compare_negative, compare_positive, compare_equal, AllBelow, AllAbove,
  Increasing, append-AllBelow, append-AllAbove, AllAbove-append, AllAbove-trans, AllBelow-trans,
  Increasing-middle, Increasing-append,
}
use lighttpd_multithread.Splaytree.Insert.{
  IsNearRoot, splaytree_splay-IsNearRoot, below_root, above_root,
}

module _ {V : Type 0} where
  AllBelow-append :
      (i : Key) (xs ys : List (Key × V)) → AllBelow i (xs ++ ys) → AllBelow i xs × AllBelow i ys
  AllBelow-append i [] ys h = (tt, h)
  AllBelow-append i (x ∷ xs) ys h = let (a, b) = AllBelow-append i xs ys h.1 in ((h.0, a), b)

  nothing_between : (i : Key) (xs : List (Key × V)) → AllBelow i xs → AllAbove i xs → xs ≡ []
  nothing_between i [] h g = refl
  nothing_between i (x ∷ xs) h g = absurd (Less-irrefl i (Less-trans i x.0 i g.0 h.0))

  -- Right sizes, but for the root.
  abbrev HasSizedParts : Tree V → Type 0
  HasSizedParts empty = Unit
  HasSizedParts (node l k s d r) = IsSized l × IsSized r

  abbrev Removes : List (Key × V) → Outcome (Tree V) → Type 0
  Removes xs (ok x) = (inorder x ≡ xs) × HasSizedParts x
  Removes xs aborted = ⊥
  Removes xs fault = ⊥

  -- All of `l` is below the key, so the splay leaves nothing to the right of its root.
  join_parts :
      (i : Key) (l r u : Tree V)
      → 0 < length (inorder l)
      → AllBelow i (inorder l)
      → IsSized r
      → inorder u ≡ inorder l
      → IsSized u
      → IsNearRoot i (ok u)
      → Removes (inorder l ++ inorder r) (ok (with_right u r))
  join_parts i l r empty p b h e g a = absurd (omega (arith, ap length e))
  join_parts i l r (node ul k s d ur) p b h e g a =
      let all : AllBelow i (inorder ul ++ ((k, d) ∷ inorder ur)) = rw e b in
      let (_, here) = AllBelow-append i (inorder ul) ((k, d) ∷ inorder ur) all in
      let none_behind =
        nothing_between i (inorder ur) here.1 (above_root i k (inorder ul) (inorder ur) a here.0) in
      let f : inorder ul ++ ((k, d) ∷ []) ≡ inorder l = rw none_behind at e in
      (
        sym (append_assoc (inorder ul) ((k, d) ∷ []) (inorder r))
            ∙ ap (λ (xs : List (Key × V)). xs ++ inorder r) f,
        (g.1, h),
      )

  remove_root-Removes :
      (l : Tree V) (k : Key) (s : ℕ) (d : V) (r : Tree V) (i : Key)
      → IsSized l
      → IsSized r
      → Increasing (inorder l)
      → AllBelow i (inorder l)
      → Removes (inorder l ++ inorder r) (remove_root (node l k s d r) i)
  unfolding remove_root
  remove_root-Removes empty k s d empty i h g o b = (refl, tt)
  remove_root-Removes empty k s d (node a x n v c) i h g o b = (refl, (g.1, g.2))
  remove_root-Removes (node a x n v c) k s d r i h g o b =
      let l = node a x n v c in
      finish l r (splaytree_splay l i)
        (omega (arith, length-append (inorder a) ((x, v) ∷ inorder c))) b g
        (splaytree_splay-IsRearranged l i h) (splaytree_splay-IsNearRoot l i h o)
    where
      finish :
          (l r : Tree V) (u : Outcome (Tree V))
          → 0 < length (inorder l)
          → AllBelow i (inorder l)
          → IsSized r
          → IsRearranged l u
          → IsNearRoot i u
          → Removes (inorder l ++ inorder r) (u >>= λ t. ok (with_right t r))
      finish l r (ok u) p b g e a = join_parts i l r u p b g e.0 e.1 a
      finish l r aborted p b g e a = absurd e
      finish l r fault p b g e a = absurd e

  remove-Increasing :
      (xs ys : List (Key × V)) (i : Key) (d : V)
      → Increasing (xs ++ ((i, d) ∷ ys))
      → Increasing (xs ++ ys)
  remove-Increasing [] ys i d h = h.1
  remove-Increasing (x ∷ xs) ys i d h =
      let (a, b) = AllAbove-append x.0 xs ((i, d) ∷ ys) h.0 in
      (append-AllAbove x.0 xs ys a b.1, remove-Increasing xs ys i d h.1)

  -- The sizes and the order are right. Either the entry with the key is taken out, or there was none: the entries
  -- are the same, and the key would stand between two of them.
  abbrev pub Deletes : Tree V → Key → Outcome (Tree V) → Type 0
  Deletes t i (ok u) =
      IsSized u
      × Increasing (inorder u)
      × (((xs : List (Key × V)) × (ys : List (Key × V)) × (d : V) × (inorder t
              ≡ xs ++ ((i, d) ∷ ys))
            × (inorder u ≡ xs ++ ys))
          ⊎ ((xs : List (Key × V)) × (ys : List (Key × V)) × (inorder t ≡ xs ++ ys)
              × (inorder u ≡ xs ++ ys)
              × AllBelow i xs
              × AllAbove i ys))
  Deletes t i aborted = ⊥
  Deletes t i fault = ⊥

  with_size-IsSized :
      (x : Tree V) (n : ℕ)
      → HasSizedParts x
      → n ≡ length (inorder x)
      → IsSized (with_size x n) × (inorder (with_size x n) ≡ inorder x)
  with_size-IsSized empty n h e = (tt, refl)
  with_size-IsSized (node l k s d r) n h e =
      ((omega (arith, length-append (inorder l) ((k, d) ∷ inorder r)), h.0, h.1), refl)

  sized_root :
      (t : Tree V) (xs ys : List (Key × V)) (i : Key) (d : V) (n : ℕ) (o : Outcome (Tree V))
      → inorder t ≡ xs ++ ((i, d) ∷ ys)
      → n ≡ length (inorder t)
      → Increasing (inorder t)
      → Removes (xs ++ ys) o
      → Deletes t i (o >>= λ x. ok (with_size x (n - 1)))
  sized_root t xs ys i d n (ok x) e m o h =
      let a = length-append xs ((i, d) ∷ ys) in
      let (s, f) =
        with_size-IsSized x (n - 1) h.1
          (omega (arith, ap length e, ap length h.0, a, length-append xs ys)) in
      let below = remove-Increasing xs ys i d (rw e at o) in
      (s, rw (f, h.0) below, inl (xs, ys, d, e, f ∙ h.0))
  sized_root t xs ys i d n aborted e m o h = absurd h
  sized_root t xs ys i d n fault e m o h = absurd h

  delete_at_root-Deletes :
      (t t' : Tree V) (i : Key) (n : ℕ)
      → 0 < length (inorder t)
      → Increasing (inorder t)
      → n ≡ length (inorder t)
      → inorder t' ≡ inorder t
      → IsSized t'
      → IsNearRoot i (ok t')
      → Deletes t i (delete_at_root t' n i)
  unfolding delete_at_root
  delete_at_root-Deletes t empty i n p o m e g a = absurd (omega (arith, ap length e))
  delete_at_root-Deletes t (node l k s d r) i n p o m e g a =
      let f : Increasing (inorder l ++ ((k, d) ∷ inorder r)) = rw e o in
      let (below, above) = Increasing-middle (inorder l) (inorder r) k d f in
      let j = append_assoc (inorder l) ((k, d) ∷ []) (inorder r) in
      elim (sign (compare i k)) [
        | is_zero z ↦
            let same = compare_equal i k z in
            rw (Deletes, z)
              (sized_root t (inorder l) (inorder r) i d n (remove_root (node l k s d r) i)
                (rw same (sym e)) m o
                (remove_root-Removes l k s d r i g.1 g.2
                  (Increasing-append (inorder l) ((k, d) ∷ inorder r) f).0 (rw same below)))
        | is_negative q z ↦
            let h = compare_negative i k q z in
            rw (Deletes, z)
              (
                g,
                f,
                inr (
                  inorder l,
                  (k, d) ∷ inorder r,
                  sym e,
                  refl,
                  below_root i k (inorder l) (inorder r) a h,
                  (h, AllAbove-trans k i (inorder r) h above),
                ),
              )
        | is_positive q z ↦
            let h = compare_positive i k q z in
            rw (Deletes, z)
              (
                g,
                f,
                inr (
                  inorder l ++ ((k, d) ∷ []),
                  inorder r,
                  sym e ∙ sym j,
                  sym j,
                  append-AllBelow i (inorder l) ((k, d) ∷ [])
                      (AllBelow-trans k i (inorder l) h below) (h, tt),
                  above_root i k (inorder l) (inorder r) a h,
                ),
              )
      ]

  -- `splaytree_delete`, for keys that are not negative and on a tree in search order with right sizes, always returns a tree that is in
  -- search order with right sizes again. Where the key was in the tree, its entry is taken out and
  -- the others stay in their order; where it was not, the entries are the same.
  pub splaytree_delete-Deletes :
      (t : Tree V) (i : Key)
      → IsSized t
      → Increasing (inorder t)
      → Deletes t i (splaytree_delete t i)
  unfolding splaytree_delete
  splaytree_delete-Deletes empty i h o = (tt, tt, inr ([], [], refl, refl, tt, tt))
  splaytree_delete-Deletes (node l k s d r) i h o =
      let t = node l k s d r in
      let n = length-append (inorder l) ((k, d) ∷ inorder r) in
      finish t s (splaytree_splay t i) (omega (arith, n)) o (omega (arith, n, h.0))
        (splaytree_splay-IsRearranged t i h) (splaytree_splay-IsNearRoot t i h o)
    where
      finish :
          (t : Tree V) (n : ℕ) (u : Outcome (Tree V))
          → 0 < length (inorder t)
          → Increasing (inorder t)
          → n ≡ length (inorder t)
          → IsRearranged t u
          → IsNearRoot i u
          → Deletes t i (u >>= λ v. delete_at_root v n i)
      finish t n (ok u) p o m e a = delete_at_root-Deletes t u i n p o m e.0 e.1 a
      finish t n aborted p o m e a = absurd e
      finish t n fault p o m e a = absurd e

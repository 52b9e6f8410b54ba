-- ===== src/Splaytree/Insert.antt =====
-- splaytree.c: an insertion puts the entry where its key belongs.
use lighttpd_multithread.Base.{
  ℕ, zero, suc, ◌+◌, ◌≤◌, ◌<◌, ◌≡◌, refl, sym, ◌∙◌, ◌⊎◌, inl, inr, List, [], ◌∷◌, ◌++◌,
  append_assoc, append-nil, length-append, Outcome, ok, aborted, fault, ◌>>=◌, arith,
}
use lighttpd_multithread.Base.Int.{sign, is_zero, is_positive, is_negative}
use lighttpd_multithread.Splaytree.{
  Key, Tree, empty, node, node_size, count, compare, Links, no_links, splay_loop, Turn, stop, down,
  turn, assemble, splaytree_splay, insert_at_root, splaytree_insert,
}
use lighttpd_multithread.Splaytree.Contents.{
  inorder, IsSized, node_size-length, left_entries, right_entries, inorder-assemble_left,
  inorder-assemble_right,
}
use lighttpd_multithread.Splaytree.Rounds.{IsBuilt, entries, Goes, turn-Goes}
use lighttpd_multithread.Splaytree.Splay.{IsRearranged, splaytree_splay-IsRearranged}
use lighttpd_multithread.Splaytree.Order.{
  Less, Less-trans, Less-irrefl, compare_negative, compare_positive, compare_equal, AllBelow,
  AllAbove, Increasing, append-AllBelow, AllAbove-trans, AllBelow-trans, Increasing-middle,
  Increasing-append, insert-Increasing,
}
use lighttpd_multithread.Splaytree.Search.{Parted, AtRoot, Searches, turn-Searches}

module _ {V : Type 0} where
  abbrev Finds : Key → Outcome (Tree V × Links V) → Type 0
  Finds i (ok (t, b)) = Parted i b × AtRoot i t
  Finds i aborted = ⊥
  Finds i fault = ⊥

  after_round :
      (i : Key) (again : Tree V → Links V → Outcome (Tree V × Links V)) (fuel n : ℕ)
      (xs : List (Key × V))
      → ((t : Tree V) (b : Links V)
          → count t ≤ fuel
          → 0 < count t
          → IsBuilt b
          → IsSized t
          → Increasing (entries t b)
          → Parted i b
          → Finds i (again t b))
      → n ≤ suc fuel
      → Increasing xs
      → (u : Turn V) → Goes n xs u
      → Searches i u
      → Finds i (elim u [ stop t b ↦ ok (t, b) | down t b ↦ again t b ])
  after_round i again fuel n xs h m o (stop t b) g s = s
  after_round i again fuel n xs h m o (down t b) g s =
      h t b (omega (arith, g.0)) g.1 g.4 g.3 (rw g.2 o) s

  splay_loop-Finds :
      (fuel : ℕ) (i : Key) (t : Tree V) (b : Links V)
      → count t ≤ fuel
      → 0 < count t
      → IsBuilt b
      → IsSized t
      → Increasing (entries t b)
      → Parted i b
      → Finds i (splay_loop fuel i t b)
  unfolding splay_loop
  splay_loop-Finds zero i t b m p h g o s = absurd (omega arith)
  splay_loop-Finds (suc fuel) i empty b m p h g o s = absurd (omega arith)
  splay_loop-Finds (suc fuel) i (node l k s d r) b m p h g o q =
      let here =
        (Increasing-append (inorder (node l k s d r)) (right_entries b.rights)
          (Increasing-append (left_entries b.lefts) _ o).1).0 in
      after_round i (splay_loop fuel i) fuel _ _ (λ t c. splay_loop-Finds fuel i t c) m o
        (turn i l k s d r b) (turn-Goes i l k s d r b h g.1 g.2)
        (turn-Searches i l k s d r b q here)

  -- The key is at the root, or it would come right before or right behind the root.
  abbrev pub IsNearRoot : Key → Outcome (Tree V) → Type 0
  IsNearRoot i (ok empty) = Unit
  IsNearRoot i (ok (node l k s d r)) =
      (i ≡ k) ⊎ ((Less i k × AllBelow i (inorder l)) ⊎ (Less k i × AllAbove i (inorder r)))
  IsNearRoot i aborted = ⊥
  IsNearRoot i fault = ⊥

  assemble-IsNearRoot :
      (i : Key) (t : Tree V) (b : Links V) → Parted i b → AtRoot i t → IsNearRoot i (assemble t b)
  unfolding assemble
  assemble-IsNearRoot i empty b h a = absurd a
  assemble-IsNearRoot i (node l k s d r) b h (inl e) = inl e
  assemble-IsNearRoot i (node l k s d r) b h (inr (inl (e, f))) =
      let x = inorder-assemble_left b.lefts (b.l_size + node_size l) l in
      inr (inl (e, rw (x, f, append-nil (left_entries b.lefts)) h.0))
  assemble-IsNearRoot i (node l k s d r) b h (inr (inr (e, f))) =
      let x = inorder-assemble_right b.rights (b.r_size + node_size r) r in
      inr (inr (e, rw (x, f) h.1))

  pub splaytree_splay-IsNearRoot :
      (t : Tree V) (i : Key)
      → IsSized t
      → Increasing (inorder t)
      → IsNearRoot i (splaytree_splay t i)
  unfolding splaytree_splay
  splaytree_splay-IsNearRoot empty i h o = tt
  splaytree_splay-IsNearRoot (node l k s d r) i h o =
      let t = node l k s d r in
      finish i (splay_loop (count t) i t no_links) (
        splay_loop-Finds (count t) i t no_links (omega arith) (omega arith) (refl, refl, tt, tt) h
          (rw (append-nil (inorder t)) o) (tt, tt))
    where
      finish :
          (i : Key) (o : Outcome (Tree V × Links V))
          → Finds i o
          → IsNearRoot i (o >>= λ p. assemble p.0 p.1)
      finish i (ok (t, b)) e = assemble-IsNearRoot i t b e.0 e.1
      finish i aborted e = absurd e
      finish i fault e = absurd e

  -- The tree is in order and its sizes are right. Either the key was there and the entries are the
  -- same, or the new entry stands between those below and those above its key.
  abbrev pub Inserts : Tree V → Key → V → Outcome (Tree V) → Type 0
  Inserts t i v (ok u) =
      IsSized u
      × Increasing (inorder u)
      × (((xs : List (Key × V)) × (ys : List (Key × V)) × (d : V) × (inorder t
              ≡ xs ++ ((i, d) ∷ ys))
            × (inorder u ≡ inorder t))
          ⊎ ((xs : List (Key × V)) × (ys : List (Key × V)) × (inorder t ≡ xs ++ ys)
              × (inorder u ≡ xs ++ ((i, v) ∷ ys))
              × AllBelow i xs
              × AllAbove i ys))
  Inserts t i v aborted = ⊥
  Inserts t i v fault = ⊥

  pub below_root :
      (i k : Key) (l r : List (Key × V))
      → (i ≡ k) ⊎ ((Less i k × AllBelow i l) ⊎ (Less k i × AllAbove i r))
      → Less i k
      → AllBelow i l
  below_root i k l r (inl e) h = absurd (Less-irrefl k (rw e at h))
  below_root i k l r (inr (inl a)) h = a.1
  below_root i k l r (inr (inr a)) h = absurd (Less-irrefl i (Less-trans i k i h a.0))

  pub above_root :
      (i k : Key) (l r : List (Key × V))
      → (i ≡ k) ⊎ ((Less i k × AllBelow i l) ⊎ (Less k i × AllAbove i r))
      → Less k i
      → AllAbove i r
  above_root i k l r (inl e) h = absurd (Less-irrefl k (rw e at h))
  above_root i k l r (inr (inl a)) h = absurd (Less-irrefl i (Less-trans i k i a.0 h))
  above_root i k l r (inr (inr a)) h = a.1

  insert_at_root-Inserts :
      (t t' : Tree V) (i : Key) (v : V)
      → Increasing (inorder t)
      → inorder t' ≡ inorder t
      → IsSized t'
      → IsNearRoot i (ok t')
      → Inserts t i v (insert_at_root t' i v)
  unfolding insert_at_root
  insert_at_root-Inserts t empty i v o e g a =
      ((refl, tt, tt), (tt, tt), inr ([], [], sym e, refl, tt, tt))
  insert_at_root-Inserts t (node l k s d r) i v o e g a =
      let f : Increasing (inorder l ++ ((k, d) ∷ inorder r)) = rw e o in
      let (below, above) = Increasing-middle (inorder l) (inorder r) k d f in
      let n = node_size-length l g.1 in
      let m = node_size-length r g.2 in
      let j = append_assoc (inorder l) ((k, d) ∷ []) (inorder r) in
      let c = length-append (inorder l) ((k, d) ∷ []) in
      elim (sign (compare i k)) [
        | is_zero z ↦
            let same = compare_equal i k z in
            rw (Inserts, z) (g, f, inl (inorder l, inorder r, d, rw same (sym e), e))
        | is_negative p z ↦
            let h = compare_negative i k p z in
            let x = below_root i k (inorder l) (inorder r) a h in
            let y : AllAbove i ((k, d) ∷ inorder r) = (h, AllAbove-trans k i (inorder r) h above) in
            rw (Inserts, z)
              (
                (omega arith, g.1, (omega arith, tt, g.2)),
                insert-Increasing (inorder l) ((k, d) ∷ inorder r) i v f x y,
                inr (inorder l, (k, d) ∷ inorder r, sym e, refl, x, y),
              )
        | is_positive p z ↦
            let h = compare_positive i k p z in
            let xs = inorder l ++ ((k, d) ∷ []) in
            let y = above_root i k (inorder l) (inorder r) a h in
            let x : AllBelow i xs =
              append-AllBelow i (inorder l) ((k, d) ∷ []) (AllBelow-trans k i (inorder l) h below)
                (h, tt) in
            rw (Inserts, z)
              (
                (omega (arith, c), (omega arith, g.1, tt), g.2),
                insert-Increasing xs (inorder r) i v (rw j f) x y,
                inr (xs, inorder r, sym e ∙ sym j, refl, x, y),
              )
      ]

  -- `splaytree_insert`, for keys that are not negative and on a tree in search order with right sizes, always returns a tree that is in
  -- search order with right sizes again. Where the key was in the tree, the entries are the same;
  -- where it was not, the new entry is added between those with a smaller and those with a greater
  -- key.
  pub splaytree_insert-Inserts :
      (t : Tree V) (i : Key) (v : V)
      → IsSized t
      → Increasing (inorder t)
      → Inserts t i v (splaytree_insert t i v)
  unfolding splaytree_insert
  splaytree_insert-Inserts t i v h o =
      finish (splaytree_splay t i) (splaytree_splay-IsRearranged t i h)
        (splaytree_splay-IsNearRoot t i h o)
    where
      finish :
          (s : Outcome (Tree V))
          → IsRearranged t s
          → IsNearRoot i s
          → Inserts t i v (s >>= λ u. insert_at_root u i v)
      finish (ok u) e a = insert_at_root-Inserts t u i v o e.0 e.1 a
      finish aborted e a = absurd e
      finish fault e a = absurd e

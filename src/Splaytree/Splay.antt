-- ===== src/Splaytree/Splay.antt =====
-- splaytree.c: a splay keeps the entries of a tree, and corrects the sizes.
use lighttpd_multithread.Base.{
  ℕ, zero, suc, ◌+◌, ◌≤◌, ◌<◌, ◌≡◌, refl, sym, ap, ◌∙◌, List, [], ◌++◌, append_assoc, append-nil,
  length, length-append, Outcome, ok, aborted, fault, ◌>>=◌, arith,
}
use lighttpd_multithread.Splaytree.{
  Key, Tree, empty, node, node_size, count, Links, no_links, splay_loop, Turn, stop, down, turn,
  assemble, splaytree_splay,
}
use lighttpd_multithread.Splaytree.Contents.{
  inorder, IsSized, node_size-length, left_entries, right_entries, inorder-assemble_left,
  inorder-assemble_right, assemble_left-IsSized, assemble_right-IsSized,
}
use lighttpd_multithread.Splaytree.Rounds.{IsBuilt, entries, BelowIsSized, Goes, turn-Goes}

module _ {V : Type 0} where
  -- What the loop ends with.
  abbrev pub Ends : List (Key × V) → Outcome (Tree V × Links V) → Type 0
  Ends xs (ok (t, b)) = (entries t b ≡ xs) × BelowIsSized t × IsBuilt b
  Ends xs aborted = ⊥
  Ends xs fault = ⊥

  after_round :
      (again : Tree V → Links V → Outcome (Tree V × Links V)) (fuel n : ℕ) (xs : List (Key × V))
      → ((t : Tree V) (b : Links V)
          → count t ≤ fuel
          → 0 < count t
          → IsBuilt b
          → IsSized t
          → Ends (entries t b) (again t b))
      → n ≤ suc fuel
      → (u : Turn V) → Goes n xs u
      → Ends xs (elim u [ stop t b ↦ ok (t, b) | down t b ↦ again t b ])
  after_round again fuel n xs h m (stop t b) g = g
  after_round again fuel n xs h m (down t b) g =
      rw (sym g.2) (h t b (omega (arith, g.0)) g.1 g.4 g.3)

  -- The fuel is enough.
  pub splay_loop-Ends :
      (fuel : ℕ) (i : Key) (t : Tree V) (b : Links V)
      → count t ≤ fuel
      → 0 < count t
      → IsBuilt b
      → IsSized t
      → Ends (entries t b) (splay_loop fuel i t b)
  unfolding splay_loop
  splay_loop-Ends zero i t b m p h g = absurd (omega arith)
  splay_loop-Ends (suc fuel) i empty b m p h g = absurd (omega arith)
  splay_loop-Ends (suc fuel) i (node l k s d r) b m p h g =
      after_round (splay_loop fuel i) fuel _ _ (λ t c. splay_loop-Ends fuel i t c) m
        (turn i l k s d r b) (turn-Goes i l k s d r b h g.1 g.2)

  -- The same entries in the same order, with the right sizes.
  abbrev pub IsRearranged : Tree V → Outcome (Tree V) → Type 0
  IsRearranged t (ok t') = (inorder t' ≡ inorder t) × IsSized t'
  IsRearranged t aborted = ⊥
  IsRearranged t fault = ⊥

  assemble-IsRearranged :
      (t t' : Tree V) (b : Links V)
      → entries t' b ≡ inorder t
      → BelowIsSized t'
      → IsBuilt b
      → IsRearranged t (assemble t' b)
  unfolding assemble
  assemble-IsRearranged t empty b e g h = absurd g
  assemble-IsRearranged t (node l k s d r) b e g h =
      let n = node_size-length l g.0 in
      let m = node_size-length r g.1 in
      let x = inorder-assemble_left b.lefts (b.l_size + node_size l) l in
      let y = inorder-assemble_right b.rights (b.r_size + node_size r) r in
      let left_size = length-append (left_entries b.lefts) (inorder l) in
      let right_size = length-append (inorder r) (right_entries b.rights) in
      (
        rw (sym e) (simp (x, y, append_assoc)),
        (
          omega (arith, ap length x, ap length y, left_size, right_size, h.0, h.1),
          assemble_left-IsSized b.lefts _ l h.2 g.0 (omega (arith, h.0)),
          assemble_right-IsSized b.rights _ r h.3 g.1 (omega (arith, h.1)),
        ),
      )

  -- On a tree with right sizes, a splay always comes to an end with a tree that has the same entries
  -- in the same order, and the size fields of that tree are right again.
  pub splaytree_splay-IsRearranged :
      (t : Tree V) (i : Key) → IsSized t → IsRearranged t (splaytree_splay t i)
  unfolding splaytree_splay
  splaytree_splay-IsRearranged empty i h = (refl, tt)
  splaytree_splay-IsRearranged (node l k s d r) i h =
      let t = node l k s d r in
      finish t (splay_loop (count t) i t no_links)
        (splay_loop-Ends (count t) i t no_links (omega arith) (omega arith) (refl, refl, tt, tt) h)
    where
      finish :
          (t : Tree V) (o : Outcome (Tree V × Links V))
          → Ends (inorder t ++ []) o
          → IsRearranged t (o >>= λ p. assemble p.0 p.1)
      finish t (ok (t', b)) e = assemble-IsRearranged t t' b (e.0 ∙ append-nil (inorder t)) e.1 e.2
      finish t aborted e = absurd e
      finish t fault e = absurd e

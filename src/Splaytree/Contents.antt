-- ===== src/Splaytree/Contents.antt =====
-- splaytree.c: the entries of a tree, the sizes of its nodes, and how both trees are assembled.
use lighttpd_multithread.Base.{
  ℕ, ◌+◌, ◌-◌, ◌≡◌, refl, sym, ap, List, [], ◌∷◌, ◌++◌, append_assoc, append-nil, length,
  length-append, arith,
}
use lighttpd_multithread.Splaytree.{
  Key, Tree, empty, node, node_size, Linked, assemble_left, assemble_right,
}

module _ {V : Type 0} where
  -- The entries, from the left to the right.
  abbrev pub inorder : Tree V → List (Key × V)
  inorder empty = []
  inorder (node l k s d r) = inorder l ++ ((k, d) ∷ inorder r)

  -- Every size is the number of entries below its node.
  abbrev pub IsSized : Tree V → Type 0
  IsSized empty = Unit
  IsSized (node l k s d r) =
      (s ≡ length (inorder l) + length (inorder r) + 1) × IsSized l × IsSized r

  pub node_size-length : (t : Tree V) → IsSized t → node_size t ≡ length (inorder t)
  node_size-length empty h = refl
  node_size-length (node l k s d r) h =
      omega (arith, h.0, length-append (inorder l) ((k, d) ∷ inorder r))

  abbrev pub left_entries : List (Linked V) → List (Key × V)
  left_entries [] = []
  left_entries (p ∷ ps) = inorder p.subtree ++ ((p.key, p.value) ∷ left_entries ps)

  abbrev pub right_entries : List (Linked V) → List (Key × V)
  right_entries [] = []
  right_entries (p ∷ ps) = right_entries ps ++ ((p.key, p.value) ∷ inorder p.subtree)

  pub left_entries-append :
      (ps qs : List (Linked V)) → left_entries (ps ++ qs) ≡ left_entries ps ++ left_entries qs
  left_entries-append [] qs = refl
  left_entries-append (p ∷ ps) qs = simp (left_entries-append ps qs, append_assoc)

  pub right_entries-append :
      (ps qs : List (Linked V)) → right_entries (ps ++ qs) ≡ right_entries qs ++ right_entries ps
  right_entries-append [] qs = sym (append-nil (right_entries qs))
  right_entries-append (p ∷ ps) qs = simp (right_entries-append ps qs, append_assoc)

  abbrev pub AreSized : List (Linked V) → Type 0
  AreSized [] = Unit
  AreSized (p ∷ ps) = IsSized p.subtree × AreSized ps

  pub append-AreSized : (ps qs : List (Linked V)) → AreSized ps → AreSized qs → AreSized (ps ++ qs)
  append-AreSized [] qs h g = g
  append-AreSized (p ∷ ps) qs h g = (h.0, append-AreSized ps qs h.1 g)

  pub inorder-assemble_left :
      (ps : List (Linked V)) (n : ℕ) (rest : Tree V)
      → inorder (assemble_left ps n rest) ≡ left_entries ps ++ inorder rest
  unfolding assemble_left
  inorder-assemble_left [] n rest = refl
  inorder-assemble_left (p ∷ ps) n rest =
      simp (inorder-assemble_left ps (n - (1 + node_size p.subtree)) rest, append_assoc)

  pub inorder-assemble_right :
      (ps : List (Linked V)) (n : ℕ) (rest : Tree V)
      → inorder (assemble_right ps n rest) ≡ inorder rest ++ right_entries ps
  unfolding assemble_right
  inorder-assemble_right [] n rest = sym (append-nil (inorder rest))
  inorder-assemble_right (p ∷ ps) n rest =
      simp (inorder-assemble_right ps (n - (1 + node_size p.subtree)) rest, append_assoc)

  pub assemble_left-IsSized :
      (ps : List (Linked V)) (n : ℕ) (rest : Tree V)
      → AreSized ps
      → IsSized rest
      → n ≡ length (left_entries ps) + length (inorder rest)
      → IsSized (assemble_left ps n rest)
  unfolding assemble_left
  assemble_left-IsSized [] n rest h g e = g
  assemble_left-IsSized (p ∷ ps) n rest h g e =
      let m = n - (1 + node_size p.subtree) in
      let f = node_size-length p.subtree h.0 in
      let a = length-append (inorder p.subtree) ((p.key, p.value) ∷ left_entries ps) in
      let c = length-append (left_entries ps) (inorder rest) in
      let k = ap length (inorder-assemble_left ps m rest) in
      (omega (arith, a, c, k), h.0, assemble_left-IsSized ps m rest h.1 g (omega arith))

  pub assemble_right-IsSized :
      (ps : List (Linked V)) (n : ℕ) (rest : Tree V)
      → AreSized ps
      → IsSized rest
      → n ≡ length (right_entries ps) + length (inorder rest)
      → IsSized (assemble_right ps n rest)
  unfolding assemble_right
  assemble_right-IsSized [] n rest h g e = g
  assemble_right-IsSized (p ∷ ps) n rest h g e =
      let m = n - (1 + node_size p.subtree) in
      let f = node_size-length p.subtree h.0 in
      let a = length-append (right_entries ps) ((p.key, p.value) ∷ inorder p.subtree) in
      let c = length-append (inorder rest) (right_entries ps) in
      let k = ap length (inorder-assemble_right ps m rest) in
      (omega (arith, a, c, k), assemble_right-IsSized ps m rest h.1 g (omega arith), h.0)

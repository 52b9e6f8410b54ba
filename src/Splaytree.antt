-- ===== src/Splaytree.antt =====
-- splaytree.c: binary search trees that move the key looked up to the root. A pointer to a node is
-- the tree below it, `empty` is NULL.
pub mod Contents
pub mod Rounds
pub mod Splay
pub mod Order
pub mod Search
pub mod Insert
pub mod Delete
use lighttpd_multithread.Base.{
  ℕ, zero, suc, ◌+◌, ◌-◌, ◌^◌, ◌≡◌, true, ltb, List, [], ◌∷◌, ◌++◌, Outcome, ok, fault, ◌>>=◌,
}
use lighttpd_multithread.Base.Int.{ℤ, pos, negsuc, sub_ℕ}

-- A key: an `int` that is not negative, as the callers pass it (`hashme` of stat_cache.c strips the
-- highest bit of the hash).
pub record Key : Type 0 where
  pub number : ℕ
  pub below : ltb number (2 ^ 31) ≡ true

-- The macro `compare`: the difference of two keys, which fits in an `int`.
pub compare : Key → Key → ℤ
compare i j = sub_ℕ i.number j.number

-- `node left key size data right`.
pub data Tree (V : Type 0) : Type 0 where
  empty : Tree V
  node : Tree V → Key → ℕ → V → Tree V → Tree V

module _ {V : Type 0} where
  abbrev pub node_size : Tree V → ℕ
  node_size empty = 0
  node_size (node l k s d r) = s

  -- The number of nodes, which is fuel enough for the loop.
  abbrev pub count : Tree V → ℕ
  count empty = 0
  count (node l k s d r) = count l + count r + 1

-- A node that was linked to the left or the right tree, with the subtree that it keeps: its size is
-- corrected at the end, and its other subtree is what is linked next.
pub record Linked (V : Type 0) : Type 0 where
  pub subtree : Tree V
  pub key : Key
  pub value : V

-- The nodes linked to `N.right` and to `N.left`, from the top down, and the two sizes.
pub record Links (V : Type 0) : Type 0 where
  pub lefts : List (Linked V)
  pub rights : List (Linked V)
  pub l_size : ℕ
  pub r_size : ℕ

-- The `break` of the loop, with the node that it stops at, or another round.
pub data Turn (V : Type 0) : Type 0 where
  stop down : Tree V → Links V → Turn V

module _ {V : Type 0} where
  abbrev pub no_links : Links V
  no_links = record { lefts = []; rights = []; l_size = 0; r_size = 0 }

  -- `r->left = t; r = t; r_size += 1 + node_size(r->right)`.
  abbrev pub link_right : Links V → Key → V → Tree V → Links V
  link_right b k d right = record b {
    rights = b.rights ++ (record { subtree = right; key = k; value = d } ∷ []);
    r_size = b.r_size + (1 + node_size right);
  }

  abbrev pub link_left : Links V → Tree V → Key → V → Links V
  link_left b left k d = record b {
    lefts = b.lefts ++ (record { subtree = left; key = k; value = d } ∷ []);
    l_size = b.l_size + (1 + node_size left);
  }

  -- After a rotation: link `t`, whose left or right subtree is the argument, or stop at it.
  pub rotated_right : Tree V → Key → ℕ → V → Tree V → Links V → Turn V
  rotated_right empty k s d r b = stop (node empty k s d r) b
  rotated_right (node a x n v c) k s d r b = down (node a x n v c) (link_right b k d r)

  pub rotated_left : Tree V → Key → ℕ → V → Tree V → Links V → Turn V
  rotated_left l k s d empty b = stop (node l k s d empty) b
  rotated_left l k s d (node a x n v c) b = down (node a x n v c) (link_left b l k d)

  -- `comp < 0`.
  pub turn_left : Key → Tree V → Key → ℕ → V → Tree V → Links V → Turn V
  unfolding rotated_right
  turn_left i empty k s d r b = stop (node empty k s d r) b
  turn_left i (node ll lk ls ld lr) k s d r b =
      let t = node lr k (node_size lr + node_size r + 1) d r in
      elim (compare i lk) [
        | negsuc _ ↦ rotated_right ll lk ls ld t b
        | pos _ ↦ down (node ll lk ls ld lr) (link_right b k d r)
      ]

  -- `comp > 0`.
  pub turn_right : Key → Tree V → Key → ℕ → V → Tree V → Links V → Turn V
  unfolding rotated_left
  turn_right i l k s d empty b = stop (node l k s d empty) b
  turn_right i l k s d (node rl rk rs rd rr) b =
      let t = node l k (node_size l + node_size rl + 1) d rl in
      let next = down (node rl rk rs rd rr) (link_left b l k d) in
      elim (compare i rk) [
        | pos zero ↦ next
        | pos (suc _) ↦ rotated_left t rk rs rd rr b
        | negsuc _ ↦ next
      ]

  -- One round of the loop, at a node.
  pub turn : Key → Tree V → Key → ℕ → V → Tree V → Links V → Turn V
  unfolding turn_left turn_right
  turn i l k s d r b = elim (compare i k) [
    | pos zero ↦ stop (node l k s d r) b
    | pos (suc _) ↦ turn_right i l k s d r b
    | negsuc _ ↦ turn_left i l k s d r b
  ]

  pub splay_loop : ℕ → Key → Tree V → Links V → Outcome (Tree V × Links V)
  unfolding turn
  splay_loop zero i t b = fault
  splay_loop (suc fuel) i empty b = fault
  splay_loop (suc fuel) i (node l k s d r) b = elim (turn i l k s d r b) [
    | stop t c ↦ ok (t, c)
    | down t c ↦ splay_loop fuel i t c
  ]

  -- The loops that correct the sizes, and the assembly: `rest` comes below the last node linked.
  pub assemble_left : List (Linked V) → ℕ → Tree V → Tree V
  assemble_left [] n rest = rest
  assemble_left (p ∷ ps) n rest =
      node p.subtree p.key n p.value (assemble_left ps (n - (1 + node_size p.subtree)) rest)

  pub assemble_right : List (Linked V) → ℕ → Tree V → Tree V
  assemble_right [] n rest = rest
  assemble_right (p ∷ ps) n rest =
      node (assemble_right ps (n - (1 + node_size p.subtree)) rest) p.key n p.value p.subtree

  pub assemble : Tree V → Links V → Outcome (Tree V)
  unfolding assemble_left assemble_right
  assemble empty b = fault
  assemble (node l k s d r) b =
      let l_size = b.l_size + node_size l in
      let r_size = b.r_size + node_size r in
      ok (
        node (assemble_left b.lefts l_size l) k (l_size + r_size + 1) d
          (assemble_right b.rights r_size r))

  pub splaytree_splay : Tree V → Key → Outcome (Tree V)
  unfolding splay_loop assemble
  splaytree_splay empty i = ok empty
  splaytree_splay (node l k s d r) i = do
    (t, b) ← splay_loop (count (node l k s d r)) i (node l k s d r) no_links
    assemble t b

  -- `insert` at the root that the splay left.
  insert_at_root : Tree V → Key → V → Outcome (Tree V)
  insert_at_root empty i data' = ok (node empty i 1 data' empty)
  insert_at_root (node l k s d r) i data' = elim (compare i k) [
    | pos zero ↦ ok (node l k s d r)
    | negsuc _ ↦
        let t = node empty k (1 + node_size r) d r in
        ok (node l i (1 + node_size l + node_size t) data' t)
    | pos (suc _) ↦
        let t = node l k (1 + node_size l) d empty in
        ok (node t i (1 + node_size t + node_size r) data' r)
  ]

  pub splaytree_insert : Tree V → Key → V → Outcome (Tree V)
  unfolding insert_at_root
  splaytree_insert t i data' = do t' ← splaytree_splay t i; insert_at_root t' i data'

  abbrev with_right : Tree V → Tree V → Tree V
  with_right empty right = empty
  with_right (node l k s d r) right = node l k s d right

  abbrev with_size : Tree V → ℕ → Tree V
  with_size empty n = empty
  with_size (node l k s d r) n = node l k n d r

  -- `x`, once the root is splayed.
  remove_root : Tree V → Key → Outcome (Tree V)
  remove_root empty i = ok empty
  remove_root (node l k s d r) i = elim l [
    | empty ↦ ok r
    | node a x n v c ↦ do t ← splaytree_splay (node a x n v c) i; ok (with_right t r)
  ]

  delete_at_root : Tree V → ℕ → Key → Outcome (Tree V)
  unfolding remove_root
  delete_at_root empty tsize i = fault
  delete_at_root (node l k s d r) tsize i = elim (compare i k) [
    | pos zero ↦ do x ← remove_root (node l k s d r) i; ok (with_size x (tsize - 1))
    | pos (suc _) ↦ ok (node l k s d r)
    | negsuc _ ↦ ok (node l k s d r)
  ]

  pub splaytree_delete : Tree V → Key → Outcome (Tree V)
  unfolding delete_at_root
  splaytree_delete empty i = ok empty
  splaytree_delete (node l k s d r) i = do
    t ← splaytree_splay (node l k s d r) i
    delete_at_root t s i

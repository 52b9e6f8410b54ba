-- ===== src/Tests/Trees.antt =====
-- Splay trees.
use lighttpd_multithread.Base.{ℕ, ◌^◌, ◌≡◌, refl, true, ltb, arith}
use lighttpd_multithread.Splaytree.{Key, Tree, empty, node, splaytree_insert, splaytree_delete}
use lighttpd_multithread.Splaytree.Delete.{Deletes, splaytree_delete-Deletes}
use lighttpd_multithread.Splaytree.Insert.{Inserts, splaytree_insert-Inserts}

abbrev key : (n : ℕ) → ltb n (2 ^ 31) ≡ true → Key
key n h = record { number = n; below = h }

abbrev leaf : Key → Tree ℕ
leaf k = node empty k 1 k.number empty

-- 0, 1, 3, 5, 8 and the greatest key.
abbrev small_tree : Tree ℕ
small_tree =
    node (node (leaf (key 0 refl)) (key 1 refl) 3 1 (leaf (key 3 refl))) (key 5 refl) 6 5
      (node empty (key 8 refl) 2 8 (leaf (key 2147483647 refl)))

splaytree_insert-Inserts_example :
    Inserts small_tree (key 4 refl) 40 (splaytree_insert small_tree (key 4 refl) 40)
splaytree_insert-Inserts_example =
    splaytree_insert-Inserts small_tree (key 4 refl) 40
      (refl, (refl, (refl, tt, tt), (refl, tt, tt)), (refl, tt, (refl, tt, tt))) (ground arith)

splaytree_delete-Deletes_example :
    Deletes small_tree (key 5 refl) (splaytree_delete small_tree (key 5 refl))
splaytree_delete-Deletes_example =
    splaytree_delete-Deletes small_tree (key 5 refl)
      (refl, (refl, (refl, tt, tt), (refl, tt, tt)), (refl, tt, (refl, tt, tt))) (ground arith)

-- ===== src/Locking/Examples.antt =====
-- The theorems on locking/ at work on a tree with the nodes "1", "1"-"a" and "1"-"b".
use fcr.Base.{◌∷◌, [], ◌≡◌, refl, ok, true}
use fcr.Locking.{
  LockNode, LockNodes, node, no_child, child, insert_path, create_lock_node, set_child, find_child,
  remove_path, delete_child, r_lock, lock,
}
use fcr.Locking.Exclusion.{lock_excludes, conflict}

abbrev leaves : LockNodes
leaves = child "a" (node no_child) (child "b" (node no_child) no_child)

abbrev tree : LockNode
tree = node (child "1" (node leaves) no_child)

grows : insert_path ("1" ∷ "b" ∷ []) (insert_path ("1" ∷ "a" ∷ []) (create_lock_node [])) ≡ tree
unfolding insert_path create_lock_node set_child find_child
grows = refl

shrinks : remove_path ("1" ∷ "b" ∷ []) tree ≡ ok (create_lock_node ("1" ∷ "a" ∷ []))
unfolding remove_path delete_child create_lock_node set_child find_child
shrinks = refl

lock_excludes_example :
    (conflict (lock ("1" ∷ []) tree) (r_lock ("1" ∷ "a" ∷ []) tree) ≡ true)
    × (conflict (lock ("1" ∷ []) tree) (lock ("1" ∷ "a" ∷ []) tree) ≡ true)
lock_excludes_example = lock_excludes ("1" ∷ []) ("a" ∷ []) tree

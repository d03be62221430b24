-- ===== src/Locking.antt =====
-- The lock tree: LockNode of locking/locknode.go. A node has one read-write lock and its children by name.
-- What a call of RLock or Lock holds when it succeeds is a list of nodes, each with whether it is held for
-- writing; the calls that fail for a lock of another hold nothing. Nobody inserts the missing child between
-- Lock's two looks, or it fails.
mod Examples
pub mod Exclusion
use fcr.Base.{
  String, List, Bool, ◌>>=◌, ◌>>◌, Option, none, ◌==◌, some, [], ◌∷◌, Result, ok, panic, false,
  true, if◌then◌else◌, text_key,
}

mutual
  pub data LockNode : Type 0 where
    node : LockNodes → LockNode

  -- The children of a node.
  pub data LockNodes : Type 0 where
    no_child : LockNodes
    child : String → LockNode → LockNodes → LockNodes

abbrev children_of : LockNode → LockNodes
children_of (node cs) = cs

unfoldable pub find_child : String → LockNodes → Option LockNode
find_child key no_child = none
find_child key (child k n cs) = if k == key then some n else find_child key cs

-- `node.children[key] = n`
unfoldable pub set_child : String → LockNode → LockNodes → LockNodes
set_child key n no_child = child key n no_child
set_child key n (child k m cs) = if k == key then child key n cs else child k m (set_child key n cs)

unfoldable pub delete_child : String → LockNodes → LockNodes
delete_child key no_child = no_child
delete_child key (child k m cs) =
    let rest = delete_child key cs in if k == key then rest else child k m rest

unfoldable pub create_lock_node : List String → LockNode
create_lock_node [] = node no_child
create_lock_node (key ∷ path) = node (child key (create_lock_node path) no_child)

unfoldable pub insert_path : List String → LockNode → LockNode
insert_path [] n = n
insert_path (key ∷ path) (node cs) = elim (find_child key cs) [
  | none ↦ node (set_child key (create_lock_node path) cs)
  | some c ↦ node (set_child key (insert_path path c) cs)
]

-- The last step of a path that is not there is a call on a child that is nil.
unfoldable pub remove_path : List String → LockNode → Result LockNode
remove_path [] n = ok n
remove_path (key ∷ []) (node cs) = ok (node (delete_child key cs))
remove_path (key ∷ k ∷ path) (node cs) = elim (find_child key cs) [
  | none ↦ panic
  | some c ↦ do c' ← remove_path (k ∷ path) c; ok (node (set_child key c' cs))
]

-- A node of the tree and whether it is held for writing.
abbrev pub Held : Type 0
Held = List String × Bool

-- What a child's call holds, as the parent sees it.
unfoldable pub below : String → List Held → List Held
below key [] = []
below key ((path, w) ∷ hs) = (key ∷ path, w) ∷ below key hs

unfoldable pub r_lock : List String → LockNode → List Held
r_lock [] n = ([], false) ∷ []
r_lock (key ∷ path) (node cs) = elim (find_child key cs) [
  | none ↦ ([], false) ∷ []
  | some c ↦ ([], false) ∷ below key (r_lock path c)
]

unfoldable pub lock : List String → LockNode → List Held
lock [] n = ([], true) ∷ []
lock (key ∷ path) (node cs) = elim (find_child key cs) [
  | none ↦ ([], true) ∷ []
  | some c ↦ ([], false) ∷ below key (lock path c)
]

-- ===== src/Mdlstore.antt =====
-- The multi-dimensional store: TransactionImpl of mdlstore/mdlockablestore_impl.go and getDSKey of
-- mdlstore/utils.go. A datastore key is the list of the path's parts, so the joining and cleaning of
-- datastore.NewKey are left out: a part is not empty, "." or "..". A write returns the transaction's
-- state, or the error on which its caller discards it.
pub mod Frame
pub mod Removal
pub mod Pairs
pub mod Triples
mod Examples
use fcr.Base.{
  ◌>>=◌, ◌>>◌, String, Bool, List, [], true, ◌∷◌, false, ◌==◌, ◌&&◌, ◌≡◌, ◌↔◌, arith, text_key, Eq,
  Result, or_fail, ok, fail_if, ◌++◌, err, if◌then◌else◌,
}
use fcr.Base.Map.{Map, is_some, insert, erase, lookup}

pub record Node : Type 0 where
  pub node_data : String
  pub children : Map String Bool

abbrev pub list_eq : List String → List String → Bool
list_eq [] [] = true
list_eq [] (y ∷ ys) = false
list_eq (x ∷ xs) [] = false
list_eq (x ∷ xs) (y ∷ ys) = x == y && list_eq xs ys

pub list_eq_iff : (xs ys : List String) → (list_eq xs ys ≡ true) ↔ (xs ≡ ys)
list_eq_iff [] [] = ground arith
list_eq_iff [] (y ∷ ys) = ground arith
list_eq_iff (x ∷ xs) [] = ground arith
list_eq_iff (x ∷ xs) (y ∷ ys) = ground (arith, text_key.beq_iff x y, list_eq_iff xs ys)

instance abbrev pub path_key : Eq (List String)
path_key = record { beq = list_eq; beq_iff = list_eq_iff }

-- The datastore.
abbrev pub Store : Type 0
Store = Map (List String) Node

-- A node without data, as encDSVal(nil, …) writes it.
abbrev pub empty_node : Node
empty_node = record { node_data = ""; children = [] }

unfoldable pub add_child : String → Node → Node
add_child x n = record n { children = insert x true n.children }

unfoldable pub remove_child : String → Node → Node
remove_child x n = record n { children = erase x n.children }

abbrev pub get_node : List String → Store → Result Node
get_node key s = or_fail (lookup key s) "datastore: key not found"

-- `has_separator` is strings.Contains(_, DatastoreKeySeperator).
module _ (has_separator : String → Bool) where
  unfoldable pub get_ds_key : List String → Result (List String)
  get_ds_key [] = ok []
  get_ds_key (x ∷ xs) = do
    fail_if (has_separator x) "path contains illegal character"
    rest ← get_ds_key xs
    ok (x ∷ rest)

  unfoldable pub get : List String → Store → Result String
  get path s = do
    fail_if (list_eq path []) "cannot read root node"
    key ← get_ds_key path
    n ← get_node key s
    ok n.node_data

  abbrev pub get_children : List String → Store → Result (Map String Bool)
  get_children path s = do key ← get_ds_key path; n ← get_node key s; ok n.children

  unfoldable pub has : List String → Store → Result Bool
  has path s = do key ← get_ds_key path; ok (is_some (lookup key s))

  -- One inner node of Put's path: recorded with its parent and created where the parent lacks it.
  unfoldable pub enter : List String → String → Store → Result Store
  enter parent x s = do
    key ← get_ds_key (parent ++ x ∷ [])
    n ← get_node parent s
    ok (
        if is_some (lookup x n.children)
        then s
        else insert key empty_node (insert parent (add_child x n) s))

  -- The last node of Put's path: recorded with its parent, and written whatever it was.
  unfoldable pub put_leaf : String → List String → String → Store → Result Store
  put_leaf value parent x s = do
    n ← get_node parent s
    key ← get_ds_key (parent ++ x ∷ [])
    ok (
        insert key (record { node_data = value; children = [] })
          (if is_some (lookup x n.children) then s else insert parent (add_child x n) s))

  unfoldable pub put_under : String → List String → List String → Store → Result Store
  put_under value parent [] s = err "cannot modify root node"
  put_under value parent (x ∷ []) s = put_leaf value parent x s
  put_under value parent (x ∷ y ∷ rest) s = do
    s' ← enter parent x s
    put_under value (parent ++ x ∷ []) (y ∷ rest) s'

  unfoldable pub put : String → List String → Store → Result Store
  put value path s = put_under value [] path s

  unfoldable pub delete_under : List String → List String → Store → Result Store
  delete_under parent [] s = err "cannot delete root node"
  delete_under parent (x ∷ []) s = do
    parent_key ← get_ds_key parent
    n ← get_node parent_key s
    key ← get_ds_key (parent ++ x ∷ [])
    ok (erase key (insert parent_key (remove_child x n) s))
  delete_under parent (x ∷ y ∷ rest) s = delete_under (parent ++ x ∷ []) (y ∷ rest) s

  unfoldable pub delete : List String → Store → Result Store
  delete path s = delete_under [] path s

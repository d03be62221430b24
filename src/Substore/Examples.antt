-- ===== src/Substore/Examples.antt =====
-- The theorem on substore/ at work on a store with an empty root.
use fcr.Mdlstore.{
  path_key, Store, Node, put_under, put_leaf, get_ds_key, add_child, remove_child, delete_under,
  has, put, enter, delete,
}
use fcr.Base.{String, Bool, false, [], ◌∷◌, List, true, ◌≡◌, ok, refl}
use fcr.Base.Map.{Map}
use fcr.Substore.Refine.{Op, run_ops, run_op, is_subscriber, subscribers_refine, adds, removes}
use fcr.Substore.{add_subscriber, remove_subscriber, present}

abbrev no_separator : String → Bool
no_separator x = false

abbrev empty_store : Store
empty_store = ([], record { node_data = ""; children = [] }) ∷ []

abbrev parent : Map String Bool → Node
parent names = record { node_data = ""; children = names }

abbrev ops : List Op
ops = adds "1" "alice" ∷ adds "1" "bob" ∷ adds "1" "bob" ∷ removes "1" "alice" ∷ []

abbrev after : Store
after =
    ([], parent (("1", true) ∷ []))
    ∷ ("1" ∷ [], parent (("bob", true) ∷ []))
    ∷ ("1" ∷ "bob" ∷ [], record { node_data = present; children = [] })
    ∷ []

runs : run_ops no_separator ops empty_store ≡ ok after
unfolding run_ops run_op add_subscriber remove_subscriber has put put_under enter put_leaf
    get_ds_key add_child remove_child delete delete_under
runs = refl

subscribers_refine_example : is_subscriber no_separator after "1" "bob" ≡ true
subscribers_refine_example = subscribers_refine no_separator ops empty_store "1" "bob" runs

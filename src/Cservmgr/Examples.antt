-- ===== src/Cservmgr/Examples.antt =====
-- The theorem on cservmgr/ at work on a store with an empty root, for the piece "piece" at a price of seven.
use fcr.Mdlstore.{
  path_key, Store, Node, put_under, put_leaf, get_ds_key, add_child, remove_child, delete_under,
  has, put, enter, delete,
}
use fcr.Base.{
  if◌then◌else◌, String, ◌==◌, Bool, false, [], ◌∷◌, List, true, ◌≡◌, ok, refl, some, text_key,
}
use fcr.Base.Int.{ℤ, pos, eqb_ℤ}
use fcr.Base.Map.{Map}
use fcr.Policies.{remove_and_prune, remove_existing, prune}
use fcr.Cservmgr.Refine.{Op, run_ops, run_op, inspect_refines, serves, stops}
use fcr.Cservmgr.{serve, inspect, stop}

abbrev write_price : ℤ → String
write_price ppb = if eqb_ℤ ppb (pos 7) then "7" else ""

abbrev read_price : String → ℤ
read_price v = if v == "7" then pos 7 else pos 0

abbrev no_separator : String → Bool
no_separator x = false

abbrev empty_store : Store
empty_store = ([], record { node_data = ""; children = [] }) ∷ []

abbrev with_piece : Store
with_piece = ("piece" ∷ "1" ∷ [], record { node_data = "7"; children = [] }) ∷ []

abbrev parent : Map String Bool → Node
parent names = record { node_data = ""; children = names }

-- The piece is served, stopped, which takes its node away, and served again.
abbrev ops : List Op
ops =
    serves "piece" "1" (pos 7) empty_store
    ∷ stops "piece" "1" with_piece
    ∷ serves "piece" "1" (pos 7) empty_store
    ∷ []

abbrev after : Store
after =
    ([], parent (("piece", true) ∷ []))
    ∷ ("piece" ∷ [], parent (("1", true) ∷ []))
    ∷ ("piece" ∷ "1" ∷ [], record { node_data = "7"; children = [] })
    ∷ []

runs : run_ops no_separator write_price read_price ops empty_store ≡ ok after
unfolding run_ops run_op serve stop remove_and_prune remove_existing prune has put put_under enter
    put_leaf get_ds_key add_child remove_child delete delete_under
runs = refl

inspect_refines_example : inspect no_separator read_price "piece" "1" after ≡ ok (some (pos 7))
unfolding get_ds_key
inspect_refines_example =
    inspect_refines no_separator write_price read_price ops empty_store "piece" "1"
      (refl, (refl, tt)) runs refl

-- ===== src/Mdlstore/Examples.antt =====
-- The theorems on mdlstore/ at work on a store with a node that has a child.
use fcr.Base.{String, Bool, false, List, ◌∷◌, [], true, ◌≡◌, ok, refl, ◌≢◌, arith}
use fcr.Mdlstore.{
  path_key, Store, put_under, put_leaf, get_ds_key, list_eq, list_eq_iff, get_children, put, get,
}
use fcr.Mdlstore.Frame.{put_effect}
use fcr.Base.Map.{lookup}

abbrev no_separator : String → Bool
no_separator x = false

abbrev way : List String
way = "a" ∷ []

abbrev below : List String
below = "a" ∷ "b" ∷ []

abbrev full : Store
full =
    ([], record { node_data = ""; children = ("a", true) ∷ [] })
    ∷ (way, record { node_data = ""; children = ("b", true) ∷ [] })
    ∷ (below, record { node_data = "leaf"; children = [] })
    ∷ []

abbrev overwritten : Store
overwritten =
    ([], record { node_data = ""; children = ("a", true) ∷ [] })
    ∷ (way, record { node_data = "new"; children = [] })
    ∷ (below, record { node_data = "leaf"; children = [] })
    ∷ []

writes : put no_separator "new" way full ≡ ok overwritten
unfolding put put_under put_leaf get_ds_key
writes = refl

differs : (xs : List String) → list_eq xs below ≡ false → xs ≢ below
differs xs f e = let same : list_eq xs below ≡ true = (list_eq_iff xs below).1 e in ground arith

-- The child is still in the store, but its parent has forgotten it.
put_effect_example :
    (get no_separator way overwritten ≡ ok "new")
    × (get_children no_separator way overwritten ≡ ok [])
    × (lookup below overwritten ≡ lookup below full)
put_effect_example =
    put_effect no_separator "new" "a" [] full below writes (differs [] refl, differs way refl)

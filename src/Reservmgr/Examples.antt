-- ===== src/Reservmgr/Examples.antt =====
-- The theorems on reservmgr/ at work on a store with an empty root, for a limit of a hundred.
use fcr.Mdlstore.{
  path_key, Store, Node, put_under, put_leaf, get_ds_key, add_child, remove_child, delete_under,
  has, put, enter, delete,
}
use fcr.Base.{
  if◌then◌else◌, String, Option, ◌==◌, some, none, Bool, false, [], ◌∷◌, List, true, ◌≡◌, ok, refl,
  text_key, ◌>>=◌,
}
use fcr.Base.Int.{ℤ, pos, negsuc, eqb_ℤ}
use fcr.Base.Map.{Map}
use fcr.Policies.{
  default_policy_id, not_default_id, remove_and_prune, remove_existing, prune, clean_store,
  clean_currencies,
}
use fcr.Policies.History.{run}
use fcr.Reservmgr.Refine.{
  Op, sets_default, sets_peer, sets_paych, removes_peer, run_op, get_peer_policy_refines,
}
use fcr.Reservmgr.{
  set_default_policy, set_paych_policy, set_peer_policy, remove_peer_policy, encode_limit,
  get_peer_policy,
}

abbrev write_limit : ℤ → String
write_limit max = if eqb_ℤ max (pos 100) then "100" else "-1"

abbrev read_limit : String → Option ℤ
read_limit v = if v == "100" then some (pos 100) else if v == "-1" then some (negsuc 0) else none

abbrev no_separator : String → Bool
no_separator x = false

abbrev empty_store : Store
empty_store = ([], record { node_data = ""; children = [] }) ∷ []

abbrev with_bob : Store
with_bob = ("1" ∷ "ch" ∷ "bob" ∷ [], record { node_data = "100"; children = [] }) ∷ []

-- A default for the currency, a limit of a peer that is set and removed, and no limit for a channel.
abbrev ops : List Op
ops =
    sets_default "1" false (pos 100)
    ∷ sets_peer "1" "ch" "bob" false (pos 100)
    ∷ sets_paych "1" "ch" true (pos 100)
    ∷ removes_peer "1" "ch" "bob" with_bob
    ∷ []

abbrev parent : Map String Bool → Node
parent names = record { node_data = ""; children = names }

abbrev after : Store
after =
    ([], parent (("1", true) ∷ []))
    ∷ ("1" ∷ [], parent (("default", true) ∷ ("ch", true) ∷ []))
    ∷ ("1" ∷ "default" ∷ [], record { node_data = "100"; children = [] })
    ∷ ("1" ∷ "ch" ∷ [], parent (("default", true) ∷ []))
    ∷ ("1" ∷ "ch" ∷ "default" ∷ [], record { node_data = "-1"; children = [] })
    ∷ []

runs :
    (clean_store no_separator empty_store >>= run (run_op no_separator write_limit read_limit) ops)
    ≡ ok after
unfolding clean_store clean_currencies run_op set_default_policy set_paych_policy set_peer_policy
    remove_peer_policy default_policy_id not_default_id encode_limit remove_and_prune
    remove_existing prune has put put_under enter put_leaf get_ds_key add_child remove_child delete
    delete_under
runs = refl

get_peer_policy_refines_example :
    get_peer_policy no_separator read_limit "1" "ch" "bob" after ≡ ok (true, none)
unfolding default_policy_id get_ds_key
get_peer_policy_refines_example =
    get_peer_policy_refines no_separator write_limit read_limit ops empty_store "1" "ch" "bob"
      ((refl, refl), ((refl, refl), ((refl, refl), (tt, tt)))) runs refl refl
      (refl, (refl, (refl, tt)))

-- ===== src/Renewmgr/Examples.antt =====
-- The theorems on renewmgr/ at work on a store with an empty root, for durations of an hour.
use fcr.Mdlstore.{
  path_key, Store, Node, put_under, put_leaf, get_ds_key, add_child, remove_child, delete_under,
  has, put, enter, delete,
}
use fcr.Base.{
  if◌then◌else◌, String, ◌==◌, Bool, false, [], ◌∷◌, List, true, Result, ok, err, ◌≡◌, refl,
  text_key, ◌>>=◌,
}
use fcr.Base.Int.{pos, eqb_ℤ}
use fcr.Paymgr.Types.{Time}
use fcr.Base.Map.{Map}
use fcr.Policies.{
  default_policy_id, not_default_id, remove_and_prune, remove_existing, prune, clean_store,
  clean_currencies,
}
use fcr.Policies.History.{run}
use fcr.Renewmgr.Refine.{
  Op, sets_default, sets_paych, sets_sender, removes_paych, run_op, get_paych_policy_refines,
}
use fcr.Renewmgr.{
  set_default_policy, set_paych_policy, set_sender_policy, remove_paych_policy, get_paych_policy,
}

abbrev hour : Time
hour = pos 3600

abbrev write_duration : Time → String
write_duration d = if eqb_ℤ d hour then "1h0m0s" else "other"

abbrev read_duration : String → Result Time
read_duration v = if v == "1h0m0s" then ok hour else err "invalid duration"

abbrev no_separator : String → Bool
no_separator x = false

abbrev empty_store : Store
empty_store = ([], record { node_data = ""; children = [] }) ∷ []

abbrev with_ch : Store
with_ch = ("1" ∷ "alice" ∷ "ch" ∷ [], record { node_data = "1h0m0s"; children = [] }) ∷ []

-- A default for the currency, a duration of a channel that is set and removed, and one of its sender.
abbrev ops : List Op
ops =
    sets_default "1" hour
    ∷ sets_paych "1" "alice" "ch" hour
    ∷ sets_sender "1" "alice" hour
    ∷ removes_paych "1" "alice" "ch" with_ch
    ∷ []

abbrev parent : Map String Bool → Node
parent names = record { node_data = ""; children = names }

abbrev after : Store
after =
    ([], parent (("1", true) ∷ []))
    ∷ ("1" ∷ [], parent (("default", true) ∷ ("alice", true) ∷ []))
    ∷ ("1" ∷ "default" ∷ [], record { node_data = "1h0m0s"; children = [] })
    ∷ ("1" ∷ "alice" ∷ [], parent (("default", true) ∷ []))
    ∷ ("1" ∷ "alice" ∷ "default" ∷ [], record { node_data = "1h0m0s"; children = [] })
    ∷ []

runs :
    (clean_store no_separator empty_store
      >>= run (run_op no_separator write_duration read_duration) ops)
    ≡ ok after
unfolding clean_store clean_currencies run_op set_default_policy set_paych_policy set_sender_policy
    remove_paych_policy default_policy_id not_default_id remove_and_prune remove_existing prune has
    put put_under enter put_leaf get_ds_key add_child remove_child delete delete_under
runs = refl

get_paych_policy_refines_example :
    get_paych_policy no_separator read_duration "1" "alice" "ch" after ≡ ok hour
unfolding default_policy_id get_ds_key
get_paych_policy_refines_example =
    get_paych_policy_refines no_separator write_duration read_duration ops empty_store "1" "alice"
      "ch" (refl, (refl, (refl, (tt, tt)))) runs refl refl (refl, (refl, (refl, tt)))

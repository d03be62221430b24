-- ===== src/Settlemgr/Examples.antt =====
-- The theorems on settlemgr/ at work on a store with an empty root, for durations of an hour.
use fcr.Settlemgr.Refine.{Op, sets_default, sets_sender, removes_sender, run_op}
use fcr.Paymgr.Types.{Time}
use fcr.Base.Int.{pos, eqb_ℤ}
use fcr.Base.{
  if◌then◌else◌, String, Result, ◌==◌, ok, err, Bool, false, [], ◌∷◌, true, ◌≡◌, refl, text_key,
  List,
}
use fcr.Mdlstore.{
  Node, Store, empty_node, put_under, put_leaf, get_ds_key, add_child, put, enter, delete_under,
  remove_child, has, delete,
}
use fcr.Settlemgr.{set_sender_policy, set_default_policy, remove_sender_policy, get_sender_policy}
use fcr.Policies.{default_policy_id, remove_existing}
use fcr.Policies.History.{run}
use fcr.Settlemgr.Refine.{get_sender_policy_refines}

abbrev hour : Time
hour = pos 3600

abbrev write_duration : Time → String
write_duration d = if eqb_ℤ d hour then "1h0m0s" else "other"

abbrev read_duration : String → Result Time
read_duration v = if v == "1h0m0s" then ok hour else err "invalid duration"

abbrev no_separator : String → Bool
no_separator x = false

abbrev leaf : Node
leaf = record { node_data = "1h0m0s"; children = [] }

abbrev empty_store : Store
empty_store = ([], empty_node) ∷ []

abbrev root : Node
root = record { node_data = ""; children = ("1", true) ∷ [] }

-- The store with a default policy for the currency "1", and with a policy of "alice" beside it.
abbrev with_default : Store
with_default =
    ([], root)
    ∷ ("1" ∷ [], record { node_data = ""; children = ("default", true) ∷ [] })
    ∷ ("1" ∷ "default" ∷ [], leaf)
    ∷ []

abbrev with_alice : Store
with_alice =
    ([], root)
    ∷ ("1" ∷ [], record { node_data = ""; children = ("default", true) ∷ ("alice", true) ∷ [] })
    ∷ ("1" ∷ "default" ∷ [], leaf)
    ∷ ("1" ∷ "alice" ∷ [], leaf)
    ∷ []

default_set :
    set_default_policy no_separator write_duration read_duration "1" hour empty_store
    ≡ ok with_default
unfolding set_default_policy default_policy_id put put_under enter put_leaf get_ds_key add_child
default_set = refl

sets :
    set_sender_policy no_separator write_duration read_duration "1" "alice" hour with_default
    ≡ ok with_alice
unfolding set_sender_policy default_policy_id put put_under enter put_leaf get_ds_key add_child
sets = refl

removes : remove_sender_policy no_separator "1" "alice" with_alice with_alice ≡ ok with_default
unfolding remove_sender_policy remove_existing default_policy_id has delete delete_under get_ds_key
    remove_child
removes = refl

abbrev ops : List Op
ops =
    sets_default "1" hour
    ∷ sets_sender "1" "alice" hour
    ∷ removes_sender "1" "alice" with_alice
    ∷ []

runs : run (run_op no_separator write_duration read_duration) ops empty_store ≡ ok with_default
unfolding run_op set_default_policy set_sender_policy remove_sender_policy remove_existing
    default_policy_id has put put_under enter put_leaf delete delete_under get_ds_key add_child
    remove_child
runs = refl

get_sender_policy_refines_example :
    get_sender_policy no_separator write_duration read_duration "1" "alice" with_default ≡ ok hour
unfolding default_policy_id get_ds_key
get_sender_policy_refines_example =
    get_sender_policy_refines no_separator write_duration read_duration ops empty_store "1" "alice"
      (refl, (refl, (tt, tt))) runs refl refl refl

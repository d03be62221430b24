-- ===== src/Pservmgr/Examples.antt =====
-- The theorems on pservmgr/ at work: the channel "ch" to "bob" at a price of two for a period of three.
use fcr.Mdlstore.{
  path_key, Node, put_under, put_leaf, get_ds_key, add_child, put, enter, Store, delete_under,
  remove_child, delete, get,
}
use fcr.Base.{
  if◌then◌else◌, text_key, Result, String, ◌&&◌, ok, err, ◌==◌, Bool, false, ℕ, nat_eq, [], ◌∷◌,
  true, ◌≡◌, refl, List, some,
}
use fcr.Base.Int.{ℤ, pos, eqb_ℤ}
use fcr.Pservmgr.{PaychServingManager, CachedServing, is_price, serve, inspect, delete_peer}
use fcr.Pservmgr.Agree.{Step, after_steps, after_steps-Agrees, serves, removes, Agrees, cleans}
use fcr.Base.Map.{Map}
use fcr.Base.Nested.{has_channel, peer_map, set_channel, set_peer}
use fcr.Pservmgr.Load.{load_currencies, load_recipients, load_recipient, load_servings, load}
use fcr.Pservmgr.Loaded.{load-IsStored}
use fcr.Mdlstore.Triples.{triples}

abbrev write_price : ℤ → ℤ → Result String
write_price ppp period =
    if eqb_ℤ ppp (pos 2) && eqb_ℤ period (pos 3) then ok "2/3" else err "unknown price"

abbrev read_price : String → Result CachedServing
read_price v = if v == "2/3" then ok (pos 2, pos 3) else err "unknown price"

abbrev no_separator : String → Bool
no_separator x = false

abbrev id_text : ℕ → String
id_text cur = if nat_eq cur 1 then "1" else "0"

abbrev parent : Map String Bool → Node
parent names = record { node_data = ""; children = names }

abbrev no_servings : PaychServingManager
no_servings = record { cache = []; ds = ([], parent []) ∷ [] }

abbrev with_ch : PaychServingManager
with_ch = record {
  cache = (1, ("bob", ("ch", (pos 2, pos 3)) ∷ []) ∷ []) ∷ [];
  ds =
      ([], parent (("1", true) ∷ []))
      ∷ ("1" ∷ [], parent (("bob", true) ∷ []))
      ∷ ("1" ∷ "bob" ∷ [], parent (("ch", true) ∷ []))
      ∷ ("1" ∷ "bob" ∷ "ch" ∷ [], record { node_data = "2/3"; children = [] })
      ∷ [];
}

serves_ch :
    serve no_separator id_text write_price 1 "bob" "ch" (pos 2) (pos 3) no_servings no_servings
    ≡ ok with_ch
unfolding serve is_price has_channel peer_map set_channel set_peer put put_under enter put_leaf
    get_ds_key add_child
serves_ch = refl

-- The channel is served, stopped, and its recipient cleaned.
abbrev steps : List Step
steps =
    serves 1 "bob" "ch" (pos 2) (pos 3) no_servings
    ∷ removes 1 "bob" "ch" with_ch
    ∷ cleans 1 "bob"
    ∷ []

after_steps-Agrees_example :
    Agrees no_separator id_text write_price read_price
      (after_steps no_separator id_text write_price steps no_servings)
      1
      "bob"
      "ch"
unfolding inspect
after_steps-Agrees_example =
    after_steps-Agrees no_separator id_text write_price read_price steps no_servings 1 "bob" "ch"
      ((refl, refl), (refl, (tt, tt))) refl

-- The text of the currency "1", and a store in which the recipient "carol" has no serving.
abbrev atoi : String → Result ℤ
atoi x = if x == "1" then ok (pos 1) else err "invalid syntax"

abbrev with_carol : Store
with_carol =
    ([], parent (("1", true) ∷ []))
    ∷ ("1" ∷ [], parent (("bob", true) ∷ ("carol", true) ∷ []))
    ∷ ("1" ∷ "bob" ∷ [], parent (("ch", true) ∷ []))
    ∷ ("1" ∷ "bob" ∷ "ch" ∷ [], record { node_data = "2/3"; children = [] })
    ∷ ("1" ∷ "carol" ∷ [], parent [])
    ∷ []

loads : load no_separator id_text atoi read_price with_carol ≡ ok with_ch
unfolding load load_currencies load_recipients load_recipient load_servings get_ds_key delete
    delete_under remove_child set_peer set_channel peer_map delete_peer get
loads = refl

load-IsStored_example :
    triples no_separator read_price with_ch.ds "1" "bob" "ch" ≡ some (ok (pos 2, pos 3))
unfolding inspect
load-IsStored_example =
    load-IsStored no_separator id_text atoi read_price with_carol 1 "bob" "ch" (pos 2, pos 3) loads
      refl

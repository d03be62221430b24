-- ===== src/Paychstore/Examples.antt =====
-- The theorem on paychstore/ at work: two states of one channel, of which the newer one is written first.
use fcr.Mdlstore.{
  path_key, Store, Node, put_under, put_leaf, get_ds_key, add_child, has, get, put, enter,
}
use fcr.Paychstate.{State}
use fcr.Base.{
  if◌then◌else◌, ℕ, Result, String, ok, nat_eq, ◌==◌, Bool, false, [], ◌∷◌, true, ◌≡◌, refl, ◌⊎◌,
  inl, inr, arith, text_key,
}
use fcr.Base.Int.{pos}
use fcr.Base.Map.{Map}
use fcr.Paychstore.{has_newer, path_of_state, peer_of, is_newer, read, upsert}
use fcr.Paychstore.Newest.{AtMost, newest_state_kept, upserts}

abbrev state_with : ℕ → State
state_with n = record {
  currency_id = 1;
  from_addr = "alice";
  to_addr = "bob";
  ch_addr = "ch";
  balance = pos 10;
  redeemed = pos 0;
  nonce = n;
  voucher = "";
  network_loss_voucher = "";
  state_nonce = n;
}

abbrev write_state : State → Result String
write_state x = ok (if nat_eq x.state_nonce 3 then "three" else "two")

abbrev read_state : String → Result State
read_state v = ok (state_with (if v == "three" then 3 else 2))

abbrev no_separator : String → Bool
no_separator x = false

abbrev id_text : ℕ → String
id_text cur = if nat_eq cur 1 then "1" else "0"

abbrev parent : Map String Bool → Node
parent names = record { node_data = ""; children = names }

abbrev empty_store : Store
empty_store = ([], parent []) ∷ []

abbrev after : Store
after =
    ([], parent (("1", true) ∷ []))
    ∷ ("1" ∷ [], parent (("bob", true) ∷ []))
    ∷ ("1" ∷ "bob" ∷ [], parent (("ch", true) ∷ []))
    ∷ ("1" ∷ "bob" ∷ "ch" ∷ [], record { node_data = "three"; children = [] })
    ∷ []

writes :
    upserts no_separator id_text true write_state read_state
      (state_with 3 ∷ state_with 2 ∷ [])
      empty_store
    ≡ ok after
unfolding upserts upsert has_newer path_of_state peer_of is_newer has get put put_under enter
    put_leaf get_ds_key add_child
writes = refl

newest_state_kept_example :
    (z : State) × (read no_separator read_state "1" "bob" "ch" after ≡ ok z)
    × ((z ≡ state_with 3) ⊎ (z ≡ state_with 2))
    × AtMost no_separator id_text true write_state read_state z.state_nonce
        (state_with 3 ∷ state_with 2 ∷ [])
unfolding get_ds_key peer_of
newest_state_kept_example =
    newest_state_kept no_separator id_text true write_state read_state
      (λ (z : State). (z ≡ state_with 3) ⊎ (z ≡ state_with 2)) "1" "bob" "ch" (state_with 3)
      (state_with 2 ∷ []) empty_store (inl refl, (inr refl, tt))
      ((refl, refl, refl, refl, omega arith), ((refl, refl, refl, refl, omega arith), tt)) refl refl
      writes

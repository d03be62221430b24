-- ===== src/Peermgr/Examples.antt =====
-- The theorem on peermgr/ at work: the peer "bob" at the address "here" with two records.
use fcr.Mdlstore.{
  path_key, Store, Node, put_under, put_leaf, get_ds_key, add_child, delete_under, remove_child,
  get, has, put, delete, enter,
}
use fcr.Base.{
  if◌then◌else◌, false, Result, String, ok, ◌==◌, Bool, [], true, ◌∷◌, ◌≡◌, refl, ◌++◌, text_key,
}
use fcr.Base.Int.{pos}
use fcr.Peermgr.{
  PeerInfo, PeerManagerImpl, read_peer, write_peer, add_to_history, check_exists, remove_peer,
  delete_records,
}
use fcr.Base.Map.{Map}

abbrev bob : PeerInfo
bob = record { blocked = false; peer_addr = "here"; rec_id = pos 2 }

abbrev write_info : PeerInfo → Result String
write_info p = ok (if p.blocked then "blocked" else "free")

abbrev read_info : String → Result PeerInfo
read_info v = ok (record bob { blocked = v == "blocked" })

abbrev mgr : PeerManagerImpl String
mgr = record {
  has_sep = λ x. false;
  encode_peer = write_info;
  decode_peer = read_info;
  encode_record = λ r. ok r;
  id_string = λ n. "3";
}

abbrev parent : Map String Bool → Node
parent names = record { node_data = ""; children = names }

abbrev with_value : String → Map String Bool → Store
with_value v records =
    ([], parent (("1", true) ∷ []))
    ∷ ("1" ∷ [], parent (("bob", true) ∷ []))
    ∷ ("1" ∷ "bob" ∷ [], record { node_data = v; children = records })
    ∷ []

-- A record goes to the history under the next id, and all of them go with the peer.
adds_record :
    add_to_history mgr "1" "bob" "paid" (with_value "free" []) (with_value "free" [])
    ≡ ok (
        with_value "free" (("3", true) ∷ [])
        ++ ("1" ∷ "bob" ∷ "3" ∷ [], record { node_data = "paid"; children = [] }) ∷ [])
unfolding add_to_history check_exists has read_peer write_peer get put put_under enter put_leaf
    get_ds_key add_child
adds_record = refl

removes_peer :
    remove_peer mgr "1" "bob" (with_value "free" []) (
      with_value "free" (("3", true) ∷ [])
      ++ ("1" ∷ "bob" ∷ "3" ∷ [], record { node_data = "paid"; children = [] }) ∷ [])
    ≡ ok (([], parent (("1", true) ∷ [])) ∷ ("1" ∷ [], parent []) ∷ [])
unfolding remove_peer check_exists has delete_records delete delete_under remove_child get_ds_key
removes_peer = refl

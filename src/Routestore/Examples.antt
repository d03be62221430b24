-- ===== src/Routestore/Examples.antt =====
-- The theorems on routestore/ at work: the node "a" with a direct link to "b" in the currency "1".
use fcr.Mdlstore.{path_key, Store, list_eq, get_ds_key, put_under, put_leaf, has, get, put, enter}
use fcr.Base.{
  if◌then◌else◌, List, String, ◌∷◌, [], Result, ok, ◌==◌, err, ◌&&◌, false, ◌≡◌, ok-injective,
  arith, true, refl, none, text_key, Bool-cases, inr, inl, some,
}
use fcr.Base.Int.{pos, eqb_ℤ, ◌+ℤ◌, eq_of_parts, ◌<ℤ◌}
use fcr.Routestore.Table.{
  Routes, trim_route, check_acyclic, get_elem, add_prefixes, record_route, live_routes,
  forget_route, length, take, cleanup,
}
use fcr.Routestore.{
  RouteStoreImpl, add_route, max_hop, check_link, read_routes, write_routes, remove_route,
  list_routes_from, routes_over, clean_routes,
}
use fcr.Routestore.Removed.{removed_route_gone}
use fcr.Routestore.Added.{added_route_listed}
use fcr.Routestore.Listing.{expiry_at, sends}
use fcr.Routestore.Clean.{clean_pass_unseen}
use fcr.Routestore.Calls.{
  Call, adds_route, cleans_link, removes_route, removes_link, after_calls, stored,
}
use fcr.Routestore.Prefixes.{AreKnown}
use fcr.Routestore.Valid.{stored_routes_known}
use fcr.Paymgr.Types.{Time}

abbrev route : List String
route = "b" ∷ "c" ∷ []

abbrev known_routes : Routes
known_routes = ("c", ("b-c", pos 20) ∷ []) ∷ []

abbrev write_routes_of_c : Routes → Result String
write_routes_of_c [] = ok "{}"
write_routes_of_c ((d, []) ∷ []) = if d == "c" then ok "{c}" else err "unknown routes"
write_routes_of_c ((d, (k, x) ∷ []) ∷ []) =
    if (d == "c") && (k == "b-c") && eqb_ℤ x (pos 20) then ok "{c:b-c}" else err "unknown routes"
write_routes_of_c ((d, (k, x) ∷ y ∷ r) ∷ []) = err "unknown routes"
write_routes_of_c ((d, r) ∷ y ∷ m) = err "unknown routes"

abbrev read_routes_of_c : String → Result Routes
read_routes_of_c v =
    if v == "{}" then ok [] else if v == "{c}" then ok (("c", []) ∷ []) else ok known_routes

abbrev node_a : RouteStoreImpl
node_a = record {
  max_hops = ("1", 5) ∷ [];
  get_addr = λ cur. ok "a";
  sep = λ x. false;
  encode = write_routes_of_c;
  decode = read_routes_of_c;
  join = λ r. if list_eq r route then "b-c" else "other";
  split = λ k. if k == "b-c" then route else k ∷ [];
}

reads_back : (m : Routes) (v : String) → write_routes_of_c m ≡ ok v → read_routes_of_c v ≡ ok m
reads_back [] v e = rw (← ok-injective e)
reads_back ((d, []) ∷ []) v e = elim (Bool-cases (d == "c")) [
  | inr t ↦ absurd (ground arith)
  | inl t ↦
      let same : d ≡ "c" = (text_key.beq_iff d "c").0 t in rw (← ok-injective (rw t at e), same)
]
reads_back ((d, (k, x) ∷ []) ∷ []) v e =
    elim (Bool-cases ((d == "c") && (k == "b-c") && eqb_ℤ x (pos 20))) [
      | inr t ↦ absurd (ground arith)
      | inl t ↦
          let same_d = text_key.beq_iff d "c" in
          let same_k = text_key.beq_iff k "b-c" in
          let sd : d ≡ "c" = ground arith in
          let sk : k ≡ "b-c" = ground arith in
          let sx : x ≡ pos 20 = ground (arith, eq_of_parts x (pos 20)) in
          rw (← ok-injective (rw t at e), sd, sk, sx)
    ]
reads_back ((d, (k, x) ∷ y ∷ r) ∷ []) v e = absurd (ground arith)
reads_back ((d, []) ∷ y ∷ m) v e = absurd (ground arith)
reads_back ((d, z ∷ r) ∷ y ∷ m) v e = absurd (ground arith)

-- The store with the link, and with the route over it.
abbrev with_value : String → Store
with_value v =
    ([], record { node_data = ""; children = ("1", true) ∷ [] })
    ∷ ("1" ∷ [], record { node_data = ""; children = ("b", true) ∷ [] })
    ∷ ("1" ∷ "b" ∷ [], record { node_data = v; children = [] })
    ∷ []

adds :
    add_route node_a (pos 10) "1" route (pos 10) (with_value "{}") (with_value "{}")
    ≡ ok (with_value "{c:b-c}")
unfolding add_route max_hop trim_route length take check_acyclic get_elem check_link has get_ds_key
    read_routes get cleanup add_prefixes record_route write_routes put put_under enter put_leaf ◌+ℤ◌
adds = refl

removes :
    remove_route node_a (pos 15) "1" route (with_value "{c:b-c}") (with_value "{c:b-c}")
    ≡ ok (with_value "{c}")
unfolding remove_route max_hop trim_route length take check_acyclic get_elem check_link has
    get_ds_key read_routes get cleanup live_routes forget_route write_routes put put_under enter
    put_leaf
removes = refl

trims : trim_route "a" route 5 ≡ ok route
unfolding trim_route length take check_acyclic
trims = refl

first : get_elem 0 route ≡ ok "b"
unfolding get_elem
first = refl

second : get_elem 1 route ≡ ok "c"
unfolding get_elem
second = refl

hops : max_hop node_a "1" ≡ ok 5
unfolding max_hop
hops = refl

splits : node_a.split (node_a.join (take 2 route)) ≡ take 2 route
unfolding take
splits = refl

added_route_listed_example :
    (sends (take 2 route) (list_routes_from node_a (pos 15) "1" "b" (with_value "{c:b-c}")).0
      ≡ true)
    × (sends
          (take 2 route)
          (routes_over node_a (pos 15) "1" "c" (with_value "{c:b-c}") (("b", true) ∷ []))
        ≡ true)
unfolding ◌+ℤ◌
added_route_listed_example =
    added_route_listed node_a (pos 10) (pos 15) (pos 10) "1" "b" "c" "a" route route 5 0
      (with_value "{}") (with_value "{}") (("b", true) ∷ []) reads_back splits refl hops trims first
      second refl adds (omega arith)

removed_route_gone_example :
    (expiry_at "c" "b-c" (stored node_a (with_value "{c}") "1" "b") ≡ none)
    × ((d k : String) (t : Time)
        → (("c" == d) && ("b-c" == k)) ≡ false
        → expiry_at d k (stored node_a (with_value "{c:b-c}") "1" "b") ≡ some t
        → pos 15 <ℤ t
        → expiry_at d k (stored node_a (with_value "{c}") "1" "b") ≡ some t)
    × ((d k : String) (t : Time)
        → expiry_at d k (stored node_a (with_value "{c}") "1" "b") ≡ some t
        → pos 15 <ℤ t)
unfolding length
removed_route_gone_example =
    removed_route_gone node_a (pos 15) "1" "b" "c" "a" route route 5 (with_value "{c:b-c}")
      (with_value "{c:b-c}") reads_back refl hops trims first second removes

clean_pass_unseen_example :
    (list_routes_from node_a
        (pos 30)
        "1"
        "b"
        (clean_routes node_a (pos 25) (("1", 5) ∷ []) (with_value "{c:b-c}"))
      ≡ list_routes_from node_a (pos 30) "1" "b" (with_value "{c:b-c}"))
    × (routes_over node_a
          (pos 30)
          "1"
          "b"
          (clean_routes node_a (pos 25) (("1", 5) ∷ []) (with_value "{c:b-c}"))
          (("b", true) ∷ [])
        ≡ routes_over node_a (pos 30) "1" "b" (with_value "{c:b-c}") (("b", true) ∷ []))
clean_pass_unseen_example =
    clean_pass_unseen node_a reads_back (pos 25) (pos 30) (omega arith) (("1", 5) ∷ [])
      (with_value "{c:b-c}") "1" "b" (("b", true) ∷ [])

abbrev calls : List Call
calls =
    adds_route (pos 10) "1" route (pos 10) (with_value "{}")
    ∷ cleans_link (pos 15) "1" "b"
    ∷ removes_route (pos 15) "1" route (with_value "{c:b-c}")
    ∷ removes_link "1" "b" (with_value "{c}")
    ∷ []

stored_routes_known_example :
    AreKnown node_a.join "a" 5 "b"
      (stored node_a (after_calls node_a calls (with_value "{}")) "1" "b")
stored_routes_known_example =
    stored_routes_known node_a reads_back "1" "b" "a" 5 refl refl calls (with_value "{}") tt

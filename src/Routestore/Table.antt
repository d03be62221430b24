-- ===== src/Routestore/Table.antt =====
-- The routes of a direct link: routestore/utils.go, and the loops over them of
-- routestore/routestore_impl.go. A link's routes are a map from destinations to a map from routes to
-- expiries; a route's key is its addresses joined with RouteKeySeperator. Lengths stay below 2^63, so
-- the conversion of maxHop to int is left out, and one reading of the clock serves a whole call.
use fcr.Base.{
  ◌>>=◌, ◌>>◌, String, List, ℕ, zero, suc, [], ◌∷◌, Result, panic, ok, fail_if, Bool, true, nat_eq,
  ltb, if◌then◌else◌, none, some, ◌++◌, text_key,
}
use fcr.Base.Int.{ltb_ℤ}
use fcr.Base.Nested.{or_empty}
use fcr.Base.Map.{Map, is_some, insert, lookup, is_empty, erase}
use fcr.Paymgr.Types.{Time}

abbrev pub Routes : Type 0
Routes = Map String (Map String Time)

unfoldable pub length : List String → ℕ
length [] = 0
length (x ∷ xs) = suc (length xs)

unfoldable pub take : ℕ → List String → List String
take zero xs = []
take (suc n) [] = []
take (suc n) (x ∷ xs) = x ∷ take n xs

-- `route[i]`
unfoldable pub get_elem : ℕ → List String → Result String
get_elem i [] = panic
get_elem zero (x ∷ xs) = ok x
get_elem (suc i) (x ∷ xs) = get_elem i xs

unfoldable pub check_acyclic : Map String Bool → List String → Result (Unit {0})
check_acyclic visited [] = ok tt
check_acyclic visited (x ∷ route) = do
  fail_if (is_some (lookup x visited)) "route provided is cyclic"
  check_acyclic (insert x true visited) route

unfoldable pub trim_route : String → List String → ℕ → Result (List String)
trim_route root route max_hop = do
  fail_if (nat_eq (length route) 1) "invalid route provided, need to be at least 2"
  let trimmed = if ltb max_hop (length route) then take max_hop route else route
  check_acyclic ((root, true) ∷ []) trimmed
  ok trimmed

-- `temp` of cleanup, for one destination.
unfoldable pub live_routes : Time → Map String Time → Map String Time
live_routes now [] = []
live_routes now ((route, expiry) ∷ routes) =
    let temp = live_routes now routes in if ltb_ℤ now expiry then (route, expiry) ∷ temp else temp

unfoldable pub cleanup : Time → Routes → Routes
cleanup now [] = []
cleanup now ((dest, routes) ∷ m) =
    let rest = cleanup now m in
    let temp = live_routes now routes in if is_empty temp then rest else (dest, temp) ∷ rest

-- `routesMap[dest][routeKey] = expiry`
unfoldable pub record_route : String → String → Time → Routes → Routes
record_route dest key expiry m = insert dest (insert key expiry (or_empty (lookup dest m))) m

-- `delete(routesMap[dest], routeKey)`, where the destination is there.
unfoldable pub forget_route : String → String → Routes → Routes
forget_route dest key m = elim (lookup dest m) [
  | none ↦ m
  | some routes ↦ insert dest (erase key routes) m
]

-- `join` and `split` are strings.Join and strings.Split with RouteKeySeperator.
module _ (join : List String → String) where
  -- The loop of AddRoute, from the index `i` down to 1.
  unfoldable pub add_prefixes : List String → Time → ℕ → Routes → Result Routes
  add_prefixes trimmed expiry zero m = ok m
  add_prefixes trimmed expiry (suc i) m = do
    dest ← get_elem (suc i) trimmed
    add_prefixes trimmed expiry i (record_route dest (join (take (suc (suc i)) trimmed)) expiry m)

module _ (split : String → List String) where
  -- The routes of one destination, and of all of them.
  unfoldable pub route_list : Map String Time → List (List String)
  route_list [] = []
  route_list ((key, expiry) ∷ routes) = split key ∷ route_list routes

  unfoldable pub all_routes : Routes → List (List String)
  all_routes [] = []
  all_routes ((dest, routes) ∷ m) = route_list routes ++ all_routes m

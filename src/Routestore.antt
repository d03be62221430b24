-- ===== src/Routestore.antt =====
-- The routes that the node knows: RouteStoreImpl of routestore/routestore_impl.go and its clean routine
-- of routestore/routines.go, over the store of mdlstore/. The text of a currency id is the first part
-- of a path, the recipient of a direct link the second. Locks that fail, and transactions that the
-- datastore refuses, are not modelled; a call looks under the read lock at `seen`.
mod Examples
pub mod Table
pub mod Links
pub mod Trim
pub mod Prefixes
pub mod Calls
pub mod Valid
pub mod Clean
pub mod Listing
pub mod Added
pub mod Fresh
pub mod Removed
use fcr.Base.{
  ◌>>=◌, ◌>>◌, String, List, ℕ, Result, Bool, or_fail, [], ◌∷◌, ◌==◌, fail_if, ok, err, panic, not,
  ◌-◌, text_key, if◌then◌else◌, ◌++◌,
}
use fcr.Base.Int.{◌+ℤ◌}
use fcr.Base.Nested.{or_empty}
use fcr.Base.Map.{Map, lookup}
use fcr.Paymgr.Types.{Time}
use fcr.Mdlstore.{Store, get, put, has, delete, get_children}
use fcr.Routestore.Table.{
  Routes, trim_route, get_elem, add_prefixes, length, cleanup, forget_route, route_list, all_routes,
}

-- The routes that go out on a channel, and the error that goes out after them.
abbrev pub Listing : Type 0
Listing = List (List String) × Result (Unit {0})

-- The fields of a route store that its operations read, and the libraries' code that they call: the
-- signer's GetAddr, less the key type; the test for the separator of the datastore; json.Marshal and
-- json.Unmarshal of the routes of a link; strings.Join and strings.Split with RouteKeySeperator.
pub record RouteStoreImpl : Type 0 where
  pub max_hops : Map String ℕ
  pub get_addr : String → Result String
  pub sep : String → Bool
  pub encode : Routes → Result String
  pub decode : String → Result Routes
  pub join : List String → String
  pub split : String → List String

module _ (rs : RouteStoreImpl) where
  unfoldable pub max_hop : String → Result ℕ
  max_hop cur = or_fail (lookup cur rs.max_hops) "currency does not have max hop set"

  -- The routes of a link as they are stored, and writing them.
  unfoldable pub read_routes : String → String → Store → Result Routes
  read_routes cur src s = do val ← get rs.sep (cur ∷ src ∷ []) s; rs.decode val

  unfoldable pub write_routes : String → String → Routes → Store → Result Store
  write_routes cur src m s = do val ← rs.encode m; put rs.sep val (cur ∷ src ∷ []) s

  unfoldable pub add_direct_link : String → String → Store → Store → Result Store
  add_direct_link cur to_addr seen s = do
    hops ← max_hop cur
    root ← rs.get_addr cur
    fail_if (root == to_addr) "cannot add self"
    exists ← has rs.sep (cur ∷ to_addr ∷ []) seen
    let write = do
      exists' ← has rs.sep (cur ∷ to_addr ∷ []) s
      if exists' then ok s else write_routes cur to_addr [] s
    if exists then ok s else write

  unfoldable pub remove_direct_link : String → String → Store → Store → Result Store
  remove_direct_link cur to_addr seen s = do
    hops ← max_hop cur
    root ← rs.get_addr cur
    exists ← has rs.sep (cur ∷ to_addr ∷ []) seen
    let remove = do
      exists' ← has rs.sep (cur ∷ to_addr ∷ []) s
      if exists' then delete rs.sep (cur ∷ to_addr ∷ []) s else ok s
    if exists then remove else ok s

  -- `has` under a lock, with the error of AddRoute and RemoveRoute.
  unfoldable pub check_link : String → String → Store → Result (Unit {0})
  check_link cur src s = do
    exists ← has rs.sep (cur ∷ src ∷ []) s
    fail_if (not exists) "currency id does not have any direct link"

  unfoldable pub add_route : Time → String → List String → Time → Store → Store → Result Store
  add_route now cur route ttl seen s = do
    hops ← max_hop cur
    root ← rs.get_addr cur
    trimmed ← trim_route root route hops
    src ← get_elem 0 trimmed
    check_link cur src seen
    check_link cur src s
    m ← read_routes cur src s
    m' ← add_prefixes rs.join trimmed (now +ℤ ttl) (length trimmed - 1) (cleanup now m)
    write_routes cur src m' s

  unfoldable pub remove_route : Time → String → List String → Store → Store → Result Store
  remove_route now cur route seen s = do
    hops ← max_hop cur
    root ← rs.get_addr cur
    trimmed ← trim_route root route hops
    src ← get_elem 0 trimmed
    check_link cur src seen
    m ← read_routes cur src seen
    dest ← get_elem (length trimmed - 1) trimmed
    routes ← or_fail (lookup dest m) "route destination not exists"
    expiry ← or_fail (lookup (rs.join trimmed) routes) "route not exists"
    check_link cur src s
    m' ← read_routes cur src s
    write_routes cur src (forget_route dest (rs.join trimmed) (cleanup now m')) s

  -- The routes over each link in turn; a link that cannot be read is passed over.
  unfoldable pub routes_over : Time → String → String → Store → Map String Bool → List (List String)
  routes_over now cur to_addr s [] = []
  routes_over now cur to_addr s ((src, b) ∷ children) =
      let rest = routes_over now cur to_addr s children in
      elim (read_routes cur src s) [
        | panic ↦ rest
        | err e ↦ rest
        | ok m ↦ route_list rs.split (or_empty (lookup to_addr (cleanup now m))) ++ rest
      ]

  unfoldable pub list_routes_to : Time → String → String → Store → Listing
  list_routes_to now cur to_addr s =
      elim (rs.get_addr cur >>= λ root. get_children rs.sep (cur ∷ []) s) [
        | panic ↦ ([], panic)
        | err e ↦ ([], err e)
        | ok children ↦ (routes_over now cur to_addr s children, ok tt)
      ]

  -- Where the link is there, it goes out itself before its routes are read.
  unfoldable pub list_routes_from : Time → String → String → Store → Listing
  list_routes_from now cur to_addr s =
      elim (do hops ← max_hop cur; root ← rs.get_addr cur; has rs.sep (cur ∷ to_addr ∷ []) s) [
        | panic ↦ ([], panic)
        | err e ↦ ([], err e)
        | ok exists ↦
            let link = to_addr ∷ [] in
            let found : Listing = elim (read_routes cur to_addr s) [
              | panic ↦ (link ∷ [], panic)
              | err e ↦ (link ∷ [], err e)
              | ok m ↦ (link ∷ all_routes rs.split (cleanup now m), ok tt)
            ] in
            if exists then found else ([], ok tt)
      ]

  -- One pass of the clean routine: a link, the links of a currency, all currencies. An error leaves a
  -- link as it is.
  unfoldable pub clean_link : Time → String → String → Store → Store
  clean_link now cur src s =
      elim (read_routes cur src s >>= λ m. write_routes cur src (cleanup now m) s) [
        | panic ↦ s
        | err e ↦ s
        | ok s' ↦ s'
      ]

  unfoldable pub clean_links : Time → String → Map String Bool → Store → Store
  clean_links now cur [] s = s
  clean_links now cur ((src, b) ∷ children) s =
      clean_links now cur children (clean_link now cur src s)

  unfoldable pub clean_routes : Time → Map String ℕ → Store → Store
  clean_routes now [] s = s
  clean_routes now ((cur, hops) ∷ rest) s = elim (get_children rs.sep (cur ∷ []) s) [
    | panic ↦ clean_routes now rest s
    | err e ↦ clean_routes now rest s
    | ok children ↦ clean_routes now rest (clean_links now cur children s)
  ]

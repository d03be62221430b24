-- ===== src/Routestore/Calls.antt =====
-- Sequences of calls of a route store, and the routes of a link in the store that they leave.
use fcr.Routestore.Table.{Routes}
use fcr.Routestore.{
  RouteStoreImpl, add_direct_link, remove_direct_link, add_route, remove_route, clean_link,
}
use fcr.Paymgr.Types.{Time}
use fcr.Mdlstore.{Store}
use fcr.Base.{String, List, Option, Result, none, [], some, panic, err, ok, ◌∷◌, text_key}
use fcr.Mdlstore.Pairs.{pairs}

-- The calls of AddDirectLink, RemoveDirectLink, AddRoute and RemoveRoute, and the clean routine at one
-- link. Each of the first four has looked at a store under the read lock.
pub data Call : Type 0 where
  adds_link : String → String → Store → Call
  removes_link : String → String → Store → Call
  adds_route : Time → String → List String → Time → Store → Call
  removes_route : Time → String → List String → Store → Call
  cleans_link : Time → String → String → Call

-- The routes of a link that is there and reads.
abbrev routes_of : Option (Result Routes) → Routes
routes_of none = []
routes_of (some panic) = []
routes_of (some (err e)) = []
routes_of (some (ok m)) = m

module _ (rs : RouteStoreImpl) where
  unfoldable pub call : Call → Store → Result Store
  call (adds_link cur to_addr seen) s = add_direct_link rs cur to_addr seen s
  call (removes_link cur to_addr seen) s = remove_direct_link rs cur to_addr seen s
  call (adds_route now cur route ttl seen) s = add_route rs now cur route ttl seen s
  call (removes_route now cur route seen) s = remove_route rs now cur route seen s
  call (cleans_link now cur src) s = ok (clean_link rs now cur src s)

  -- The store after a number of calls; one that fails changes nothing.
  abbrev pub after_call : Call → Store → Store
  after_call c s = elim (call c s) [ panic ↦ s | err e ↦ s | ok s' ↦ s' ]

  abbrev pub after_calls : List Call → Store → Store
  after_calls [] s = s
  after_calls (c ∷ cs) s = after_calls cs (after_call c s)

  -- The routes of a link in a store.
  abbrev pub stored : Store → String → String → Routes
  stored s cur src = routes_of (pairs rs.sep rs.decode s cur src)

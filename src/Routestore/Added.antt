-- ===== src/Routestore/Added.antt =====
-- AddRoute of routestore/routestore_impl.go followed by the listings.
use fcr.Routestore.{
  RouteStoreImpl, read_routes, routes_over, max_hop, add_route, list_routes_from, check_link,
  write_routes,
}
use fcr.Routestore.Table.{
  Routes, route_list, trim_route, get_elem, add_prefixes, take, length, cleanup, all_routes,
}
use fcr.Base.{
  String, Bool, ◌≡◌, ok, some, true, [], arith, ◌∷◌, Bool-cases, ◌==◌, inl, text_key, inr,
  Result-cases, List, ℕ, suc, ◌≤◌, ◌-◌, ◌>>=◌, >>=-eq-ok, zero,
}
use fcr.Base.Int.{◌<ℤ◌, ◌+ℤ◌}
use fcr.Paymgr.Types.{Time}
use fcr.Base.Map.{Map, lookup}
use fcr.Mdlstore.{Store}
use fcr.Routestore.Listing.{
  expiry_at, sends, cleanup-sends, sends-append_left, sends-append_right, add_prefixes-records,
}
use fcr.Base.Nested.{or_empty}
use fcr.Routestore.Links.{write-read, write-has}

get_elem-length : (j : ℕ) (r : List String) {x : String} → get_elem j r ≡ ok x → suc j ≤ length r
unfolding get_elem length
get_elem-length j [] e = absurd (ground arith)
get_elem-length zero (x ∷ r) e = ground arith
get_elem-length (suc j) (x ∷ r) e = ground (arith, get_elem-length j r e)

module _ (rs : RouteStoreImpl) where
  routes_over-sends :
      (later : Time) (cur dest src key : String) (children : Map String Bool) (s : Store)
      {m : Routes} {x : Time} {b : Bool}
      → read_routes rs cur src s ≡ ok m
      → expiry_at dest key m ≡ some x
      → later <ℤ x
      → lookup src children ≡ some b
      → sends (rs.split key) (routes_over rs later cur dest s children) ≡ true
  unfolding routes_over
  routes_over-sends later cur dest src key [] s r h l c = absurd (ground arith)
  routes_over-sends later cur dest src key ((p, a) ∷ children) s {m} r h l c =
      let rest = routes_over rs later cur dest s children in
      elim (Bool-cases (p == src)) [
        | inl t ↦
            let same : p ≡ src = (text_key.beq_iff p src).0 t in
            let (f, g) = cleanup-sends rs.split later dest key m h l in
            rw (routes_over, same, r)
              (sends-append_left (rs.split key)
                (route_list rs.split (or_empty (lookup dest (cleanup later m)))) rest g)
        | inr t ↦
            let there = routes_over-sends later cur dest src key children s r h l (rw t at c) in
            elim (Result-cases (read_routes rs cur p s)) [
              | inr (inl (y, e)) ↦ rw (routes_over, e) there
              | inr (inr e) ↦ rw (routes_over, e) there
              | inl (n, e) ↦
                  rw (routes_over, e)
                    (sends-append_right (rs.split key)
                      (route_list rs.split (or_empty (lookup dest (cleanup later n)))) rest there)
            ]
      ]

  -- Where AddRoute succeeds, each prefix of the trimmed route, from two nodes on, is sent out by
  -- ListRoutesFrom for its first node, and by the loop of ListRoutesTo for its last node over any links
  -- that have the first, until the time to live is over. It is stated for a prefix that Split reads back
  -- from its key, and a decoder that reads back what the encoder writes.
  pub added_route_listed :
      (now later ttl : Time) (cur src dest root : String) (route r : List String) (hops j : ℕ)
      (seen s : Store) {s' : Store} (children : Map String Bool) {b : Bool}
      → ((m : Routes) (v : String) → rs.encode m ≡ ok v → rs.decode v ≡ ok m)
      → rs.split (rs.join (take (suc (suc j)) r)) ≡ take (suc (suc j)) r
      → rs.get_addr cur ≡ ok root
      → max_hop rs cur ≡ ok hops
      → trim_route root route hops ≡ ok r
      → get_elem 0 r ≡ ok src
      → get_elem (suc j) r ≡ ok dest
      → lookup src children ≡ some b
      → add_route rs now cur route ttl seen s ≡ ok s'
      → later <ℤ now +ℤ ttl
      → (sends (take (suc (suc j)) r) (list_routes_from rs later cur src s').0 ≡ true)
        × (sends (take (suc (suc j)) r) (routes_over rs later cur dest s' children) ≡ true)
  unfolding add_route list_routes_from
  added_route_listed now later ttl cur src dest root route r hops j seen s {s'} children reads_back
        split_join a n t first at_j child e fresh =
      let e' : (check_link rs cur src seen >>= λ u. check_link rs cur src s >>= λ u'.
      read_routes rs cur src s >>= λ m.
      add_prefixes rs.join r (now +ℤ ttl) (length r - 1) (cleanup now m) >>= λ m'.
      write_routes rs cur src m' s)
          ≡ ok s' =
        rw (n, a, t, first) at e in
      let (u, f₄, e₄) = >>=-eq-ok (check_link rs cur src seen) _ e' in
      let (u', f₅, e₅) = >>=-eq-ok (check_link rs cur src s) _ e₄ in
      let (m, f₆, e₆) = >>=-eq-ok (read_routes rs cur src s) _ e₅ in
      let (m', f₇, e₇) =
        >>=-eq-ok (add_prefixes rs.join r (now +ℤ ttl) (length r - 1) (cleanup now m)) _ e₆ in
      let (read, there) = write-read rs cur src m' s (reads_back m') e₇ in
      let known = write-has rs cur src m' s e₇ in
      let key = rs.join (take (suc (suc j)) r) in
      let bound = get_elem-length (suc j) r at_j in
      let le : suc j ≤ length r - 1 = omega (arith, bound) in
      let stored =
        add_prefixes-records rs.join r (now +ℤ ttl) (length r - 1) j (cleanup now m) f₇ le at_j in
      let (f, g) = cleanup-sends rs.split later dest key m' stored fresh in
      let over = routes_over-sends later cur dest src key children s' read stored fresh child in
      rw (← split_join) (
        rw (list_routes_from, n, a, known, read)
            (sends-append_right (rs.split key) ((src ∷ []) ∷ [])
              (all_routes rs.split (cleanup later m')) f),
        over,
      )

-- ===== src/Routestore/Listing.antt =====
-- That a route that was added is found: AddRoute records each prefix, and the listings send it out
-- until it expires.
use mathlib.Core.Path.{subst}
use fcr.Routestore.Table.{
  Routes, record_route, add_prefixes, get_elem, route_list, live_routes, all_routes, take, cleanup,
}
use fcr.Base.{
  if◌then◌else◌, List, String, Bool, [], false, ◌∷◌, ◌||◌, Option, ◌≡◌, true, ◌++◌, arith, ◌==◌,
  ◌&&◌, some, text_key, ℕ, ok, zero, ok-injective, suc, >>=-eq-ok, ◌≤◌, Bool-cases, nat_eq, inl,
  nat_eq_iff, sym, ◌∙◌, inr, ap, refl,
}
use fcr.Base.Int.{◌<ℤ◌, ltb_ℤ}
use fcr.Mdlstore.{path_key, list_eq, list_eq_iff}
use fcr.Paymgr.Types.{Time}
use fcr.Base.Nested.{or_empty}
use fcr.Base.Map.{lookup-insert, Map, is_empty, lookup, insert}

-- Whether a route is in a listing.
abbrev pub sends : List String → List (List String) → Bool
sends r [] = false
sends r (t ∷ ts) = list_eq t r || sends r ts

-- `routesMap[dest][routeKey]`
abbrev pub expiry_at : String → String → Routes → Option Time
expiry_at dest key m = lookup key (or_empty (lookup dest m))

pub sends-append_left :
    (r : List String) (xs ys : List (List String)) → sends r xs ≡ true → sends r (xs ++ ys) ≡ true
sends-append_left r [] ys h = absurd (ground arith)
sends-append_left r (x ∷ xs) ys h = ground (arith, sends-append_left r xs ys)

pub sends-append_right :
    (r : List String) (xs ys : List (List String)) → sends r ys ≡ true → sends r (xs ++ ys) ≡ true
sends-append_right r [] ys h = h
sends-append_right r (x ∷ xs) ys h = ground (arith, sends-append_right r xs ys h)

expiry-record_route :
    (dest key : String) (x : Time) (d k : String) (m : Routes)
    → expiry_at d k (record_route dest key x m)
      ≡ (if (dest == d) && (key == k) then some x else expiry_at d k m)
unfolding record_route
expiry-record_route dest key x d k m = ground (
  arith,
  lookup-insert dest d (insert key x (or_empty (lookup dest m))) m,
  lookup-insert key k x (or_empty (lookup dest m)),
  text_key.beq_iff dest d,
)

module _ (join : List String → String) where
  recorded_stays :
      (r : List String) (x : Time) (i : ℕ) (m : Routes) {m' : Routes} (d k : String)
      → add_prefixes join r x i m ≡ ok m'
      → expiry_at d k m ≡ some x
      → expiry_at d k m' ≡ some x
  unfolding add_prefixes
  recorded_stays r x zero m d k e h =
      subst (λ (t : Routes). expiry_at d k t ≡ some x) (ok-injective e) h
  recorded_stays r x (suc i) m d k e h =
      let (dest, at_i, f) = >>=-eq-ok (get_elem (suc i) r) _ e in
      let key = join (take (suc (suc i)) r) in
      let there = expiry-record_route dest key x d k m in
      recorded_stays r x i (record_route dest key x m) d k f (ground (arith, there, h))

  -- The loop of AddRoute gives each prefix it comes to the new expiry.
  pub add_prefixes-records :
      (r : List String) (x : Time) (i j : ℕ) (m : Routes) {m' : Routes} {dest : String}
      → add_prefixes join r x i m ≡ ok m'
      → suc j ≤ i
      → get_elem (suc j) r ≡ ok dest
      → expiry_at dest (join (take (suc (suc j)) r)) m' ≡ some x
  unfolding add_prefixes
  add_prefixes-records r x zero j m e le at_j = absurd (ground arith)
  add_prefixes-records r x (suc i) j m {m'} {dest} e le at_j =
      let (d, at_i, f) = >>=-eq-ok (get_elem (suc i) r) _ e in
      let key = join (take (suc (suc i)) r) in
      elim (Bool-cases (nat_eq i j)) [
        | inl t ↦
            let same : i ≡ j = (nat_eq_iff i j).0 t in
            let at_i' : get_elem (suc j) r ≡ ok d = rw (← same) at_i in
            let same_dest : d ≡ dest = ok-injective (sym at_i' ∙ at_j) in
            let there = expiry-record_route d key x d key m in
            let new : expiry_at d key (record_route d key x m) ≡ some x =
              ground (arith, there, text_key.beq_iff d d, text_key.beq_iff key key) in
            rw (← same, ← same_dest) (recorded_stays r x i (record_route d key x m) d key f new)
        | inr t ↦
            let id = nat_eq_iff i j in
            add_prefixes-records r x i j (record_route d key x m) f (ground arith) at_j
      ]

module _ (split : String → List String) where
  live_routes-sends :
      (now : Time) (key : String) (m : Map String Time) {x : Time}
      → lookup key m ≡ some x
      → now <ℤ x
      → (sends (split key) (route_list split (live_routes now m)) ≡ true)
        × (is_empty (live_routes now m) ≡ false)
  unfolding live_routes route_list
  live_routes-sends now key [] e h = absurd (ground arith)
  live_routes-sends now key ((k, y) ∷ m) {x} e h = elim (Bool-cases (k == key)) [
    | inl t ↦
        let same : k ≡ key = (text_key.beq_iff k key).0 t in
        let date : some y ≡ some x = rw t at e in
        let live : ltb_ℤ now y ≡ true = ground (arith, date, h) in
        let id = (list_eq_iff (split k) (split key)).1 (ap split same) in
        rw live (ground (arith, id), refl)
    | inr t ↦
        let (f, g) = live_routes-sends now key m (rw t at e) h in
        elim (Bool-cases (ltb_ℤ now y)) [
          | inl a ↦ rw a (ground (arith, f), refl)
          | inr a ↦ rw a (f, g)
        ]
  ]

  -- What is stored and has not expired goes out, to its destination and from its link.
  pub cleanup-sends :
      (now : Time) (dest key : String) (m : Routes) {x : Time}
      → expiry_at dest key m ≡ some x
      → now <ℤ x
      → (sends (split key) (all_routes split (cleanup now m)) ≡ true)
        × (sends (split key) (route_list split (or_empty (lookup dest (cleanup now m)))) ≡ true)
  unfolding cleanup all_routes
  cleanup-sends now dest key [] e h = absurd (ground arith)
  cleanup-sends now dest key ((d, routes) ∷ m) {x} e h = elim (Bool-cases (d == dest)) [
    | inl t ↦
        let there : lookup key routes ≡ some x = rw t at e in
        let (f, g) = live_routes-sends now key routes there h in
        rw (cleanup, g, all_routes, t)
          (
            sends-append_left (split key) (route_list split (live_routes now routes))
                (all_routes split (cleanup now m)) f,
            f,
          )
    | inr t ↦
        let (f, g) = cleanup-sends now dest key m (rw t at e) h in
        elim (Bool-cases (is_empty (live_routes now routes))) [
          | inl a ↦ rw (cleanup, a) (f, g)
          | inr a ↦
              rw (cleanup, a, all_routes, t)
                (
                  sends-append_right (split key) (route_list split (live_routes now routes))
                      (all_routes split (cleanup now m)) f,
                  g,
                )
        ]
  ]

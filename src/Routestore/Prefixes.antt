-- ===== src/Routestore/Prefixes.antt =====
-- The routes that AddRoute records for one route: each of its prefixes, from two nodes on.
use mathlib.Core.Path.{subst}
use fcr.Routestore.Table.{
  Routes, get_elem, live_routes, record_route, forget_route, add_prefixes, length, take, cleanup,
}
use fcr.Base.{
  ℕ, List, String, ◌≡◌, ok, suc, [], arith, zero, ◌∷◌, refl, false, ◌≤◌, ◌-◌, Bool-cases, inl, inr,
  Option-cases, ok-injective, >>=-eq-ok, text_key,
}
use fcr.Routestore.Trim.{IsSimple, visits}
use fcr.Base.Sum.{All, lookup-All, insert-All, erase-All}
use fcr.Base.Map.{Map, is_empty, lookup, insert, erase}
use fcr.Paymgr.Types.{Time}
use fcr.Base.Int.{ltb_ℤ}
use fcr.Base.Nested.{or_empty}

get_elem-take :
    (j : ℕ) (r : List String) {x : String}
    → get_elem j r ≡ ok x
    → (length (take (suc j) r) ≡ suc j) × (get_elem j (take (suc j) r) ≡ ok x)
unfolding get_elem length take
get_elem-take j [] e = absurd (ground arith)
get_elem-take zero (x ∷ r) e = (refl, e)
get_elem-take (suc j) (x ∷ r) e = let (f, g) = get_elem-take j r e in (ground arith, g)

get_elem_first :
    (j : ℕ) (r : List String) {x : String}
    → get_elem 0 r ≡ ok x
    → get_elem 0 (take (suc j) r) ≡ ok x
unfolding get_elem take
get_elem_first j [] e = e
get_elem_first j (x ∷ r) e = e

visits-take :
    (x : String) (n : ℕ) (r : List String) → visits x r ≡ false → visits x (take n r) ≡ false
unfolding take
visits-take x zero r h = refl
visits-take x (suc n) [] h = refl
visits-take x (suc n) (y ∷ r) h = ground (arith, visits-take x n r)

IsSimple-take : (n : ℕ) (r : List String) → IsSimple r → IsSimple (take n r)
unfolding take
IsSimple-take zero r h = tt
IsSimple-take (suc n) [] h = tt
IsSimple-take (suc n) (x ∷ r) (v, h) = (visits-take x n r v, IsSimple-take n r h)

length-take_le : (n : ℕ) (r : List String) → length (take n r) ≤ length r
unfolding length take
length-take_le zero r = ground arith
length-take_le (suc n) [] = ground arith
length-take_le (suc n) (x ∷ r) = ground (arith, length-take_le n r)

module _ (join : List String → String) (root : String) (hops : ℕ) (src : String) where
  -- A key that joins a route from the link to the destination, of at most the hops allowed, that visits
  -- no node twice and not the node itself.
  abbrev pub IsKnown : String → String → Type 0
  IsKnown dest key =
      (r : List String) × (key ≡ join r)
      × IsSimple (root ∷ r)
      × (length r ≤ hops)
      × (get_elem 0 r ≡ ok src)
      × (get_elem (length r - 1) r ≡ ok dest)

  abbrev pub AreKnown : Routes → Type 0
  AreKnown = All (λ (dest : String) (routes : Map String Time).
      All (λ (key : String) (expiry : Time). IsKnown dest key) routes)

  prefix-IsKnown :
      (r : List String) (j : ℕ) {dest : String}
      → IsSimple (root ∷ r)
      → length r ≤ hops
      → get_elem 0 r ≡ ok src
      → get_elem j r ≡ ok dest
      → IsKnown dest (join (take (suc j) r))
  prefix-IsKnown r j {dest} (new, simple) le first at_j =
      let (n, last) = get_elem-take j r at_j in
      let pred : suc j - 1 ≡ j = omega arith in
      let at_end : get_elem (length (take (suc j) r) - 1) (take (suc j) r) ≡ ok dest =
        rw (n, pred) last in
      (
        take (suc j) r,
        refl,
        (visits-take root (suc j) r new, IsSimple-take (suc j) r simple),
        ground (arith, length-take_le (suc j) r),
        get_elem_first j r first,
        at_end,
      )

  live_routes-All :
      (P : String → Time → Type 0) (now : Time) (m : Map String Time)
      → All P m
      → All P (live_routes now m)
  unfolding live_routes
  live_routes-All P now [] h = tt
  live_routes-All P now ((key, expiry) ∷ m) (p, h) = elim (Bool-cases (ltb_ℤ now expiry)) [
    | inl e ↦ rw e (p, live_routes-All P now m h)
    | inr e ↦ rw e (live_routes-All P now m h)
  ]

  pub cleanup-AreKnown : (now : Time) (m : Routes) → AreKnown m → AreKnown (cleanup now m)
  unfolding cleanup
  cleanup-AreKnown now [] h = tt
  cleanup-AreKnown now ((dest, routes) ∷ m) (p, h) =
      elim (Bool-cases (is_empty (live_routes now routes))) [
        | inl e ↦ rw e (cleanup-AreKnown now m h)
        | inr e ↦ rw e (
          live_routes-All (λ (key : String) (expiry : Time). IsKnown dest key) now routes p,
          cleanup-AreKnown now m h,
        )
      ]

  or_empty-IsKnown :
      (dest : String) (m : Routes)
      → AreKnown m
      → All (λ (key : String) (expiry : Time). IsKnown dest key) (or_empty (lookup dest m))
  or_empty-IsKnown dest m h = elim (Option-cases (lookup dest m)) [
    | inl e ↦ rw e tt
    | inr (routes, e) ↦ rw e (
        lookup-All
          (λ (d : String) (rs : Map String Time).
            All (λ (key : String) (expiry : Time). IsKnown d key) rs)
          dest routes m h e)
  ]

  record_route-AreKnown :
      (dest key : String) (expiry : Time) (m : Routes)
      → IsKnown dest key
      → AreKnown m
      → AreKnown (record_route dest key expiry m)
  unfolding record_route
  record_route-AreKnown dest key expiry m p h =
      insert-All
        (λ (d : String) (rs : Map String Time). All (λ (k : String) (e : Time). IsKnown d k) rs)
        dest (insert key expiry (or_empty (lookup dest m))) m
        (insert-All (λ (k : String) (e : Time). IsKnown dest k) key expiry
          (or_empty (lookup dest m)) p (or_empty-IsKnown dest m h))
        h

  pub forget_route-AreKnown :
      (dest key : String) (m : Routes) → AreKnown m → AreKnown (forget_route dest key m)
  unfolding forget_route
  forget_route-AreKnown dest key m h = elim (Option-cases (lookup dest m)) [
    | inl e ↦ rw (forget_route, e) h
    | inr (routes, e) ↦
        let there = or_empty-IsKnown dest m h in
        rw (forget_route, e)
          (insert-All
            (λ (d : String) (rs : Map String Time). All (λ (k : String) (x : Time). IsKnown d k) rs)
            dest (erase key routes) m
            (erase-All (λ (k : String) (x : Time). IsKnown dest k) key routes (rw e at there)) h)
  ]

  pub add_prefixes-AreKnown :
      (r : List String) (expiry : Time) (i : ℕ) (m : Routes) {m' : Routes}
      → IsSimple (root ∷ r)
      → length r ≤ hops
      → get_elem 0 r ≡ ok src
      → AreKnown m
      → add_prefixes join r expiry i m ≡ ok m'
      → AreKnown m'
  unfolding add_prefixes
  add_prefixes-AreKnown r expiry zero m simple le first h e = subst AreKnown (ok-injective e) h
  add_prefixes-AreKnown r expiry (suc i) m simple le first h e =
      let (dest, at_i, f) = >>=-eq-ok (get_elem (suc i) r) _ e in
      let key = join (take (suc (suc i)) r) in
      add_prefixes-AreKnown r expiry i (record_route dest key expiry m) simple le first
        (record_route-AreKnown dest key expiry m (prefix-IsKnown r (suc i) simple le first at_i) h)
        f

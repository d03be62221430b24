-- ===== src/Routestore/Removed.antt =====
-- RemoveRoute of routestore/routestore_impl.go.
use fcr.Routestore.{RouteStoreImpl, max_hop, remove_route, check_link, read_routes, write_routes}
use fcr.Routestore.Table.{Routes, forget_route, trim_route, get_elem, length, cleanup}
use fcr.Base.{
  if◌then◌else◌, String, ◌≡◌, ◌==◌, ◌&&◌, none, Option-cases, inl, text_key, Bool-cases, inr, arith,
  some, true, sym, ◌∙◌, List, ℕ, ok, ◌-◌, ◌>>=◌, or_fail, >>=-eq-ok, false,
}
use fcr.Paymgr.Types.{Time}
use fcr.Routestore.Listing.{expiry_at}
use fcr.Base.Map.{lookup-insert, lookup-erase, lookup, erase}
use fcr.Mdlstore.{Store}
use fcr.Routestore.Links.{read_routes-links, write-read}
use fcr.Routestore.Calls.{stored}
use fcr.Routestore.Fresh.{cleanup-keeps, cleanup-fresh}
use fcr.Base.Int.{◌<ℤ◌}

expiry-forget_route :
    (dest key d k : String) (m : Routes)
    → expiry_at d k (forget_route dest key m)
      ≡ (if (dest == d) && (key == k) then none else expiry_at d k m)
unfolding forget_route
expiry-forget_route dest key d k m = elim (Option-cases (lookup dest m)) [
  | inl e ↦
      let id = text_key.beq_iff dest d in
      let same : expiry_at d k (forget_route dest key m) ≡ expiry_at d k m = rw (forget_route, e) in
      elim (Bool-cases (dest == d)) [
        | inr t ↦ rw (same, t)
        | inl t ↦
            let at_d : dest ≡ d = ground arith in
            let gone : expiry_at d k m ≡ none = rw (← at_d, e) in rw same (ground (arith, gone))
      ]
  | inr (routes, e) ↦
      let there = lookup-insert dest d (erase key routes) m in
      let below = lookup-erase key k routes in
      elim (Bool-cases (dest == d)) [
        | inr t ↦ rw (forget_route, e, there, t)
        | inl t ↦
            let at_d : dest ≡ d = (text_key.beq_iff dest d).0 t in
            rw (forget_route, e, there, t, below, ← at_d, e)
      ]
]

module _ (rs : RouteStoreImpl) where
  removed_routes :
      (now : Time) (cur src dest root : String) (route r : List String) (hops : ℕ) (seen s : Store)
      {s' : Store}
      → ((m : Routes) (v : String) → rs.encode m ≡ ok v → rs.decode v ≡ ok m)
      → rs.get_addr cur ≡ ok root
      → max_hop rs cur ≡ ok hops
      → trim_route root route hops ≡ ok r
      → get_elem 0 r ≡ ok src
      → get_elem (length r - 1) r ≡ ok dest
      → remove_route rs now cur route seen s ≡ ok s'
      → (d k : String)
      → expiry_at d k (stored rs s' cur src) ≡ (
          if (dest == d) && (rs.join r == k)
          then none
          else expiry_at d k (cleanup now (stored rs s cur src)))
  unfolding remove_route
  removed_routes now cur src dest root route r hops seen s {s'} reads_back a n t first last e d k =
      let e' : (check_link rs cur src seen >>= λ u. read_routes rs cur src seen >>= λ m.
      or_fail (lookup dest m) "route destination not exists" >>= λ routes.
      or_fail (lookup (rs.join r) routes) "route not exists" >>= λ x.
      check_link rs cur src s >>= λ u'. read_routes rs cur src s >>= λ m'.
      write_routes rs cur src (forget_route dest (rs.join r) (cleanup now m')) s)
          ≡ ok s' =
        rw (n, a, t, first, last) at e in
      let (u, f₁, e₁) = >>=-eq-ok (check_link rs cur src seen) _ e' in
      let (m, f₂, e₂) = >>=-eq-ok (read_routes rs cur src seen) _ e₁ in
      let (routes, f₃, e₃) =
        >>=-eq-ok (or_fail (lookup dest m) "route destination not exists") _ e₂ in
      let (x, f₄, e₄) = >>=-eq-ok (or_fail (lookup (rs.join r) routes) "route not exists") _ e₃ in
      let (u', f₅, e₅) = >>=-eq-ok (check_link rs cur src s) _ e₄ in
      let (m', f₆, e₆) = >>=-eq-ok (read_routes rs cur src s) _ e₅ in
      let old = read_routes-links rs cur src s f₆ in
      let next = forget_route dest (rs.join r) (cleanup now m') in
      let (read, new) = write-read rs cur src next s (reads_back next) e₆ in
      rw (new, old) (expiry-forget_route dest (rs.join r) d k (cleanup now m'))

  -- Where RemoveRoute succeeds, the trimmed route is no longer stored under its destination; every other
  -- route of its link that expires after the call is stored with its expiry; and no route that is left on the
  -- link has expired. It is stated for a decoder that reads back what the encoder writes.
  pub removed_route_gone :
      (now : Time) (cur src dest root : String) (route r : List String) (hops : ℕ) (seen s : Store)
      {s' : Store}
      → ((m : Routes) (v : String) → rs.encode m ≡ ok v → rs.decode v ≡ ok m)
      → rs.get_addr cur ≡ ok root
      → max_hop rs cur ≡ ok hops
      → trim_route root route hops ≡ ok r
      → get_elem 0 r ≡ ok src
      → get_elem (length r - 1) r ≡ ok dest
      → remove_route rs now cur route seen s ≡ ok s'
      → (expiry_at dest (rs.join r) (stored rs s' cur src) ≡ none)
        × ((d k : String) (t : Time)
            → ((dest == d) && (rs.join r == k)) ≡ false
            → expiry_at d k (stored rs s cur src) ≡ some t
            → now <ℤ t
            → expiry_at d k (stored rs s' cur src) ≡ some t)
        × ((d k : String) (t : Time) → expiry_at d k (stored rs s' cur src) ≡ some t → now <ℤ t)
  removed_route_gone now cur src dest root route r hops seen s {s'} reads_back a n t first last e =
      let left =
        removed_routes now cur src dest root route r hops seen s reads_back a n t first last e in
      let gone : (dest == dest) && (rs.join r == rs.join r) ≡ true =
        ground (arith, text_key.beq_iff dest dest, text_key.beq_iff (rs.join r) (rs.join r)) in
      (
        rw gone at (left dest (rs.join r)),
        λ d k x other there fresh.
            left d k ∙ rw other (cleanup-keeps now d k (stored rs s cur src) there fresh),
        λ d k x there. elim (Bool-cases ((dest == d) && (rs.join r == k))) [
          | inl same ↦ absurd (cc (rw same at (sym (left d k) ∙ there)))
          | inr other ↦
              cleanup-fresh now d k (stored rs s cur src) (rw other at (sym (left d k) ∙ there))
        ],
      )

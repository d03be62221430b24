-- ===== src/Routestore/Fresh.antt =====
-- What the clean-up of expired routes in routestore/routestore_impl.go leaves.
use fcr.Routestore.Table.{Routes, live_routes, cleanup}
use fcr.Base.{
  some-injective, String, ◌≡◌, [], ◌∷◌, inl, inr, arith, Bool-cases, some, ◌==◌, text_key, true, ap,
  sym, ◌∙◌,
}
use fcr.Base.Int.{◌<ℤ◌, ltb_ℤ, lt-cases, lt→ltb}
use fcr.Paymgr.Types.{Time}
use fcr.Base.Map.{Map, is_empty, lookup, is_empty-eq}
use fcr.Routestore.Listing.{expiry_at}

live-keeps :
    (now : Time) (k : String) (m : Map String Time) {t : Time}
    → lookup k m ≡ some t
    → now <ℤ t
    → lookup k (live_routes now m) ≡ some t
unfolding live_routes
live-keeps now k [] e h = e
live-keeps now k ((j, x) ∷ m) {t} e h = elim (Bool-cases (j == k)) [
  | inl same ↦
      let at_t : x ≡ t = some-injective (rw same at e) in
      let live : ltb_ℤ now x ≡ true = lt→ltb now x (ground (arith, at_t, h)) in
      rw (live_routes, live, same) (ap (λ y. some y) at_t)
  | inr other ↦
      let rest = live-keeps now k m (rw other at e) h in
      elim (lt-cases now x) [
        | inl (live, l) ↦ rw (live_routes, live, other) rest
        | inr (dead, l) ↦ rw (live_routes, dead) rest
      ]
]

live-fresh :
    (now : Time) (k : String) (m : Map String Time) {t : Time}
    → lookup k (live_routes now m) ≡ some t
    → now <ℤ t
unfolding live_routes
live-fresh now k [] e = absurd (ground arith)
live-fresh now k ((j, x) ∷ m) {t} e = elim (lt-cases now x) [
  | inr (dead, l) ↦ live-fresh now k m (rw (live_routes, dead) at e)
  | inl (live, l) ↦ elim (Bool-cases (j == k)) [
    | inl same ↦
        let at_t : x ≡ t = some-injective (rw (live_routes, live, same) at e) in
        ground (arith, at_t, l)
    | inr other ↦ live-fresh now k m (rw (live_routes, live, other) at e)
  ]
]

-- A route that has not expired is still there.
pub cleanup-keeps :
    (now : Time) (d k : String) (m : Routes) {t : Time}
    → expiry_at d k m ≡ some t
    → now <ℤ t
    → expiry_at d k (cleanup now m) ≡ some t
unfolding cleanup
cleanup-keeps now d k [] e h = e
cleanup-keeps now d k ((c, routes) ∷ m) {t} e h = elim (Bool-cases (c == d)) [
  | inl same ↦
      let there = live-keeps now k routes (rw same at e) h in
      elim (Bool-cases (is_empty (live_routes now routes))) [
        | inl none_left ↦
            let gone =
              ap (λ (x : Map String Time). lookup k x)
                (is_empty-eq (live_routes now routes) none_left) in
            cc (sym gone ∙ there)
        | inr some_left ↦ rw (some_left, same) there
      ]
  | inr other ↦
      let rest = cleanup-keeps now d k m (rw other at e) h in
      elim (Bool-cases (is_empty (live_routes now routes))) [
        | inl none_left ↦ rw none_left rest
        | inr some_left ↦ rw (some_left, other) rest
      ]
]

-- Nothing that is there has expired.
pub cleanup-fresh :
    (now : Time) (d k : String) (m : Routes) {t : Time}
    → expiry_at d k (cleanup now m) ≡ some t
    → now <ℤ t
unfolding cleanup
cleanup-fresh now d k [] e = absurd (ground arith)
cleanup-fresh now d k ((c, routes) ∷ m) e = elim (Bool-cases (is_empty (live_routes now routes))) [
  | inl none_left ↦ cleanup-fresh now d k m (rw none_left at e)
  | inr some_left ↦ elim (Bool-cases (c == d)) [
    | inl same ↦ live-fresh now k routes (rw (some_left, same) at e)
    | inr other ↦ cleanup-fresh now d k m (rw (some_left, other) at e)
  ]
]

-- ===== src/Routestore/Clean.antt =====
-- Expired routes: what is left of a link after cleanup, and that nobody sees the clean routine.
use fcr.Routestore.Table.{Routes, live_routes, cleanup, all_routes, route_list}
use fcr.Routestore.{
  RouteStoreImpl, clean_link, read_routes, write_routes, list_routes_from, Listing, routes_over,
  max_hop, clean_links, clean_routes,
}
use fcr.Base.{
  if◌then◌else◌, String, ◌≡◌, [], refl, ◌∷◌, inl, inr, arith, Bool-cases, sym, ◌∙◌, ap, ok, Result,
  ◌>>=◌, Result-cases, >>=-eq-ok, ◌==◌, ◌&&◌, text_key, panic, err, List, ◌++◌, Bool, ℕ,
}
use fcr.Base.Int.{◌≤ℤ◌, lt-cases, le→ltb}
use fcr.Paymgr.Types.{Time}
use fcr.Base.Map.{Map, is_empty, is_some, lookup, is_empty-eq}
use fcr.Mdlstore.{Store, has, get_children}
use fcr.Routestore.Links.{
  write_routes-links, read_routes-cong, read_routes-links, write-read, has-cong,
}
use fcr.Base.Nested.{or_empty}
use fcr.Mdlstore.Pairs.{pairs}

live-live :
    (now later : Time) (m : Map String Time)
    → now ≤ℤ later
    → live_routes later (live_routes now m) ≡ live_routes later m
unfolding live_routes
live-live now later [] h = refl
live-live now later ((key, x) ∷ m) h =
    let rest = live-live now later m h in
    elim (lt-cases now x) [
      | inl (a, p) ↦ rw (a, live_routes, rest)
      | inr (a, p) ↦ let dead = le→ltb later x (ground arith) in rw (a, dead, live_routes) rest
    ]

-- Cleaning up earlier makes no difference to what is left later.
cleanup-cleanup :
    (now later : Time) (m : Routes) → now ≤ℤ later → cleanup later (cleanup now m) ≡ cleanup later m
unfolding cleanup live_routes
cleanup-cleanup now later [] h = refl
cleanup-cleanup now later ((dest, routes) ∷ m) h =
    let rest = cleanup-cleanup now later m h in
    let same = live-live now later routes h in
    elim (Bool-cases (is_empty (live_routes now routes))) [
      | inr f ↦ rw (f, cleanup, same, rest)
      | inl f ↦
          let none_now = is_empty-eq (live_routes now routes) f in
          let none_later : live_routes later routes ≡ [] =
            sym same ∙ ap (λ (x : Map String Time). live_routes later x) none_now in
          rw (f, none_later, cleanup) rest
    ]

module _ (rs : RouteStoreImpl)
    (reads_back : (m : Routes) (v : String) → rs.encode m ≡ ok v → rs.decode v ≡ ok m)
    (now later : Time) (le : now ≤ℤ later) where
  -- What a later reader makes of a link.
  abbrev View : Result Routes → Result Routes
  View r = r >>= λ m. ok (cleanup later m)

  -- Before and after the clean routine was at a link.
  clean_link-links :
      (cur src c p : String) (s : Store)
      → (is_some (pairs rs.sep rs.decode (clean_link rs now cur src s) c p)
          ≡ is_some (pairs rs.sep rs.decode s c p))
        × (View (read_routes rs c p (clean_link rs now cur src s)) ≡ View (read_routes rs c p s))
  unfolding clean_link
  clean_link-links cur src c p s =
      elim (Result-cases
        (read_routes rs cur src s >>= λ m. write_routes rs cur src (cleanup now m) s)) [
          | inr (inl (x, e)) ↦ rw (clean_link, e) (refl, refl)
          | inr (inr e) ↦ rw (clean_link, e) (refl, refl)
          | inl (s', e) ↦
              let (m, f, g) = >>=-eq-ok (read_routes rs cur src s) _ e in
              let (v, f', g') = write_routes-links rs cur src c p (cleanup now m) s g in
              elim (Bool-cases ((cur == c) && (src == p))) [
                | inr t ↦
                    let other : pairs rs.sep rs.decode s' c p ≡ pairs rs.sep rs.decode s c p =
                      rw t at g' in
                    rw (clean_link, e)
                      (ap is_some other, ap View (read_routes-cong rs c p s' s other))
                | inl t ↦
                    let same = text_key.beq_iff cur c in
                    let same' = text_key.beq_iff src p in
                    let samec : cur ≡ c = ground arith in
                    let samep : src ≡ p = ground arith in
                    let old = read_routes-links rs cur src s f in
                    let (new, there) =
                      write-read rs cur src (cleanup now m) s (reads_back (cleanup now m)) g in
                    rw (clean_link, e, ← samec, ← samep)
                      (
                        ap is_some there ∙ sym (ap is_some old),
                        ap View new ∙ ap ok (cleanup-cleanup now later m le) ∙ sym (ap View f),
                      )
              ]
        ]

  -- What goes out for a link that is there, before and after its expired routes are dropped.
  abbrev found : String → Result Routes → Listing
  found p r = elim r [
    | panic ↦ ((p ∷ []) ∷ [], panic)
    | err e ↦ ((p ∷ []) ∷ [], err e)
    | ok m ↦ ((p ∷ []) ∷ all_routes rs.split (cleanup later m), ok tt)
  ]

  abbrev shown : String → Result Routes → Listing
  shown p r = elim r [
    | panic ↦ ((p ∷ []) ∷ [], panic)
    | err e ↦ ((p ∷ []) ∷ [], err e)
    | ok m ↦ ((p ∷ []) ∷ all_routes rs.split m, ok tt)
  ]

  found-shown : (p : String) (r : Result Routes) → found p r ≡ shown p (View r)
  found-shown p panic = refl
  found-shown p (err e) = refl
  found-shown p (ok m) = refl

  found_cong : (p : String) (r t : Result Routes) → View r ≡ View t → found p r ≡ found p t
  found_cong p r t e = found-shown p r ∙ ap (shown p) e ∙ sym (found-shown p t)

  over : String → Result Routes → List (List String) → List (List String)
  over to_addr r rest = elim r [
    | panic ↦ rest
    | err e ↦ rest
    | ok m ↦ route_list rs.split (or_empty (lookup to_addr m)) ++ rest
  ]

  routes_over-view :
      (c to_addr src : String) (b : Bool) (children : Map String Bool) (s : Store)
      → routes_over rs later c to_addr s ((src, b) ∷ children)
        ≡ over to_addr (View (read_routes rs c src s)) (routes_over rs later c to_addr s children)
  unfolding over routes_over
  routes_over-view c to_addr src b children s = elim (Result-cases (read_routes rs c src s)) [
    | inl (m, e) ↦ rw (routes_over, over, e)
    | inr (inl (x, e)) ↦ rw (routes_over, over, e)
    | inr (inr e) ↦ rw (routes_over, over, e)
  ]

  routes_over-clean :
      (cur src c to_addr : String) (children : Map String Bool) (s : Store)
      → routes_over rs later c to_addr (clean_link rs now cur src s) children
        ≡ routes_over rs later c to_addr s children
  unfolding routes_over
  routes_over-clean cur src c to_addr [] s = refl
  routes_over-clean cur src c to_addr ((p, b) ∷ children) s =
      let t = clean_link rs now cur src s in
      let (there, view) = clean_link-links cur src c p s in
      let rest = routes_over-clean cur src c to_addr children s in
      routes_over-view c to_addr p b children t
      ∙ ap (λ (x : Result Routes). over to_addr x (routes_over rs later c to_addr t children)) view
      ∙ ap (over to_addr (View (read_routes rs c p s))) rest
      ∙ sym (routes_over-view c to_addr p b children s)

  clean_link_unseen :
      (cur src c p : String) (children : Map String Bool) (s : Store)
      → (list_routes_from rs later c p (clean_link rs now cur src s)
          ≡ list_routes_from rs later c p s)
        × (routes_over rs later c p (clean_link rs now cur src s) children
            ≡ routes_over rs later c p s children)
  unfolding list_routes_from
  clean_link_unseen cur src c p children s =
      let (there, view) = clean_link-links cur src c p s in
      let same = has-cong rs c p (clean_link rs now cur src s) s there in
      (
        rw (list_routes_from, same)
            (ap
              (λ (x : Listing).
                elim (max_hop rs c >>= λ hops.
                rs.get_addr c >>= λ root. has rs.sep (c ∷ p ∷ []) s) [
                  | panic ↦ ([], panic)
                  | err e ↦ ([], err e)
                  | ok exists ↦ if exists then x else ([], ok tt)
                ])
              (found_cong p (read_routes rs c p (clean_link rs now cur src s))
                (read_routes rs c p s) view)),
        routes_over-clean cur src c p children s,
      )

  -- What a reader sees at the later time.
  SeesSame : Store → Store → Type 0
  SeesSame s t =
      (c p : String) (children : Map String Bool)
      → (list_routes_from rs later c p s ≡ list_routes_from rs later c p t)
        × (routes_over rs later c p s children ≡ routes_over rs later c p t children)

  clean_links_unseen :
      (cur : String) (links : Map String Bool) (s : Store)
      → SeesSame (clean_links rs now cur links s) s
  unfolding clean_links SeesSame
  clean_links_unseen cur [] s c p children = (refl, refl)
  clean_links_unseen cur ((src, b) ∷ links) s c p children =
      let (f, g) = clean_links_unseen cur links (clean_link rs now cur src s) c p children in
      let (f', g') = clean_link_unseen cur src c p children s in (f ∙ f', g ∙ g')

  -- After a pass of the clean routine over any currencies, ListRoutesFrom and the loop of ListRoutesTo
  -- over any links send out, at that time or later, the routes and the error that they would have
  -- without it, if the decoder reads back what the encoder writes.
  pub clean_pass_unseen :
      (currencies : Map String ℕ) (s : Store) (c p : String) (children : Map String Bool)
      → (list_routes_from rs later c p (clean_routes rs now currencies s)
          ≡ list_routes_from rs later c p s)
        × (routes_over rs later c p (clean_routes rs now currencies s) children
            ≡ routes_over rs later c p s children)
  unfolding clean_routes SeesSame
  clean_pass_unseen [] s c p children = (refl, refl)
  clean_pass_unseen ((cur, hops) ∷ rest) s c p children =
      elim (Result-cases (get_children rs.sep (cur ∷ []) s)) [
        | inr (inl (x, e)) ↦ rw (clean_routes, e) (clean_pass_unseen rest s c p children)
        | inr (inr e) ↦ rw (clean_routes, e) (clean_pass_unseen rest s c p children)
        | inl (links, e) ↦
            let (f, g) = clean_pass_unseen rest (clean_links rs now cur links s) c p children in
            let (f', g') = clean_links_unseen cur links s c p children in
            rw (clean_routes, e) (f ∙ f', g ∙ g')
      ]

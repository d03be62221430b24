-- ===== src/Routestore/Valid.antt =====
-- What every sequence of calls keeps true of the routes that are stored.
use mathlib.Core.Path.{subst}
use fcr.Routestore.Table.{Routes, trim_route, get_elem, add_prefixes, forget_route, length, cleanup}
use fcr.Routestore.{
  RouteStoreImpl, add_direct_link, remove_direct_link, add_route, remove_route, clean_link,
  write_routes, read_routes, max_hop, check_link,
}
use fcr.Base.{
  if◌then◌else◌, Bool, ◌⊎◌, true, false, ok-injective, ◌≤◌, sym, ◌∙◌, ◌-◌, ap, or_fail,
  Result-cases, ◌>>=◌,
}
use fcr.Paymgr.Types.{Time}
use fcr.Mdlstore.{Store, has, delete}
use fcr.Base.{
  String, List, Result, [], some, ok, ◌∷◌, ◌≡◌, ℕ, Bool-cases, ◌==◌, ◌&&◌, inl, text_key, arith,
  inr, >>=-eq-ok, fail_if,
}
use fcr.Routestore.Prefixes.{
  AreKnown, add_prefixes-AreKnown, cleanup-AreKnown, forget_route-AreKnown,
}
use fcr.Routestore.Links.{write_routes-links, read_routes-links}
use fcr.Base.Map.{lookup}
use fcr.Routestore.Trim.{IsSimple, trim_route_accepts, trim_route_bound}
use fcr.Base.Int.{◌+ℤ◌}
use fcr.Routestore.Calls.{
  Call, adds_link, removes_link, adds_route, removes_route, cleans_link, after_call, after_calls,
  stored, call,
}
use fcr.Mdlstore.Pairs.{pairs, pairs-delete}

if_ok :
    (b : Bool) {x y : Result Store} {s' : Store}
    → (if b then x else y) ≡ ok s'
    → (x ≡ ok s') ⊎ (y ≡ ok s')
if_ok true e = inl e
if_ok false e = inr e

module _ (rs : RouteStoreImpl)
    (reads_back : (m : Routes) (v : String) → rs.encode m ≡ ok v → rs.decode v ≡ ok m)
    (c p root : String) (hops : ℕ) (has_hops : lookup c rs.max_hops ≡ some hops)
    (has_root : rs.get_addr c ≡ ok root) where
  AllKnown : Store → Type 0
  AllKnown s = AreKnown rs.join root hops p (stored rs s c p)

  -- Writing a link's routes.
  write-AllKnown :
      (cur src : String) (m : Routes) (s : Store) {s' : Store}
      → write_routes rs cur src m s ≡ ok s'
      → (cur ≡ c → src ≡ p → AreKnown rs.join root hops p m)
      → AllKnown s
      → AllKnown s'
  unfolding AllKnown
  write-AllKnown cur src m s e new old =
      let (v, f, g) = write_routes-links rs cur src c p m s e in
      elim (Bool-cases ((cur == c) && (src == p))) [
        | inl t ↦
            let same = text_key.beq_iff cur c in
            let same' = text_key.beq_iff src p in
            rw (g, t, reads_back m v f) (new (ground arith) (ground arith))
        | inr t ↦ rw (g, t) old
      ]

  read-AllKnown :
      (cur src : String) (s : Store) {m : Routes}
      → read_routes rs cur src s ≡ ok m
      → cur ≡ c
      → src ≡ p
      → AllKnown s
      → AreKnown rs.join root hops p m
  unfolding AllKnown
  read-AllKnown cur src s {m} e same same' h =
      let there : pairs rs.sep rs.decode s c p ≡ some (ok m) =
        rw (← same, ← same') (read_routes-links rs cur src s e) in
      rw there at h

  add_link-AllKnown :
      (cur to_addr : String) (seen s : Store) {s' : Store}
      → add_direct_link rs cur to_addr seen s ≡ ok s'
      → AllKnown s
      → AllKnown s'
  unfolding add_direct_link
  add_link-AllKnown cur to_addr seen s e h =
      let (n, f₀, e₀) = >>=-eq-ok (max_hop rs cur) _ e in
      let (r, f₁, e₁) = >>=-eq-ok (rs.get_addr cur) _ e₀ in
      let (u, f₂, e₂) = >>=-eq-ok (fail_if (r == to_addr) "cannot add self") _ e₁ in
      let (b, f₃, e₃) = >>=-eq-ok (has rs.sep (cur ∷ to_addr ∷ []) seen) _ e₂ in
      elim (if_ok b e₃) [
        | inl same ↦ subst AllKnown (ok-injective same) h
        | inr e₄ ↦
            let (b', f₄, e₅) = >>=-eq-ok (has rs.sep (cur ∷ to_addr ∷ []) s) _ e₄ in
            elim (if_ok b' e₅) [
              | inl same ↦ subst AllKnown (ok-injective same) h
              | inr e₆ ↦ write-AllKnown cur to_addr [] s e₆ (λ i j. tt) h
            ]
      ]

  delete-AllKnown :
      (cur src : String) (s : Store) {s' : Store}
      → delete rs.sep (cur ∷ src ∷ []) s ≡ ok s'
      → AllKnown s
      → AllKnown s'
  unfolding AllKnown
  delete-AllKnown cur src s e h =
      let gone = pairs-delete rs.sep rs.decode cur src c p s e in
      elim (Bool-cases ((cur == c) && (src == p))) [
        | inl t ↦ rw (gone, t) tt
        | inr t ↦ rw (gone, t) h
      ]

  remove_link-AllKnown :
      (cur to_addr : String) (seen s : Store) {s' : Store}
      → remove_direct_link rs cur to_addr seen s ≡ ok s'
      → AllKnown s
      → AllKnown s'
  unfolding remove_direct_link
  remove_link-AllKnown cur to_addr seen s e h =
      let (n, f₀, e₀) = >>=-eq-ok (max_hop rs cur) _ e in
      let (r, f₁, e₁) = >>=-eq-ok (rs.get_addr cur) _ e₀ in
      let (b, f₃, e₃) = >>=-eq-ok (has rs.sep (cur ∷ to_addr ∷ []) seen) _ e₁ in
      elim (if_ok b e₃) [
        | inr same ↦ subst AllKnown (ok-injective same) h
        | inl e₄ ↦
            let (b', f₄, e₅) = >>=-eq-ok (has rs.sep (cur ∷ to_addr ∷ []) s) _ e₄ in
            elim (if_ok b' e₅) [
              | inr same ↦ subst AllKnown (ok-injective same) h
              | inl e₆ ↦ delete-AllKnown cur to_addr s e₆ h
            ]
      ]

  -- A route that is accepted for this currency, as the invariant speaks of it.
  trimmed-known :
      (cur : String) (route r : List String) (n : ℕ) (root' : String)
      → max_hop rs cur ≡ ok n
      → rs.get_addr cur ≡ ok root'
      → trim_route root' route n ≡ ok r
      → cur ≡ c
      → IsSimple (root ∷ r) × (length r ≤ hops)
  unfolding max_hop
  trimmed-known cur route r n root' f₀ f₁ t same =
      let n' : hops ≡ n = ok-injective (rw (same, has_hops) at f₀) in
      let r' : root ≡ root' = ok-injective (sym has_root ∙ rw (same) at f₁) in
      let (f, cut, simple) = (trim_route_accepts root' route n r).0 t in
      (
        subst (λ (x : String). IsSimple (x ∷ r)) (sym r') simple,
        subst (λ (x : ℕ). length r ≤ x) (sym n') (trim_route_bound root' route n r t),
      )

  add_route-AllKnown :
      (now : Time) (cur : String) (route : List String) (ttl : Time) (seen s : Store) {s' : Store}
      → add_route rs now cur route ttl seen s ≡ ok s'
      → AllKnown s
      → AllKnown s'
  unfolding add_route
  add_route-AllKnown now cur route ttl seen s e h =
      let (n, f₀, e₀) = >>=-eq-ok (max_hop rs cur) _ e in
      let (root', f₁, e₁) = >>=-eq-ok (rs.get_addr cur) _ e₀ in
      let (r, f₂, e₂) = >>=-eq-ok (trim_route root' route n) _ e₁ in
      let (src, f₃, e₃) = >>=-eq-ok (get_elem 0 r) _ e₂ in
      let (u, f₄, e₄) = >>=-eq-ok (check_link rs cur src seen) _ e₃ in
      let (u', f₅, e₅) = >>=-eq-ok (check_link rs cur src s) _ e₄ in
      let (m, f₆, e₆) = >>=-eq-ok (read_routes rs cur src s) _ e₅ in
      let (m', f₇, e₇) =
        >>=-eq-ok (add_prefixes rs.join r (now +ℤ ttl) (length r - 1) (cleanup now m)) _ e₆ in
      write-AllKnown cur src m' s e₇
        (λ same same'.
          let (simple, le) = trimmed-known cur route r n root' f₀ f₁ f₂ same in
          add_prefixes-AreKnown rs.join root hops p r (now +ℤ ttl) (length r - 1) (cleanup now m)
            simple le (f₃ ∙ ap ok same')
            (cleanup-AreKnown rs.join root hops p now m (read-AllKnown cur src s f₆ same same' h))
            f₇)
        h

  remove_route-AllKnown :
      (now : Time) (cur : String) (route : List String) (seen s : Store) {s' : Store}
      → remove_route rs now cur route seen s ≡ ok s'
      → AllKnown s
      → AllKnown s'
  unfolding remove_route
  remove_route-AllKnown now cur route seen s e h =
      let (n, f₀, e₀) = >>=-eq-ok (max_hop rs cur) _ e in
      let (root', f₁, e₁) = >>=-eq-ok (rs.get_addr cur) _ e₀ in
      let (r, f₂, e₂) = >>=-eq-ok (trim_route root' route n) _ e₁ in
      let (src, f₃, e₃) = >>=-eq-ok (get_elem 0 r) _ e₂ in
      let (u, f₄, e₄) = >>=-eq-ok (check_link rs cur src seen) _ e₃ in
      let (m, f₅, e₅) = >>=-eq-ok (read_routes rs cur src seen) _ e₄ in
      let (dest, f₆, e₆) = >>=-eq-ok (get_elem (length r - 1) r) _ e₅ in
      let (routes, f₇, e₇) =
        >>=-eq-ok (or_fail (lookup dest m) "route destination not exists") _ e₆ in
      let (x, f₈, e₈) = >>=-eq-ok (or_fail (lookup (rs.join r) routes) "route not exists") _ e₇ in
      let (u', f₉, e₉) = >>=-eq-ok (check_link rs cur src s) _ e₈ in
      let (m', f, g) = >>=-eq-ok (read_routes rs cur src s) _ e₉ in
      write-AllKnown cur src (forget_route dest (rs.join r) (cleanup now m')) s g
        (λ same same'.
          forget_route-AreKnown rs.join root hops p dest (rs.join r) (cleanup now m')
            (cleanup-AreKnown rs.join root hops p now m' (read-AllKnown cur src s f same same' h)))
        h

  clean_link-AllKnown :
      (now : Time) (cur src : String) (s : Store)
      → AllKnown s
      → AllKnown (clean_link rs now cur src s)
  unfolding clean_link
  clean_link-AllKnown now cur src s h =
      elim (Result-cases
        (read_routes rs cur src s >>= λ m. write_routes rs cur src (cleanup now m) s)) [
          | inr (inl (x, e)) ↦ rw (clean_link, e) h
          | inr (inr e) ↦ rw (clean_link, e) h
          | inl (s', e) ↦
              let (m, f, g) = >>=-eq-ok (read_routes rs cur src s) _ e in
              rw (clean_link, e)
                (write-AllKnown cur src (cleanup now m) s g
                  (λ same same'.
                    cleanup-AreKnown rs.join root hops p now m
                      (read-AllKnown cur src s f same same' h))
                  h)
        ]

  call-AllKnown :
      (k : Call) (s : Store) {s' : Store} → call rs k s ≡ ok s' → AllKnown s → AllKnown s'
  unfolding call
  call-AllKnown (adds_link cur to_addr seen) s e h = add_link-AllKnown cur to_addr seen s e h
  call-AllKnown (removes_link cur to_addr seen) s e h = remove_link-AllKnown cur to_addr seen s e h
  call-AllKnown (adds_route now cur route ttl seen) s e h =
      add_route-AllKnown now cur route ttl seen s e h
  call-AllKnown (removes_route now cur route seen) s e h =
      remove_route-AllKnown now cur route seen s e h
  call-AllKnown (cleans_link now cur src) s e h =
      subst AllKnown (ok-injective e) (clean_link-AllKnown now cur src s h)

  after_call-AllKnown : (k : Call) (s : Store) → AllKnown s → AllKnown (after_call rs k s)
  after_call-AllKnown k s h = elim (Result-cases (call rs k s)) [
    | inl (s', e) ↦ rw (after_call, e) (call-AllKnown k s e h)
    | inr (inl (x, e)) ↦ rw (after_call, e) h
    | inr (inr e) ↦ rw (after_call, e) h
  ]

  after_calls-AllKnown : (ks : List Call) (s : Store) → AllKnown s → AllKnown (after_calls rs ks s)
  after_calls-AllKnown [] s h = h
  after_calls-AllKnown (k ∷ ks) s h =
      after_calls-AllKnown ks (after_call rs k s) (after_call-AllKnown k s h)

  -- After any sequence of calls, whether they succeed or not, every route that is stored for a link
  -- stands under the destination it leads to, begins at the link, has at most the hops allowed for its
  -- currency, and visits no node twice and not the node itself, if those stored at the start do and
  -- the decoder reads back what the encoder writes.
  pub stored_routes_known :
      (ks : List Call) (s : Store)
      → AreKnown rs.join root hops p (stored rs s c p)
      → AreKnown rs.join root hops p (stored rs (after_calls rs ks s) c p)
  unfolding AllKnown
  stored_routes_known ks s h = after_calls-AllKnown ks s h

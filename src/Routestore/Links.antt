-- ===== src/Routestore/Links.antt =====
-- The direct links of a route store and their routes, and what writing and deleting one does to the
-- others.
use fcr.Base.{if◌then◌else◌, >>=-eq-ok, Option-cases, Result-cases, sym, ◌∙◌, err, List, true}
use fcr.Mdlstore.{path_key, Store, put, get, has, get_ds_key}
use fcr.Routestore.Table.{Routes}
use fcr.Base.{
  String, ◌==◌, ◌&&◌, ◌≡◌, ◌∷◌, [], text_key, arith, Result, Option, none, some, inl, inr, ap, ok,
}
use fcr.Mdlstore.Frame.{put_under-writes, get_ds_key-eq, put_under-key}
use fcr.Routestore.{read_routes, RouteStoreImpl, write_routes}
use fcr.Base.Map.{lookup, is_some}
use fcr.Mdlstore.Pairs.{pairs-put, decode_pair, pairs}

module _ (rs : RouteStoreImpl) where
  -- What the operations see of a link.
  pub read_routes-links :
      (cur src : String) (s : Store) {m : Routes}
      → read_routes rs cur src s ≡ ok m
      → pairs rs.sep rs.decode s cur src ≡ some (ok m)
  unfolding read_routes get
  read_routes-links cur src s {m} e =
      let (v, g, d) = >>=-eq-ok (get rs.sep (cur ∷ src ∷ []) s) _ e in
      let (key, k, f) = >>=-eq-ok (get_ds_key rs.sep (cur ∷ src ∷ [])) _ g in
      let same = get_ds_key-eq rs.sep (cur ∷ src ∷ []) k in
      elim (Option-cases (lookup (cur ∷ src ∷ []) s)) [
        | inl q ↦ absurd (ground (arith, same, q, f))
        | inr (n, q) ↦ let t : rs.decode n.node_data ≡ ok m = rw (k, same, q) at e in rw (q, t)
      ]

  pub write_routes-links :
      (cur src c p : String) (m : Routes) (s : Store) {s' : Store}
      → write_routes rs cur src m s ≡ ok s'
      → (v : String) × (rs.encode m ≡ ok v)
        × (pairs rs.sep rs.decode s' c p ≡ (
            if (cur == c) && (src == p) then some (rs.decode v) else pairs rs.sep rs.decode s c p))
  unfolding write_routes
  write_routes-links cur src c p m s e =
      let (v, f, g) = >>=-eq-ok (rs.encode m) _ e in
      (v, f, pairs-put rs.sep rs.decode v cur src c p s g)

  is_some-links :
      (cur src : String) (u : Store)
      → is_some (pairs rs.sep rs.decode u cur src) ≡ is_some (lookup (cur ∷ src ∷ []) u)
  is_some-links cur src u = elim (Option-cases (lookup (cur ∷ src ∷ []) u)) [
    | inl p ↦ rw p
    | inr (n, p) ↦ rw p
  ]

  -- Two stores with the same link look the same there.
  pub has-cong :
      (cur src : String) (s t : Store)
      → is_some (pairs rs.sep rs.decode s cur src) ≡ is_some (pairs rs.sep rs.decode t cur src)
      → has rs.sep (cur ∷ src ∷ []) s ≡ has rs.sep (cur ∷ src ∷ []) t
  unfolding has
  has-cong cur src s t e = elim (Result-cases (get_ds_key rs.sep (cur ∷ src ∷ []))) [
    | inr (inl (x, k)) ↦ rw k
    | inr (inr k) ↦ rw k
    | inl (key, k) ↦
        let same = get_ds_key-eq rs.sep (cur ∷ src ∷ []) k in
        rw (k, same) (ap ok (sym (is_some-links cur src s) ∙ e ∙ is_some-links cur src t))
  ]

  from_link : Option (Result Routes) → Result Routes
  from_link none = err "datastore: key not found"
  from_link (some m) = m

  read_routes-view :
      (cur src : String) (s : Store) {key : List String}
      → get_ds_key rs.sep (cur ∷ src ∷ []) ≡ ok key
      → read_routes rs cur src s ≡ from_link (pairs rs.sep rs.decode s cur src)
  unfolding read_routes get from_link
  read_routes-view cur src s k =
      let same = get_ds_key-eq rs.sep (cur ∷ src ∷ []) k in
      elim (Option-cases (lookup (cur ∷ src ∷ []) s)) [
        | inl p ↦ rw (k, same, p)
        | inr (n, p) ↦ rw (k, same, p)
      ]

  pub read_routes-cong :
      (cur src : String) (s t : Store)
      → pairs rs.sep rs.decode s cur src ≡ pairs rs.sep rs.decode t cur src
      → read_routes rs cur src s ≡ read_routes rs cur src t
  unfolding read_routes get
  read_routes-cong cur src s t e = elim (Result-cases (get_ds_key rs.sep (cur ∷ src ∷ []))) [
    | inr (inl (x, k)) ↦ rw k
    | inr (inr k) ↦ rw k
    | inl (key, k) ↦
        read_routes-view cur src s k ∙ ap from_link e ∙ sym (read_routes-view cur src t k)
  ]

  -- A link that was written reads as it was written.
  pub write-read :
      (cur src : String) (m : Routes) (s : Store) {s' : Store}
      → ((v : String) → rs.encode m ≡ ok v → rs.decode v ≡ ok m)
      → write_routes rs cur src m s ≡ ok s'
      → (read_routes rs cur src s' ≡ ok m) × (pairs rs.sep rs.decode s' cur src ≡ some (ok m))
  unfolding write_routes put from_link
  write-read cur src m s {s'} reads_back e =
      let (v, f, g) = >>=-eq-ok (rs.encode m) _ e in
      let k = put_under-key rs.sep v [] (cur ∷ src ∷ []) s g in
      let there : pairs rs.sep rs.decode s' cur src ≡ some (rs.decode v) =
        ap (decode_pair rs.sep rs.decode) (put_under-writes rs.sep v [] (cur ∷ src ∷ []) s g) in
      let now = there ∙ ap some (reads_back v f) in
      (read_routes-view cur src s' k ∙ ap from_link now, now)

  pub write-has :
      (cur src : String) (m : Routes) (s : Store) {s' : Store}
      → write_routes rs cur src m s ≡ ok s'
      → has rs.sep (cur ∷ src ∷ []) s' ≡ ok true
  unfolding write_routes put has
  write-has cur src m s e =
      let (v, f, g) = >>=-eq-ok (rs.encode m) _ e in
      let k = put_under-key rs.sep v [] (cur ∷ src ∷ []) s g in
      let w = put_under-writes rs.sep v [] (cur ∷ src ∷ []) s g in rw (k, w)

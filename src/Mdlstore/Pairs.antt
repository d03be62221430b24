-- ===== src/Mdlstore/Pairs.antt =====
-- Values on the second level of the multi-dimensional store: at a direct link of routestore/, a
-- subscriber of substore/ or a serving of cservmgr/. What writing and deleting one does to the others.
use fcr.Mdlstore.{path_key, Node, Store, put, delete, get_ds_key, has, get}
use fcr.Base.{
  if◌then◌else◌, String, Bool, ◌==◌, ◌&&◌, ◌≡◌, false, ◌∷◌, [], text_key, arith, Option, none, some,
  Bool-cases, inl, inr, ap, ok, >>=-eq-ok, Option-cases, ok-injective,
}
use fcr.Mdlstore.Frame.{OffPath, put_under-writes, put_under-keeps, get_ds_key-eq}
use fcr.Mdlstore.Removal.{delete_under-gone, delete_under-keeps}
use fcr.Base.Map.{lookup, is_some}

-- Two nodes on the second level are apart.
OffPath-pair :
    (sep : String → Bool) (cur src c p : String)
    → (cur == c) && (src == p) ≡ false
    → OffPath sep (c ∷ p ∷ []) [] (cur ∷ src ∷ [])
OffPath-pair sep cur src c p ne =
    let same = text_key.beq_iff cur c in
    let same' = text_key.beq_iff src p in
    (λ e. ground arith, (λ e. ground arith, λ e. ground arith))

module _ (sep : String → Bool) {B : Type 0} (decode : String → B) where
  abbrev pub decode_pair : Option Node → Option B
  decode_pair none = none
  decode_pair (some n) = some (decode n.node_data)

  -- The value of a node on the second level, where it is there.
  abbrev pub pairs : Store → String → String → Option B
  pairs s cur src = decode_pair (lookup (cur ∷ src ∷ []) s)

  changed_pair :
      (cur src c p : String) (s s' : Store) (b : Option B)
      → pairs s' cur src ≡ b
      → ((cur == c) && (src == p) ≡ false → lookup (c ∷ p ∷ []) s' ≡ lookup (c ∷ p ∷ []) s)
      → pairs s' c p ≡ (if (cur == c) && (src == p) then b else pairs s c p)
  changed_pair cur src c p s s' b here there = elim (Bool-cases ((cur == c) && (src == p))) [
    | inl e ↦
        let same = text_key.beq_iff cur c in
        let same' = text_key.beq_iff src p in
        let samec : cur ≡ c = ground arith in
        let samep : src ≡ p = ground arith in rw (e, ← samec, ← samep) here
    | inr e ↦ rw e (ap decode_pair (there e))
  ]

  pub pairs-put :
      (v cur src c p : String) (s : Store) {s' : Store}
      → put sep v (cur ∷ src ∷ []) s ≡ ok s'
      → pairs s' c p ≡ (if (cur == c) && (src == p) then some (decode v) else pairs s c p)
  unfolding put
  pairs-put v cur src c p s {s'} e =
      changed_pair cur src c p s s' (some (decode v))
        (ap decode_pair (put_under-writes sep v [] (cur ∷ src ∷ []) s e))
        (λ ne.
          put_under-keeps sep v [] (cur ∷ src ∷ []) s (c ∷ p ∷ []) e
            (OffPath-pair sep cur src c p ne))

  pub pairs-delete :
      (cur src c p : String) (s : Store) {s' : Store}
      → delete sep (cur ∷ src ∷ []) s ≡ ok s'
      → pairs s' c p ≡ (if (cur == c) && (src == p) then none else pairs s c p)
  unfolding delete
  pairs-delete cur src c p s {s'} e =
      changed_pair cur src c p s s' none
        (ap decode_pair (delete_under-gone sep [] (cur ∷ src ∷ []) s e).0)
        (λ ne.
          delete_under-keeps sep [] (cur ∷ src ∷ []) s (c ∷ p ∷ []) e
            (OffPath-pair sep cur src c p ne))

  -- `Has` sees whether there is a node.
  pub has-pairs :
      (cur src : String) (s : Store) {b : Bool}
      → has sep (cur ∷ src ∷ []) s ≡ ok b
      → is_some (pairs s cur src) ≡ b
  unfolding has
  has-pairs cur src s e =
      let (key, k, f) = >>=-eq-ok (get_ds_key sep (cur ∷ src ∷ [])) _ e in
      let same = get_ds_key-eq sep (cur ∷ src ∷ []) k in
      elim (Option-cases (lookup (cur ∷ src ∷ []) s)) [
        | inl p ↦ rw (← ok-injective f, same, p)
        | inr (n, p) ↦ rw (← ok-injective f, same, p)
      ]

  -- A value that Get reads.
  pub get-pairs :
      (cur src : String) (s : Store) {v : String}
      → get sep (cur ∷ src ∷ []) s ≡ ok v
      → pairs s cur src ≡ some (decode v)
  unfolding get
  get-pairs cur src s {v} e =
      let (key, k, f) = >>=-eq-ok (get_ds_key sep (cur ∷ src ∷ [])) _ e in
      let same = get_ds_key-eq sep (cur ∷ src ∷ []) k in
      elim (Option-cases (lookup (cur ∷ src ∷ []) s)) [
        | inl q ↦ absurd (ground (arith, same, q, f))
        | inr (n, q) ↦ let t : n.node_data ≡ v = ok-injective (rw (k, same, q) at e) in rw (q, t)
      ]

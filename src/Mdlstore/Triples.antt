-- ===== src/Mdlstore/Triples.antt =====
-- Values on the third level of the multi-dimensional store, at a serving of pservmgr/. What writing and
-- deleting one does to the others.
use fcr.Mdlstore.{path_key, Node, Store, put, delete, get_ds_key, get, has}
use fcr.Base.{
  if◌then◌else◌, String, Bool, ◌==◌, ◌&&◌, ◌≡◌, false, ◌∷◌, [], text_key, arith, Option, none, some,
  Bool-cases, inl, inr, ap, ok, >>=-eq-ok, Option-cases, ok-injective,
}
use fcr.Mdlstore.Frame.{OffPath, put_under-writes, put_under-keeps, get_ds_key-eq}
use fcr.Mdlstore.Removal.{delete_under-gone, delete_under-keeps}
use fcr.Base.Map.{lookup, is_some}

-- Whether two nodes on the third level are the same.
abbrev pub same_triple : String → String → String → String → String → String → Bool
same_triple x y z a b c = (x == a) && (y == b) && (z == c)

OffPath-triple :
    (sep : String → Bool) (x y z a b c : String)
    → same_triple x y z a b c ≡ false
    → OffPath sep (a ∷ b ∷ c ∷ []) [] (x ∷ y ∷ z ∷ [])
OffPath-triple sep x y z a b c ne =
    let first = text_key.beq_iff x a in
    let second = text_key.beq_iff y b in
    let third = text_key.beq_iff z c in
    (λ e. ground arith, (λ e. ground arith, (λ e. ground arith, λ e. ground arith)))

OffPath-above :
    (sep : String → Bool) (x y a b c : String) → OffPath sep (a ∷ b ∷ c ∷ []) [] (x ∷ y ∷ [])
OffPath-above sep x y a b c = (λ e. ground arith, (λ e. ground arith, λ e. ground arith))

module _ (sep : String → Bool) {B : Type 0} (decode : String → B) where
  abbrev pub decode_triple : Option Node → Option B
  decode_triple none = none
  decode_triple (some n) = some (decode n.node_data)

  -- The value of a node on the third level, where it is there.
  abbrev pub triples : Store → String → String → String → Option B
  triples s a b c = decode_triple (lookup (a ∷ b ∷ c ∷ []) s)

  changed_triple :
      (x y z a b c : String) (s s' : Store) (v : Option B)
      → triples s' x y z ≡ v
      → (same_triple x y z a b c ≡ false → lookup (a ∷ b ∷ c ∷ []) s' ≡ lookup (a ∷ b ∷ c ∷ []) s)
      → triples s' a b c ≡ (if same_triple x y z a b c then v else triples s a b c)
  changed_triple x y z a b c s s' v here there = elim (Bool-cases (same_triple x y z a b c)) [
    | inl e ↦
        let first = text_key.beq_iff x a in
        let second = text_key.beq_iff y b in
        let third = text_key.beq_iff z c in
        let samea : x ≡ a = ground arith in
        let sameb : y ≡ b = ground arith in
        let samec : z ≡ c = ground arith in rw (e, ← samea, ← sameb, ← samec) here
    | inr e ↦ rw e (ap decode_triple (there e))
  ]

  pub triples-put :
      (v x y z a b c : String) (s : Store) {s' : Store}
      → put sep v (x ∷ y ∷ z ∷ []) s ≡ ok s'
      → triples s' a b c ≡ (if same_triple x y z a b c then some (decode v) else triples s a b c)
  unfolding put
  triples-put v x y z a b c s {s'} e =
      changed_triple x y z a b c s s' (some (decode v))
        (ap decode_triple (put_under-writes sep v [] (x ∷ y ∷ z ∷ []) s e))
        (λ ne.
          put_under-keeps sep v [] (x ∷ y ∷ z ∷ []) s (a ∷ b ∷ c ∷ []) e
            (OffPath-triple sep x y z a b c ne))

  pub triples-delete :
      (x y z a b c : String) (s : Store) {s' : Store}
      → delete sep (x ∷ y ∷ z ∷ []) s ≡ ok s'
      → triples s' a b c ≡ (if same_triple x y z a b c then none else triples s a b c)
  unfolding delete
  triples-delete x y z a b c s {s'} e =
      changed_triple x y z a b c s s' none
        (ap decode_triple (delete_under-gone sep [] (x ∷ y ∷ z ∷ []) s e).0)
        (λ ne.
          delete_under-keeps sep [] (x ∷ y ∷ z ∷ []) s (a ∷ b ∷ c ∷ []) e
            (OffPath-triple sep x y z a b c ne))

  -- A node above the third level takes none of its values away.
  pub triples-delete_above :
      (x y a b c : String) (s : Store) {s' : Store}
      → delete sep (x ∷ y ∷ []) s ≡ ok s'
      → triples s' a b c ≡ triples s a b c
  unfolding delete
  triples-delete_above x y a b c s e =
      ap decode_triple
        (delete_under-keeps sep [] (x ∷ y ∷ []) s (a ∷ b ∷ c ∷ []) e (OffPath-above sep x y a b c))

  -- A value that Get reads.
  pub get-triples :
      (x y z : String) (s : Store) {v : String}
      → get sep (x ∷ y ∷ z ∷ []) s ≡ ok v
      → triples s x y z ≡ some (decode v)
  unfolding get
  get-triples x y z s {v} e =
      let (key, k, f) = >>=-eq-ok (get_ds_key sep (x ∷ y ∷ z ∷ [])) _ e in
      let same = get_ds_key-eq sep (x ∷ y ∷ z ∷ []) k in
      elim (Option-cases (lookup (x ∷ y ∷ z ∷ []) s)) [
        | inl q ↦ absurd (ground (arith, same, q, f))
        | inr (n, q) ↦ let t : n.node_data ≡ v = ok-injective (rw (k, same, q) at e) in rw (q, t)
      ]

  -- `Has` sees whether there is a node.
  pub has-triples :
      (x y z : String) (s : Store) {b : Bool}
      → has sep (x ∷ y ∷ z ∷ []) s ≡ ok b
      → is_some (triples s x y z) ≡ b
  unfolding has
  has-triples x y z s e =
      let (key, k, f) = >>=-eq-ok (get_ds_key sep (x ∷ y ∷ z ∷ [])) _ e in
      let same = get_ds_key-eq sep (x ∷ y ∷ z ∷ []) k in
      elim (Option-cases (lookup (x ∷ y ∷ z ∷ []) s)) [
        | inl p ↦ rw (← ok-injective f, same, p)
        | inr (n, p) ↦ rw (← ok-injective f, same, p)
      ]

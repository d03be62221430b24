-- ===== src/Mdlstore/Frame.antt =====
-- What Put of mdlstore/mdlockablestore_impl.go writes and what it leaves alone, for the paths of two
-- parts that the policy managers use.
use mathlib.Core.List.{append_assoc}
use mathlib.Core.Path.{subst}
use fcr.Base.{
  if◌then◌else◌, String, Bool, List, ◌≡◌, ok, [], arith, ◌∷◌, Result-cases, inl, inr, ◌++◌, some,
  >>=-eq-ok, sym, ok-injective, text_key, ◌≢◌, ◌∙◌, Bool-cases, ap,
}
use fcr.Mdlstore.{
  path_key, get_ds_key, Store, put_leaf, enter, Node, empty_node, add_child, get_node, put_under,
  get_children, put, get,
}
use fcr.Base.Map.{lookup, is_some, lookup-insert_self, insert, lookup-insert_ne}

module _ (sep : String → Bool) where
  pub get_ds_key-eq :
      (path : List String) {key : List String} → get_ds_key sep path ≡ ok key → key ≡ path
  unfolding get_ds_key
  get_ds_key-eq [] e = ground arith
  get_ds_key-eq (x ∷ xs) {key} e = elim (Result-cases (get_ds_key sep xs)) [
    | inl (ys, f) ↦ let ih = get_ds_key-eq xs f in ground arith
    | inr (inl (m, f)) ↦ absurd (ground arith)
    | inr (inr f) ↦ absurd (ground arith)
  ]

  enter-ok :
      (parent : List String) (x : String) (s : Store) {s' : Store}
      → enter sep parent x s ≡ ok s'
      → (n : Node) × (s' ≡ (
          if is_some (lookup x n.children)
          then s
          else insert (parent ++ x ∷ []) empty_node (insert parent (add_child x n) s)))
  unfolding enter
  enter-ok parent x s e =
      let (key, k, rest) = >>=-eq-ok (get_ds_key sep (parent ++ x ∷ [])) _ e in
      let (n, p, last) = >>=-eq-ok (get_node parent s) _ rest in
      (n, rw (← get_ds_key-eq _ k) (sym (ok-injective last)))

  put_leaf-ok :
      (v : String) (parent : List String) (x : String) (s : Store) {s' : Store}
      → put_leaf sep v parent x s ≡ ok s'
      → (n : Node) × (s'
          ≡ insert
              (parent ++ x ∷ [])
              (record { node_data = v; children = [] })
              (if is_some (lookup x n.children) then s else insert parent (add_child x n) s))
  unfolding put_leaf
  put_leaf-ok v parent x s e =
      let (n, p, rest) = >>=-eq-ok (get_node parent s) _ e in
      let (key, k, last) = >>=-eq-ok (get_ds_key sep (parent ++ x ∷ [])) _ rest in
      (n, rw (← get_ds_key-eq _ k) (sym (ok-injective last)))

  put_leaf-writes :
      (v : String) (parent : List String) (x : String) (s : Store) {s' : Store}
      → put_leaf sep v parent x s ≡ ok s'
      → lookup (parent ++ x ∷ []) s' ≡ some (record { node_data = v; children = [] })
  put_leaf-writes v parent x s {s'} e =
      let (n, q) = put_leaf-ok v parent x s e in rw q (lookup-insert_self (parent ++ x ∷ []) _ _)

  put_leaf-keeps :
      (v : String) (parent : List String) (x : String) (s : Store) {s' : Store} (path : List String)
      → put_leaf sep v parent x s ≡ ok s'
      → parent ≢ path
      → (parent ++ x ∷ []) ≢ path
      → lookup path s' ≡ lookup path s
  put_leaf-keeps v parent x s {s'} path e ne₀ ne₁ =
      let (n, q) = put_leaf-ok v parent x s e in
      rw q (lookup-insert_ne (parent ++ x ∷ []) path _ _ ne₁ ∙ under n)
    where
      under :
          (n : Node)
          → lookup path
              (if is_some (lookup x n.children) then s else insert parent (add_child x n) s)
            ≡ lookup path s
      under n = elim (Bool-cases (is_some (lookup x n.children))) [
        | inl b ↦ rw b
        | inr b ↦ rw b (lookup-insert_ne parent path _ s ne₀)
      ]

  enter-keeps :
      (parent : List String) (x : String) (s : Store) {s' : Store} (path : List String)
      → enter sep parent x s ≡ ok s'
      → parent ≢ path
      → (parent ++ x ∷ []) ≢ path
      → lookup path s' ≡ lookup path s
  enter-keeps parent x s {s'} path e ne₀ ne₁ =
      let (n, q) = enter-ok parent x s e in
      elim (Bool-cases (is_some (lookup x n.children))) [
        | inl b ↦ rw (q, b)
        | inr b ↦
            rw (q, b)
              (lookup-insert_ne (parent ++ x ∷ []) path empty_node (insert parent (add_child x n) s)
                  ne₁
                ∙ lookup-insert_ne parent path (add_child x n) s ne₀)
      ]

  -- Whether `path` is `parent` or one of the nodes below it on the way down `rest`.
  abbrev pub OffPath : List String → List String → List String → Type 0
  OffPath path parent [] = parent ≢ path
  OffPath path parent (x ∷ rest) = (parent ≢ path) × OffPath path (parent ++ x ∷ []) rest

  off_head : (path parent rest : List String) → OffPath path parent rest → parent ≢ path
  off_head path parent [] off = off
  off_head path parent (x ∷ rest) (ne, off) = ne

  pub put_under-writes :
      (v : String) (parent path : List String) (s : Store) {s' : Store}
      → put_under sep v parent path s ≡ ok s'
      → lookup (parent ++ path) s' ≡ some (record { node_data = v; children = [] })
  unfolding put_under
  put_under-writes v parent [] s e = absurd (ground arith)
  put_under-writes v parent (x ∷ []) s e = put_leaf-writes v parent x s e
  put_under-writes v parent (x ∷ y ∷ rest) s {s'} e =
      let (t, f, g) = >>=-eq-ok (enter sep parent x s) _ e in
      subst (λ (k : List String). lookup k s' ≡ some (record { node_data = v; children = [] }))
        (append_assoc parent (x ∷ []) (y ∷ rest))
        (put_under-writes v (parent ++ x ∷ []) (y ∷ rest) t g)

  pub put_under-keeps :
      (v : String) (parent path : List String) (s : Store) {s' : Store} (other : List String)
      → put_under sep v parent path s ≡ ok s'
      → OffPath other parent path
      → lookup other s' ≡ lookup other s
  unfolding put_under
  put_under-keeps v parent [] s other e off = absurd (ground arith)
  put_under-keeps v parent (x ∷ []) s other e (ne₀, ne₁) =
      put_leaf-keeps v parent x s other e ne₀ ne₁
  put_under-keeps v parent (x ∷ y ∷ rest) s other e (ne, off) =
      let (t, f, g) = >>=-eq-ok (enter sep parent x s) _ e in
      put_under-keeps v (parent ++ x ∷ []) (y ∷ rest) t other g off
      ∙ enter-keeps parent x s other f ne (off_head other (parent ++ x ∷ []) (y ∷ rest) off)

  -- Where Put succeeds, its path is a key.
  put_leaf-key :
      (v : String) (parent : List String) (x : String) (s : Store) {s' : Store}
      → put_leaf sep v parent x s ≡ ok s'
      → get_ds_key sep (parent ++ x ∷ []) ≡ ok (parent ++ x ∷ [])
  unfolding put_leaf
  put_leaf-key v parent x s e =
      let (n, p, rest) = >>=-eq-ok (get_node parent s) _ e in
      let (key, k, last) = >>=-eq-ok (get_ds_key sep (parent ++ x ∷ [])) _ rest in
      k ∙ ap ok (get_ds_key-eq (parent ++ x ∷ []) k)

  pub put_under-key :
      (v : String) (parent path : List String) (s : Store) {s' : Store}
      → put_under sep v parent path s ≡ ok s'
      → get_ds_key sep (parent ++ path) ≡ ok (parent ++ path)
  unfolding put_under
  put_under-key v parent [] s e = absurd (ground arith)
  put_under-key v parent (x ∷ []) s e = put_leaf-key v parent x s e
  put_under-key v parent (x ∷ y ∷ rest) s e =
      let (t, f, g) = >>=-eq-ok (enter sep parent x s) _ e in
      subst (λ (k : List String). get_ds_key sep k ≡ ok k) (append_assoc parent (x ∷ []) (y ∷ rest))
        (put_under-key v (parent ++ x ∷ []) (y ∷ rest) t g)

  -- Where Put succeeds, the node at its path holds the value and has no children, whatever it had
  -- before, and every node that is not on the way to it is as it was.
  pub put_effect :
      (v x : String) (xs : List String) (s : Store) {s' : Store} (other : List String)
      → put sep v (x ∷ xs) s ≡ ok s'
      → OffPath other [] (x ∷ xs)
      → (get sep (x ∷ xs) s' ≡ ok v)
        × (get_children sep (x ∷ xs) s' ≡ ok [])
        × (lookup other s' ≡ lookup other s)
  unfolding put get
  put_effect v x xs s other e off =
      let k = put_under-key v [] (x ∷ xs) s e in
      let w = put_under-writes v [] (x ∷ xs) s e in
      (rw (k, w), rw (k, w), put_under-keeps v [] (x ∷ xs) s other e off)

-- ===== src/Mdlstore/Removal.antt =====
-- What Delete of mdlstore/mdlockablestore_impl.go takes away and what it leaves alone, and what reads
-- depend on.

use mathlib.Core.Path.{subst}
use mathlib.Core.List.{append_assoc}
use fcr.Mdlstore.{
  path_key, Store, get_ds_key, delete_under, Node, remove_child, get_node, get, has, delete,
}
use fcr.Base.{
  String, Bool, List, ◌≡◌, Result-cases, inl, inr, ◌∷◌, [], ok, ◌++◌, >>=-eq-ok, sym, ok-injective,
  ◌∙◌, ap, none, arith, false,
}
use fcr.Mdlstore.Frame.{get_ds_key-eq, OffPath}
use fcr.Base.Map.{lookup-erase_self, lookup-erase_ne, lookup-insert_ne, erase, lookup, insert}

module _ (sep : String → Bool) where
  -- Reads see one node.
  pub get-local :
      (path : List String) (s t : Store)
      → lookup path s ≡ lookup path t
      → get sep path s ≡ get sep path t
  unfolding get
  get-local path s t e = elim (Result-cases (get_ds_key sep path)) [
    | inl (key, k) ↦ let same = get_ds_key-eq sep path k in rw (k, same, e)
    | inr (inl (m, k)) ↦ rw k
    | inr (inr k) ↦ rw k
  ]

  pub has-local :
      (path : List String) (s t : Store)
      → lookup path s ≡ lookup path t
      → has sep path s ≡ has sep path t
  unfolding has
  has-local path s t e = elim (Result-cases (get_ds_key sep path)) [
    | inl (key, k) ↦ let same = get_ds_key-eq sep path k in rw (k, same, e)
    | inr (inl (m, k)) ↦ rw k
    | inr (inr k) ↦ rw k
  ]

  delete_leaf-ok :
      (parent : List String) (x : String) (s : Store) {s' : Store}
      → delete_under sep parent (x ∷ []) s ≡ ok s'
      → (n : Node) × (s' ≡ erase (parent ++ x ∷ []) (insert parent (remove_child x n) s))
        × (get_ds_key sep (parent ++ x ∷ []) ≡ ok (parent ++ x ∷ []))
  unfolding delete_under
  delete_leaf-ok parent x s e =
      let (above, kp, e₁) = >>=-eq-ok (get_ds_key sep parent) _ e in
      let (n, p, e₂) = >>=-eq-ok (get_node above s) _ e₁ in
      let (key, k, e₃) = >>=-eq-ok (get_ds_key sep (parent ++ x ∷ [])) _ e₂ in
      let same = get_ds_key-eq sep (parent ++ x ∷ []) k in
      let same_parent = get_ds_key-eq sep parent kp in
      (n, rw (← same, ← same_parent) (sym (ok-injective e₃)), k ∙ ap ok same)

  pub delete_under-gone :
      (parent path : List String) (s : Store) {s' : Store}
      → delete_under sep parent path s ≡ ok s'
      → (lookup (parent ++ path) s' ≡ none)
        × (get_ds_key sep (parent ++ path) ≡ ok (parent ++ path))
  unfolding delete_under
  delete_under-gone parent [] s e = absurd (ground arith)
  delete_under-gone parent (x ∷ []) s e =
      let (n, q, k) = delete_leaf-ok parent x s e in
      (rw q (lookup-erase_self (parent ++ x ∷ []) (insert parent (remove_child x n) s)), k)
  delete_under-gone parent (x ∷ y ∷ rest) s {s'} e =
      subst (λ (k : List String). (lookup k s' ≡ none) × (get_ds_key sep k ≡ ok k))
        (append_assoc parent (x ∷ []) (y ∷ rest))
        (delete_under-gone (parent ++ x ∷ []) (y ∷ rest) s e)

  pub delete_under-keeps :
      (parent path : List String) (s : Store) {s' : Store} (other : List String)
      → delete_under sep parent path s ≡ ok s'
      → OffPath sep other parent path
      → lookup other s' ≡ lookup other s
  unfolding delete_under
  delete_under-keeps parent [] s other e off = absurd (ground arith)
  delete_under-keeps parent (x ∷ []) s other e (ne₀, ne₁) =
      let (n, q, k) = delete_leaf-ok parent x s e in
      rw q (
        lookup-erase_ne (parent ++ x ∷ []) other (insert parent (remove_child x n) s) ne₁
        ∙ lookup-insert_ne parent other (remove_child x n) s ne₀)
  delete_under-keeps parent (x ∷ y ∷ rest) s other e (ne, off) =
      delete_under-keeps (parent ++ x ∷ []) (y ∷ rest) s other e off

  -- Where Delete succeeds, its node is gone, and every node that is not on the way to it is as it was.
  pub delete_effect :
      (path : List String) (s : Store) {s' : Store} (other : List String)
      → delete sep path s ≡ ok s'
      → OffPath sep other [] path
      → (has sep path s' ≡ ok false) × (lookup other s' ≡ lookup other s)
  unfolding delete has
  delete_effect path s other e off =
      let (gone, k) = delete_under-gone [] path s e in
      (rw (k, gone), delete_under-keeps [] path s other e off)

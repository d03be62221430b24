-- ===== src/Policies/Clean.antt =====
-- The clean-up at the start of a policy manager takes no policy away.
use fcr.Mdlstore.{path_key, Store, get_children, delete}
use fcr.Policies.Target.{Target, path_of, IsTarget, OffPath-parent}
use fcr.Policies.{clean_children, clean_currencies, clean_store, default_policy_id}
use fcr.Base.{
  String, Bool, ◌≡◌, ok, [], ap, sym, ok-injective, ◌∷◌, Bool-cases, ◌==◌, inl, inr, >>=-eq-ok, ◌∙◌,
  text_key,
}
use fcr.Base.Map.{Map, is_empty, lookup}
use fcr.Mdlstore.Removal.{delete_under-keeps}

module _ (sep : String → Bool) where
  clean_children-keeps :
      (cur : String) (names : Map String Bool) (s : Store) {s' : Store} (u : Target)
      → IsTarget u
      → clean_children sep cur names s ≡ ok s'
      → lookup (path_of u) s' ≡ lookup (path_of u) s
  unfolding clean_children delete
  clean_children-keeps cur [] s u k e =
      ap (λ (t : Store). lookup (path_of u) t) (sym (ok-injective e))
  clean_children-keeps cur ((name, b) ∷ names) s u k e =
      elim (Bool-cases (name == default_policy_id)) [
        | inl t ↦ clean_children-keeps cur names s u k (rw (clean_children, t) at e)
        | inr t ↦
            let (children, c, e₁) =
              >>=-eq-ok (get_children sep (cur ∷ name ∷ []) s) _ (rw (clean_children, t) at e) in
            elim (Bool-cases (is_empty children)) [
              | inr f ↦ clean_children-keeps cur names s u k (rw f at e₁)
              | inl f ↦
                  let (s', d, e₂) = >>=-eq-ok (delete sep (cur ∷ name ∷ []) s) _ (rw f at e₁) in
                  clean_children-keeps cur names s' u k e₂
                  ∙ delete_under-keeps sep [] (cur ∷ name ∷ []) s (path_of u) d
                      (OffPath-parent sep cur name u t k)
            ]
      ]

  clean_currencies-keeps :
      (curs : Map String Bool) (s : Store) {s' : Store} (u : Target)
      → IsTarget u
      → clean_currencies sep curs s ≡ ok s'
      → lookup (path_of u) s' ≡ lookup (path_of u) s
  unfolding clean_currencies
  clean_currencies-keeps [] s u k e =
      ap (λ (t : Store). lookup (path_of u) t) (sym (ok-injective e))
  clean_currencies-keeps ((cur, b) ∷ curs) s u k e =
      let (names, c, e₁) = >>=-eq-ok (get_children sep (cur ∷ []) s) _ e in
      let (t, d, e₂) = >>=-eq-ok (clean_children sep cur names s) _ e₁ in
      clean_currencies-keeps curs t u k e₂ ∙ clean_children-keeps cur names s u k d

  pub clean_store-keeps :
      (s : Store) {s' : Store} (u : Target)
      → IsTarget u
      → clean_store sep s ≡ ok s'
      → lookup (path_of u) s' ≡ lookup (path_of u) s
  unfolding clean_store
  clean_store-keeps s u k e =
      let (curs, c, e₁) = >>=-eq-ok (get_children sep [] s) _ e in
      clean_currencies-keeps curs s u k e₁

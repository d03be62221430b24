-- ===== src/Policies/Refine.antt =====
-- The abstract view of a policy store: a function from places to policies. What the operations do to
-- the store is what they do to the function.
use fcr.Mdlstore.{path_key, list_eq, Node, Store, get_ds_key, get, put, delete, has, list_eq_iff}
use fcr.Policies.Target.{
  currency, entry, Target, path_of, IsTarget, OffPath-target, OffPath-parent,
  remove_and_prune-effect,
}
use mathlib.Core.Path.{subst}
use fcr.Base.{
  if◌then◌else◌, String, Bool, Result, Option, none, some, List, [], err, ◌∷◌, ◌≡◌, ok, ◌>>=◌,
  Option-cases, inl, inr, ◌==◌, false, text_key, ◌≢◌, Bool-cases, arith, ap, ◌∙◌, sym,
}
use fcr.Policies.{first_of, default_policy_id, remove_and_prune}
use fcr.Base.Map.{lookup, is_some}
use fcr.Mdlstore.Frame.{put_under-writes, put_under-keeps}
use fcr.Mdlstore.Removal.{delete_under-gone, delete_under-keeps}

-- A function, changed at one place.
abbrev pub update {ℓ} : {B : Type ℓ} → (Target → B) → Target → B → Target → B
update f t b u = if list_eq (path_of t) (path_of u) then b else f u

module _ (sep : String → Bool) {A : Type 0} (decode : String → Result A) where
  abbrev pub decode_node : Option Node → Option (Result A)
  decode_node none = none
  decode_node (some n) = some (decode n.node_data)

  -- The policies that a store holds.
  abbrev pub policies : Store → Target → Option (Result A)
  policies s t = decode_node (lookup (path_of t) s)

  -- The policy at the first place that has one, with the datastore's error where none has.
  abbrev pub effective : Target → List Target → (Target → Option (Result A)) → Result A
  effective t [] f = elim (f t) [ none ↦ err "datastore: key not found" | some r ↦ r ]
  effective t (u ∷ us) f = elim (f t) [ none ↦ effective u us f | some r ↦ r ]

  -- Two functions agree at each of the places.
  abbrev Agree : List Target → (Target → Option (Result A)) → (Target → Option (Result A)) → Type 0
  Agree [] f g = Unit {0}
  Agree (t ∷ ts) f g = (f t ≡ g t) × Agree ts f g

  pub effective_cong :
      (t : Target) (ts : List Target) (f g : Target → Option (Result A))
      → Agree (t ∷ ts) f g
      → effective t ts f ≡ effective t ts g
  effective_cong t [] f g (e, rest) =
      ap (λ (x : Option (Result A)). elim x [ none ↦ err "datastore: key not found" | some r ↦ r ])
        e
  effective_cong t (u ∷ us) f g (e, rest) =
      ap (λ (x : Option (Result A)). elim x [ none ↦ effective u us f | some r ↦ r ]) e
      ∙ ap (λ (x : Result A). elim (g t) [ none ↦ x | some r ↦ r ]) (effective_cong u us f g rest)

  abbrev paths_of : List Target → List (List String)
  paths_of [] = []
  paths_of (t ∷ ts) = path_of t ∷ paths_of ts

  -- The places' paths have no separator.
  abbrev pub AreKeys : List Target → Type 0
  AreKeys [] = Unit {0}
  AreKeys (t ∷ ts) = (get_ds_key sep (path_of t) ≡ ok (path_of t)) × AreKeys ts

  has-target :
      (t : Target) (s : Store)
      → get_ds_key sep (path_of t) ≡ ok (path_of t)
      → has sep (path_of t) s ≡ ok (is_some (lookup (path_of t) s))
  unfolding has
  has-target t s k = rw k

  get-target :
      (t : Target) (s : Store) {n : Node}
      → get_ds_key sep (path_of t) ≡ ok (path_of t)
      → lookup (path_of t) s ≡ some n
      → get sep (path_of t) s ≡ ok n.node_data
  unfolding get
  get-target (currency cur) s k e = rw (k, e)
  get-target (entry cur a b) s k e = rw (k, e)

  get-target_none :
      (t : Target) (s : Store)
      → get_ds_key sep (path_of t) ≡ ok (path_of t)
      → lookup (path_of t) s ≡ none
      → get sep (path_of t) s ≡ err "datastore: key not found"
  unfolding get
  get-target_none (currency cur) s k e = rw (k, e)
  get-target_none (entry cur a b) s k e = rw (k, e)

  pub first_of-effective :
      (t : Target) (ts : List Target) (s : Store)
      → AreKeys (t ∷ ts)
      → (first_of sep (path_of t) (paths_of ts) s >>= decode) ≡ effective t ts (policies s)
  unfolding first_of
  first_of-effective t [] s (k, ks) = elim (Option-cases (lookup (path_of t) s)) [
    | inl e ↦
        let p : policies s t ≡ none = ap decode_node e in
        rw (first_of, get-target_none t s k e, effective, p)
    | inr (n, e) ↦
        let p : policies s t ≡ some (decode n.node_data) = ap decode_node e in
        rw (first_of, get-target t s k e, effective, p)
  ]
  first_of-effective t (u ∷ us) s (k, ks) = elim (Option-cases (lookup (path_of t) s)) [
    | inl e ↦
        let p : policies s t ≡ none = ap decode_node e in
        let next : effective t (u ∷ us) (policies s) ≡ effective u us (policies s) =
          rw (effective, p) in
        rw (first_of, has-target t s k, e) (first_of-effective u us s ks ∙ sym next)
    | inr (n, e) ↦
        let p : policies s t ≡ some (decode n.node_data) = ap decode_node e in
        let step : effective t (u ∷ us) (policies s) ≡ decode n.node_data = rw (effective, p) in
        rw (first_of, has-target t s k, e, get-target t s k e) (sym step)
  ]

  -- A store that changed at one place.
  changed :
      (t : Target) (s s' : Store) (u : Target) (b : Option (Result A))
      → policies s' t ≡ b
      → (path_of t ≢ path_of u → lookup (path_of u) s' ≡ lookup (path_of u) s)
      → policies s' u ≡ update (policies s) t b u
  changed t s s' u b here there = elim (Bool-cases (list_eq (path_of t) (path_of u))) [
    | inl e ↦
        let same = (list_eq_iff (path_of t) (path_of u)).0 e in
        rw e (subst (λ (p : List String). decode_node (lookup p s') ≡ b) same here)
    | inr e ↦
        let ne : path_of t ≢ path_of u =
          λ p. ground (arith, (list_eq_iff (path_of t) (path_of u)).1 p) in
        rw e (ap decode_node (there ne))
  ]

  pub policies-put :
      (v : String) (t : Target) (s : Store) {s' : Store} (u : Target)
      → IsTarget t
      → IsTarget u
      → put sep v (path_of t) s ≡ ok s'
      → policies s' u ≡ update (policies s) t (some (decode v)) u
  unfolding put
  policies-put v t s {s'} u h k e =
      changed t s s' u (some (decode v))
        (ap decode_node (put_under-writes sep v [] (path_of t) s e))
        (λ ne. put_under-keeps sep v [] (path_of t) s (path_of u) e (OffPath-target sep t u h k ne))

  pub policies-delete :
      (t : Target) (s : Store) {s' : Store} (u : Target)
      → IsTarget t
      → IsTarget u
      → delete sep (path_of t) s ≡ ok s'
      → policies s' u ≡ update (policies s) t none u
  unfolding delete
  policies-delete t s {s'} u h k e =
      changed t s s' u none (ap decode_node (delete_under-gone sep [] (path_of t) s e).0) (λ ne.
        delete_under-keeps sep [] (path_of t) s (path_of u) e (OffPath-target sep t u h k ne))

  -- The first transaction and the clean-up of a removal, with nothing between them.
  pub policies-remove :
      (missing cur a b : String) (seen s : Store) {s' : Store} (u : Target)
      → a == default_policy_id ≡ false
      → IsTarget u
      → remove_and_prune sep missing (cur ∷ a ∷ b ∷ []) (cur ∷ a ∷ []) seen (λ t. t) s ≡ ok s'
      → policies s' u ≡ update (policies s) (entry cur a b) none u
  policies-remove missing cur a b seen s {s'} u h k e =
      let path = cur ∷ a ∷ b ∷ [] in
      let (t, d, same) = remove_and_prune-effect sep missing path (cur ∷ a ∷ []) seen s e in
      ap decode_node (same (path_of u) (OffPath-parent sep cur a u h k))
      ∙ policies-delete (entry cur a b) s u h k d

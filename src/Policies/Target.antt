-- ===== src/Policies/Target.antt =====
-- The places where policies stand in the store, and what setting and removing one does to the others.

use fcr.Mdlstore.{path_key, Store, delete, has, get_children}
use fcr.Base.{
  String, List, ◌∷◌, [], ◌==◌, ◌≡◌, false, ◌≢◌, text_key, arith, Bool, ok, >>=-eq-ok, fail_if, not,
  Result, ◌>>◌, Bool-cases, inl, inr, Result-cases, ok-injective,
}
use fcr.Policies.{default_policy_id, remove_existing, not_default_id, remove_and_prune, prune}
use fcr.Mdlstore.Frame.{OffPath}
use fcr.Base.Map.{is_empty, lookup}
use fcr.Mdlstore.Removal.{delete_under-keeps}

-- The default of a currency, and a node two levels below it: the default or a peer of a channel in
-- reservmgr/, the default or a channel of a sender in renewmgr/.
pub data Target : Type 0 where
  currency : String → Target
  entry : String → String → String → Target

abbrev pub path_of : Target → List String
path_of (currency cur) = cur ∷ default_policy_id ∷ []
path_of (entry cur a b) = cur ∷ a ∷ b ∷ []

-- An entry does not stand below the default of its currency.
abbrev pub IsTarget : Target → Type 0
IsTarget (currency cur) = Unit {0}
IsTarget (entry cur a b) = a == default_policy_id ≡ false

not_default : (a : String) → a == default_policy_id ≡ false → a ≢ default_policy_id
not_default a f e = let id = text_key.beq_iff a default_policy_id in ground arith

pub not_default_id-ok :
    {B : Type 0} (a : String) (rest : Result B) {b : B}
    → (not_default_id a >> rest) ≡ ok b
    → (a == default_policy_id ≡ false) × (rest ≡ ok b)
unfolding not_default_id
not_default_id-ok a rest e = elim (Bool-cases (a == default_policy_id)) [
  | inl f ↦ absurd (ground arith)
  | inr f ↦ (f, rw f at e)
]

module _ (sep : String → Bool) where
  -- Two places are apart: neither is on the way to the other.
  pub OffPath-target :
      (t u : Target)
      → IsTarget t
      → IsTarget u
      → path_of t ≢ path_of u
      → OffPath sep (path_of u) [] (path_of t)
  OffPath-target (currency cur) (currency cur') h k ne =
      (λ p. ground arith, (λ p. ground arith, ne))
  OffPath-target (currency cur) (entry cur' a b) h k ne =
      (λ p. ground arith, (λ p. ground arith, ne))
  OffPath-target (entry cur a b) (currency cur') h k ne =
      let n = not_default a h in
      (λ p. ground arith, (λ p. ground arith, (λ p. n (ground arith), ne)))
  OffPath-target (entry cur a b) (entry cur' a' b') h k ne =
      (λ p. ground arith, (λ p. ground arith, (λ p. ground arith, ne)))

  -- The parent of an entry is on the way to no place but its own entries.
  pub OffPath-parent :
      (cur a : String) (u : Target)
      → a == default_policy_id ≡ false
      → IsTarget u
      → OffPath sep (path_of u) [] (cur ∷ a ∷ [])
  OffPath-parent cur a (currency cur') h k =
      let n = not_default a h in (λ p. ground arith, (λ p. ground arith, λ p. n (ground arith)))
  OffPath-parent cur a (entry cur' a' b') h k =
      (λ p. ground arith, (λ p. ground arith, λ p. ground arith))

  pub remove_existing-deletes :
      (missing : String) (path : List String) (seen s : Store) {s' : Store}
      → remove_existing sep missing path seen s ≡ ok s'
      → delete sep path s ≡ ok s'
  unfolding remove_existing
  remove_existing-deletes missing path seen s e =
      let (there, h, e₁) = >>=-eq-ok (has sep path seen) _ e in
      let (u, g, e₂) = >>=-eq-ok (fail_if (not there) missing) _ e₁ in
      let (there', h', e₃) = >>=-eq-ok (has sep path s) _ e₂ in
      let (u', g', e₄) = >>=-eq-ok (fail_if (not there') missing) _ e₃ in e₄

  -- The clean-up leaves every node that is not on the way to the parent, whatever happened before it.
  pub prune-keeps :
      (parent other : List String) (s : Store)
      → OffPath sep other [] parent
      → lookup other (prune sep parent s) ≡ lookup other s
  unfolding prune delete
  prune-keeps parent other s off = elim (Result-cases (get_children sep parent s)) [
    | inr (inl (x, e)) ↦ rw (prune, e)
    | inr (inr e) ↦ rw (prune, e)
    | inl (children, e) ↦ elim (Bool-cases (is_empty children)) [
      | inr f ↦ rw (prune, e, f)
      | inl f ↦ elim (Result-cases (delete sep parent s)) [
        | inr (inl (x, g)) ↦ rw (prune, e, f, g)
        | inr (inr g) ↦ rw (prune, e, f, g)
        | inl (s', g) ↦ rw (prune, e, f, g) (delete_under-keeps sep [] parent s other g off)
      ]
    ]
  ]

  -- A removal that nothing comes in between takes its path away and leaves the rest.
  pub remove_and_prune-effect :
      (missing : String) (path parent : List String) (seen s : Store) {s' : Store}
      → remove_and_prune sep missing path parent seen (λ t. t) s ≡ ok s'
      → (t : Store) × (delete sep path s ≡ ok t)
        × ((other : List String) → OffPath sep other [] parent → lookup other s' ≡ lookup other t)
  unfolding remove_and_prune
  remove_and_prune-effect missing path parent seen s {s'} e =
      let (t, d, e₁) = >>=-eq-ok (remove_existing sep missing path seen s) _ e in
      let (children, c, e₂) = >>=-eq-ok (get_children sep parent t) _ e₁ in
      (
        t,
        remove_existing-deletes missing path seen s d,
        λ other off. elim (Bool-cases (is_empty children)) [
          | inl f ↦ rw (← ok-injective (rw f at e₂)) (prune-keeps parent other t off)
          | inr f ↦ rw (← ok-injective (rw f at e₂))
        ],
      )

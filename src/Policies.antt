-- ===== src/Policies.antt =====
-- What the policy managers of settlemgr/, reservmgr/ and renewmgr/ have in common: values at paths of
-- the multi-dimensional store, a default at each level, removals that look twice, and the clean-up of
-- a parent that a removal leaves empty.
pub mod Target
pub mod Refine
pub mod History
pub mod Clean
use fcr.Base.{
  ◌>>=◌, ◌>>◌, String, Bool, List, Result, fail_if, not, [], ◌∷◌, err, panic, ok, ◌==◌,
  if◌then◌else◌, text_key, true, false,
}
use fcr.Mdlstore.{Store, get_children, has, get, delete}
use fcr.Base.Map.{is_empty, Map}

-- DefaultPolicyID of each of the three packages.
unfoldable pub default_policy_id : String
default_policy_id = "default"

-- The check on a sender, channel or peer.
unfoldable pub not_default_id : String → Result (Unit {0})
not_default_id addr = fail_if (addr == default_policy_id) "address cannot be default policy id"

-- The part of a removal from the read lock, at `seen`, to its first commit, from `s`.
unfoldable pub remove_existing :
    (String → Bool) → String → List String → Store → Store → Result Store
remove_existing has_separator missing path seen s = do
  exists ← has has_separator path seen
  fail_if (not exists) missing
  exists' ← has has_separator path s
  fail_if (not exists') missing
  delete has_separator path s

module _ (has_separator : String → Bool) where
  -- The value at the first path that is there; the last path is read without a look.
  unfoldable pub first_of : List String → List (List String) → Store → Result String
  first_of path [] s = get has_separator path s
  first_of path (next ∷ paths) s = do
    exists ← has has_separator path s
    let rest = first_of next paths s
    if exists then get has_separator path s else rest

  -- The second transaction of a removal: the parent goes if it is still empty, and its errors are
  -- only logged.
  unfoldable pub prune : List String → Store → Store
  prune parent s = elim (get_children has_separator parent s) [
    | err e ↦ s
    | panic ↦ s
    | ok children ↦
        if is_empty children
        then elim (delete has_separator parent s) [ err e ↦ s | panic ↦ s | ok s' ↦ s' ]
        else s
  ]

  -- A removal with its clean-up. `others` is what other calls did between its two transactions.
  unfoldable pub remove_and_prune :
      String → List String → List String → Store → (Store → Store) → Store → Result Store
  remove_and_prune missing path parent seen others s = do
    s' ← remove_existing has_separator missing path seen s
    children ← get_children has_separator parent s'
    ok (if is_empty children then prune parent (others s') else s')

  -- The clean-up at the start of a manager: in each currency, the nodes other than the default policy
  -- that have no children go.
  unfoldable pub clean_children : String → Map String Bool → Store → Result Store
  clean_children cur [] s = ok s
  clean_children cur ((name, b) ∷ names) s = elim (name == default_policy_id) [
    | true ↦ clean_children cur names s
    | false ↦ do
      children ← get_children has_separator (cur ∷ name ∷ []) s
      s' ← if is_empty children then delete has_separator (cur ∷ name ∷ []) s else ok s
      clean_children cur names s'
  ]

  unfoldable pub clean_currencies : Map String Bool → Store → Result Store
  clean_currencies [] s = ok s
  clean_currencies ((cur, b) ∷ curs) s = do
    names ← get_children has_separator (cur ∷ []) s
    s' ← clean_children cur names s
    clean_currencies curs s'

  unfoldable pub clean_store : Store → Result Store
  clean_store s = do curs ← get_children has_separator [] s; clean_currencies curs s

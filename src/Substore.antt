-- ===== src/Substore.antt =====
-- The subscribers of the node: SubStoreImpl of substore/substore_impl.go over the store of mdlstore/.
-- The text of a currency id is the first part of a path. A call looks under the read lock at `seen`.
-- Locks that fail, and transactions that the datastore refuses, are not modelled.
mod Examples
pub mod Refine
use fcr.Base.{◌>>=◌, ◌>>◌, String, Bool, Result, [], ◌∷◌, ok, if◌then◌else◌}
use fcr.Mdlstore.{Store, has, put, delete, get_children}
use fcr.Base.Map.{Map}

-- `[]byte{1}`
abbrev pub present : String
present = "\u{1}"

module _ (sep : String → Bool) where
  -- Either look may find that there is nothing to do, which is not an error.
  unfoldable pub add_subscriber : String → String → Store → Store → Result Store
  add_subscriber cur from_addr seen s = do
    exists ← has sep (cur ∷ from_addr ∷ []) seen
    let insert = do
      exists' ← has sep (cur ∷ from_addr ∷ []) s
      if exists' then ok s else put sep present (cur ∷ from_addr ∷ []) s
    if exists then ok s else insert

  unfoldable pub remove_subscriber : String → String → Store → Store → Result Store
  remove_subscriber cur from_addr seen s = do
    exists ← has sep (cur ∷ from_addr ∷ []) seen
    let remove = do
      exists' ← has sep (cur ∷ from_addr ∷ []) s
      if exists' then delete sep (cur ∷ from_addr ∷ []) s else ok s
    if exists then remove else ok s

  -- The subscribers of a currency, in some order.
  unfoldable pub list_subscribers : String → Store → Result (Map String Bool)
  list_subscribers cur s = do
    exists ← has sep (cur ∷ []) s
    if exists then get_children sep (cur ∷ []) s else ok []

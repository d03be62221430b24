-- ===== src/Renewmgr.antt =====
-- The renewal policies: RenewManagerImpl of renewmgr/renewmgr_impl.go over the store of mdlstore/. The
-- text of a currency id is the first part of a path. A removal looks under the read lock at `seen`;
-- `others` is what other calls did between its two transactions. Locks that fail, and transactions
-- that the datastore refuses, are not modelled.
mod Examples
pub mod Refine
use fcr.Base.{
  ◌>>=◌, ◌>>◌, String, Result, fail_if, ◌==◌, Bool, ◌∷◌, [], ok, text_key, if◌then◌else◌,
}
use fcr.Policies.{default_policy_id, first_of, remove_existing, remove_and_prune, not_default_id}
use fcr.Paymgr.Types.{Time}
use fcr.Mdlstore.{Store, get_children, put, get, has}
use fcr.Base.Map.{Map}

-- `duration_string` and `parse_duration` are Duration.String and time.ParseDuration.
module _ (sep : String → Bool) (duration_string : Time → String) where
  unfoldable pub set_default_policy : String → Time → Store → Result Store
  set_default_policy cur duration s =
      put sep (duration_string duration) (cur ∷ default_policy_id ∷ []) s

  unfoldable pub set_sender_policy : String → String → Time → Store → Result Store
  set_sender_policy cur from_addr duration s = do
    not_default_id from_addr
    put sep (duration_string duration) (cur ∷ from_addr ∷ default_policy_id ∷ []) s

  unfoldable pub set_paych_policy : String → String → String → Time → Store → Result Store
  set_paych_policy cur from_addr ch duration s = do
    not_default_id from_addr
    not_default_id ch
    put sep (duration_string duration) (cur ∷ from_addr ∷ ch ∷ []) s

module _ (sep : String → Bool) (parse_duration : String → Result Time) where
  unfoldable pub get_default_policy : String → Store → Result Time
  get_default_policy cur s = do val ← get sep (cur ∷ default_policy_id ∷ []) s; parse_duration val

  unfoldable pub get_sender_policy : String → String → Store → Result Time
  get_sender_policy cur from_addr s = do
    not_default_id from_addr
    val ←
        first_of sep (cur ∷ from_addr ∷ default_policy_id ∷ [])
          ((cur ∷ default_policy_id ∷ []) ∷ []) s
    parse_duration val

  -- The channel's own policy, or the sender's, or the currency's.
  unfoldable pub get_paych_policy : String → String → String → Store → Result Time
  get_paych_policy cur from_addr ch s = do
    not_default_id from_addr
    not_default_id ch
    val ←
        first_of sep (cur ∷ from_addr ∷ ch ∷ [])
          ((cur ∷ from_addr ∷ default_policy_id ∷ []) ∷ (cur ∷ default_policy_id ∷ []) ∷ []) s
    parse_duration val

module _ (sep : String → Bool) where
  unfoldable pub remove_default_policy : String → Store → Store → Result Store
  remove_default_policy cur seen s =
      remove_existing sep "default policy does not exist" (cur ∷ default_policy_id ∷ []) seen s

  unfoldable pub remove_sender_policy :
      String → String → Store → (Store → Store) → Store → Result Store
  remove_sender_policy cur from_addr seen others s = do
    not_default_id from_addr
    remove_and_prune sep "policy does not exist" (cur ∷ from_addr ∷ default_policy_id ∷ [])
        (cur ∷ from_addr ∷ []) seen others s

  unfoldable pub remove_paych_policy :
      String → String → String → Store → (Store → Store) → Store → Result Store
  remove_paych_policy cur from_addr ch seen others s = do
    not_default_id from_addr
    not_default_id ch
    remove_and_prune sep "policy does not exist" (cur ∷ from_addr ∷ ch ∷ []) (cur ∷ from_addr ∷ [])
        seen others s

  -- The senders and channels with a policy, in some order.
  unfoldable pub list_senders : String → Store → Result (Map String Bool)
  list_senders cur s = do
    exists ← has sep (cur ∷ []) s
    if exists then get_children sep (cur ∷ []) s else ok []

  unfoldable pub list_paychs : String → String → Store → Result (Map String Bool)
  list_paychs cur from_addr s = do
    exists ← has sep (cur ∷ from_addr ∷ []) s
    if exists then get_children sep (cur ∷ from_addr ∷ []) s else ok []

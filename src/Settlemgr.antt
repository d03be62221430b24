-- ===== src/Settlemgr.antt =====
-- The settlement policies: SettlementManagerImpl of settlemgr/settlemgr_impl.go over the store of
-- mdlstore. The text of a currency id is the first part of a path. A removal looks under the read
-- lock at `seen`, then does its work under the write lock at `s`. Locks that fail, and transactions
-- that the datastore refuses, are not modelled.
pub mod Policy
pub mod Refine
mod Examples
use fcr.Base.{
  ◌>>=◌, ◌>>◌, String, Bool, Result, ◌∷◌, [], fail_if, ◌==◌, List, not, ok, text_key, if◌then◌else◌,
}
use fcr.Paymgr.Types.{Time}
use fcr.Mdlstore.{Store, get_children, put, get, has, delete}
use fcr.Base.Map.{Map}
use fcr.Policies.{default_policy_id, remove_existing}

-- `duration_string` and `parse_duration` are Duration.String and time.ParseDuration.
module _ (has_separator : String → Bool) (duration_string : Time → String)
    (parse_duration : String → Result Time) where
  pub set_default_policy : String → Time → Store → Result Store
  set_default_policy cur duration s =
      put has_separator (duration_string duration) (cur ∷ default_policy_id ∷ []) s

  pub get_default_policy : String → Store → Result Time
  get_default_policy cur s = do
    val ← get has_separator (cur ∷ default_policy_id ∷ []) s
    parse_duration val

  pub set_sender_policy : String → String → Time → Store → Result Store
  set_sender_policy cur from_addr duration s = do
    fail_if (from_addr == default_policy_id) "fromAddr cannot be default policy id"
    put has_separator (duration_string duration) (cur ∷ from_addr ∷ []) s

  -- The sender's own policy, or the currency's default.
  pub get_sender_policy : String → String → Store → Result Time
  get_sender_policy cur from_addr s = do
    fail_if (from_addr == default_policy_id) "fromAddr cannot be default policy id"
    exists ← has has_separator (cur ∷ from_addr ∷ []) s
    val ← get has_separator (cur ∷ (if exists then from_addr else default_policy_id) ∷ []) s
    parse_duration val

module _ (has_separator : String → Bool) where
  abbrev pub remove_default_policy : String → Store → Store → Result Store
  remove_default_policy cur seen s =
      remove_existing has_separator "default policy does not exist" (cur ∷ default_policy_id ∷ [])
        seen s

  pub remove_sender_policy : String → String → Store → Store → Result Store
  remove_sender_policy cur from_addr seen s = do
    fail_if (from_addr == default_policy_id) "fromAddr cannot be default policy id"
    remove_existing has_separator "policy does not exist" (cur ∷ from_addr ∷ []) seen s

  -- The channel of senders, in some order, which closes at once where the currency is not there.
  abbrev list_senders : String → Store → Result (Map String Bool)
  list_senders cur s = do
    exists ← has has_separator (cur ∷ []) s
    if exists then get_children has_separator (cur ∷ []) s else ok []

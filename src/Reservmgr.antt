-- ===== src/Reservmgr.antt =====
-- The reservation policies: ReservationManagerImpl of reservmgr/reservmgr_impl.go over the store of
-- mdlstore/. The text of a currency id is the first part of a path. `big_string` and `set_string` are
-- big.Int's String and SetString in base 10. A removal looks under the read lock at `seen`; `others` is
-- what other calls did between its two transactions. Locks that fail, and transactions that the
-- datastore refuses, are not modelled.
mod Examples
pub mod Refine
use fcr.Base.{
  ◌>>=◌, ◌>>◌, Bool, Option, String, Result, ok, fail_if, or_fail, true, none, false, some, ◌==◌,
  ◌∷◌, [], if◌then◌else◌, text_key, panic,
}
use fcr.Base.Int.{ℤ, ltb_ℤ, pos, negsuc}
use fcr.Policies.{default_policy_id, first_of, remove_existing, remove_and_prune, not_default_id}
use fcr.Mdlstore.{Store, get_children, put, get, has}
use fcr.Base.Map.{Map}

-- Whether reservations are unlimited, and the largest single one, which is nil if they are.
abbrev pub Limit : Type 0
Limit = Bool × Option ℤ

-- The value that is written: -1 where there is no limit.
unfoldable pub encode_limit : (ℤ → String) → Bool → ℤ → Result String
encode_limit big_string unlimited max =
    if unlimited
    then ok (big_string (negsuc 0))
    else (do fail_if (ltb_ℤ max (pos 0)) "max cannot be negative"; ok (big_string max))

-- Where SetString fails, the log line calls Error on an error that is nil.
unfoldable pub decode_limit : (String → Option ℤ) → String → Result Limit
decode_limit set_string val = elim (set_string val) [
  | none ↦ panic
  | some max ↦ if ltb_ℤ max (pos 0) then ok (true, none) else ok (false, some max)
]

module _ (sep : String → Bool) (big_string : ℤ → String) where
  unfoldable pub set_default_policy : String → Bool → ℤ → Store → Result Store
  set_default_policy cur unlimited max s = do
    val ← encode_limit big_string unlimited max
    put sep val (cur ∷ default_policy_id ∷ []) s

  unfoldable pub set_paych_policy : String → String → Bool → ℤ → Store → Result Store
  set_paych_policy cur ch unlimited max s = do
    not_default_id ch
    val ← encode_limit big_string unlimited max
    put sep val (cur ∷ ch ∷ default_policy_id ∷ []) s

  unfoldable pub set_peer_policy : String → String → String → Bool → ℤ → Store → Result Store
  set_peer_policy cur ch peer unlimited max s = do
    not_default_id ch
    not_default_id peer
    val ← encode_limit big_string unlimited max
    put sep val (cur ∷ ch ∷ peer ∷ []) s

module _ (sep : String → Bool) (set_string : String → Option ℤ) where
  unfoldable pub get_default_policy : String → Store → Result Limit
  get_default_policy cur s = do
    val ← get sep (cur ∷ default_policy_id ∷ []) s
    decode_limit set_string val

  unfoldable pub get_paych_policy : String → String → Store → Result Limit
  get_paych_policy cur ch s = do
    not_default_id ch
    val ← first_of sep (cur ∷ ch ∷ default_policy_id ∷ []) ((cur ∷ default_policy_id ∷ []) ∷ []) s
    decode_limit set_string val

  -- The peer's own limit, or the channel's, or the currency's.
  unfoldable pub get_peer_policy : String → String → String → Store → Result Limit
  get_peer_policy cur ch peer s = do
    not_default_id ch
    not_default_id peer
    val ←
        first_of sep (cur ∷ ch ∷ peer ∷ [])
          ((cur ∷ ch ∷ default_policy_id ∷ []) ∷ (cur ∷ default_policy_id ∷ []) ∷ []) s
    decode_limit set_string val

module _ (sep : String → Bool) where
  unfoldable pub remove_default_policy : String → Store → Store → Result Store
  remove_default_policy cur seen s =
      remove_existing sep "default policy does not exist" (cur ∷ default_policy_id ∷ []) seen s

  unfoldable pub remove_paych_policy :
      String → String → Store → (Store → Store) → Store → Result Store
  remove_paych_policy cur ch seen others s = do
    not_default_id ch
    remove_and_prune sep "policy does not exist" (cur ∷ ch ∷ default_policy_id ∷ []) (cur ∷ ch ∷ [])
        seen others s

  unfoldable pub remove_peer_policy :
      String → String → String → Store → (Store → Store) → Store → Result Store
  remove_peer_policy cur ch peer seen others s = do
    not_default_id ch
    not_default_id peer
    remove_and_prune sep "policy does not exist" (cur ∷ ch ∷ peer ∷ []) (cur ∷ ch ∷ []) seen others
        s

  -- The channels and peers with a policy, in some order.
  unfoldable pub list_paychs : String → Store → Result (Map String Bool)
  list_paychs cur s = do
    exists ← has sep (cur ∷ []) s
    if exists then get_children sep (cur ∷ []) s else ok []

  unfoldable pub list_peers : String → String → Store → Result (Map String Bool)
  list_peers cur ch s = do
    exists ← has sep (cur ∷ ch ∷ []) s
    if exists then get_children sep (cur ∷ ch ∷ []) s else ok []

-- ===== src/Cservmgr.antt =====
-- The pieces that the node serves: PieceServingManagerImpl of cservmgr/cservmgr_impl.go over the store of
-- mdlstore/. The first part of a path is the base58 text of a piece id, the second the text of a currency
-- id. `bytes` and `set_bytes` are big.Int's Bytes, which drops the sign, and SetBytes. A call looks under
-- the read lock at `seen`; `others` is what other calls did between the two transactions of Stop. Locks
-- that fail, transactions that the datastore refuses, and the publish hook that Serve calls at the end
-- are not modelled.
mod Examples
pub mod Refine
use fcr.Base.{
  ◌>>=◌, ◌>>◌, String, Bool, Result, Option, [], ◌∷◌, ok, fail_if, if◌then◌else◌, some, none,
}
use fcr.Base.Int.{ℤ, pos, ltb_ℤ}
use fcr.Mdlstore.{Store, has, put, get, get_children}
use fcr.Base.Map.{Map}
use fcr.Policies.{remove_and_prune}

module _ (sep : String → Bool) where
  unfoldable pub serve : (ℤ → String) → String → String → ℤ → Store → Store → Result Store
  serve bytes key_hash cur ppb seen s = do
    fail_if (ltb_ℤ ppb (pos 0)) "ppb cannot be negative"
    exists ← has sep (key_hash ∷ cur ∷ []) seen
    fail_if exists "already in serving"
    exists' ← has sep (key_hash ∷ cur ∷ []) s
    fail_if exists' "already in serving"
    put sep (bytes ppb) (key_hash ∷ cur ∷ []) s

  unfoldable pub stop : String → String → Store → (Store → Store) → Store → Result Store
  stop key_hash cur seen others s =
      remove_and_prune sep "not in serving" (key_hash ∷ cur ∷ []) (key_hash ∷ []) seen others s

  -- Whether the piece is served, and at what price.
  unfoldable pub inspect : (String → ℤ) → String → String → Store → Result (Option ℤ)
  inspect set_bytes key_hash cur s = do
    exists ← has sep (key_hash ∷ cur ∷ []) s
    let price = do val ← get sep (key_hash ∷ cur ∷ []) s; ok (some (set_bytes val))
    if exists then price else ok none

  -- The pieces, and the currencies that a piece is served in, in some order.
  unfoldable pub list_piece_ids : Store → Result (Map String Bool)
  list_piece_ids s = get_children sep [] s

  unfoldable pub list_currency_ids : String → Store → Result (Map String Bool)
  list_currency_ids key_hash s = do
    exists ← has sep (key_hash ∷ []) s
    if exists then get_children sep (key_hash ∷ []) s else ok []

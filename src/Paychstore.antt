-- ===== src/Paychstore.antt =====
-- The channel states on disk: PaychStoreImpl of paychstore/paychstore_impl.go over the store of mdlstore/.
-- One queue runs Upsert and Remove one by one, and nothing else writes, so both looks of an attempt see
-- the same store. The text of a currency id is the first part of a path; `encode` and `decode` are
-- State's Encode and Decode, which are JSON. An attempt that fails is tried again; a lock or a
-- transaction that fails is an attempt that does.
mod Examples
pub mod Newest
use fcr.Base.{
  ◌>>=◌, ◌>>◌, String, ℕ, Bool, Result, [], ◌∷◌, ok, fail_if, if◌then◌else◌, ◌&&◌, not, ◌^◌, ◌-◌,
  List, panic, err, false, ltb,
}
use fcr.Base.Map.{Map, is_empty}
use fcr.Mdlstore.{Store, get_children, has, put, get, delete}
use fcr.Paychstate.{State}
use fcr.Policies.{prune}

-- Whether a state on disk with the nonce `current` is newer than one with the nonce `nonce`: it has the
-- higher nonce, unless the two are within a hundred of either end of uint64.
unfoldable pub is_newer : ℕ → ℕ → Bool
is_newer current nonce = ltb nonce current && not (ltb nonce 100 && ltb (2 ^ 64 - 1 - current) 100)

-- The loop over the attempts, of which each one gets its locks or does not.
abbrev retry : List Bool → (Store → Result Store) → Store → Store
retry [] op s = s
retry (locked ∷ attempts) op s =
    let rest = retry attempts op s in
    if locked then elim (op s) [ panic ↦ s | err e ↦ rest | ok s' ↦ s' ] else rest

module _ (sep : String → Bool) (id_text : ℕ → String) (outbound : Bool) where
  -- The recipient of an outbound channel, the sender of an inbound one.
  unfoldable pub peer_of : State → String
  peer_of state = if outbound then state.to_addr else state.from_addr

  unfoldable pub path_of_state : State → List String
  path_of_state state = id_text state.currency_id ∷ peer_of state ∷ state.ch_addr ∷ []

  -- Whether the store has a newer state of the channel.
  unfoldable pub has_newer : (String → Result State) → State → Store → Result Bool
  has_newer decode state s = do
    exists ← has sep (path_of_state state) s
    let look = do
      data_bytes ← get sep (path_of_state state) s
      current ← decode data_bytes
      ok (is_newer current.state_nonce state.state_nonce)
    if exists then look else ok false

  -- An attempt of Upsert.
  unfoldable pub upsert :
      (State → Result String) → (String → Result State) → State → Store → Result Store
  upsert encode decode state s = do
    new_data ← encode state
    old ← has_newer decode state s
    let write = do
      old' ← has_newer decode state s
      if old' then ok s else put sep new_data (path_of_state state) s
    if old then ok s else write

-- An attempt of Remove, for the text of the currency id.
unfoldable pub remove : (String → Bool) → String → String → String → Store → Result Store
remove sep cur peer ch s = do
  exists ← has sep (cur ∷ peer ∷ ch ∷ []) s
  let delete_state = do
    exists' ← has sep (cur ∷ peer ∷ ch ∷ []) s
    let clean = do
      s' ← delete sep (cur ∷ peer ∷ ch ∷ []) s
      children ← get_children sep (cur ∷ peer ∷ []) s'
      ok (if is_empty children then prune sep (cur ∷ peer ∷ []) s' else s')
    if exists' then clean else ok s
  if exists then delete_state else ok s

unfoldable pub read :
    (String → Bool) → (String → Result State) → String → String → String → Store → Result State
read sep decode cur peer ch s = do
  exists ← has sep (cur ∷ peer ∷ ch ∷ []) s
  fail_if (not exists) "channel does not exist"
  data_bytes ← get sep (cur ∷ peer ∷ ch ∷ []) s
  decode data_bytes

-- The peers of a currency and the channels of a peer, in some order.
unfoldable pub list_peers : (String → Bool) → String → Store → Result (Map String Bool)
list_peers sep cur s = do
  exists ← has sep (cur ∷ []) s
  if exists then get_children sep (cur ∷ []) s else ok []

abbrev list_paychs_by_peer : (String → Bool) → String → String → Store → Result (Map String Bool)
list_paychs_by_peer sep cur peer s = do
  exists ← has sep (cur ∷ peer ∷ []) s
  if exists then get_children sep (cur ∷ peer ∷ []) s else ok []

-- ===== src/Peermgr.antt =====
-- The peers of the node: PeerManagerImpl of peermgr/peermgr_impl.go over the store of mdlstore/. The text
-- of a currency id is the first part of a path, the peer's wallet address the second, and the text of a
-- record's id the third. A call looks under the read lock at `seen`. Locks that fail, and transactions
-- that the datastore refuses, are not modelled.
mod Examples
pub mod Block
use fcr.Base.{
  ◌>>=◌, ◌>>◌, String, ℕ, Bool, List, Result, [], ◌∷◌, ok, fail_if, if◌then◌else◌, ◌==◌, false,
  true, not, ◌&&◌, panic, err, text_key,
}
use fcr.Base.Int.{ℤ, pos, ◌+ℤ◌}
use fcr.Base.Map.{Map}
use fcr.Mdlstore.{path_key, Store, Node, get_children, get, put, has, delete}

-- What is kept of a peer: whether it is blocked, the text of its network address, and the id of its last
-- record.
pub record PeerInfo : Type 0 where
  pub blocked : Bool
  pub peer_addr : String
  pub rec_id : ℤ

-- The libraries' code that the manager calls: the test for the separator of the datastore, json.Marshal
-- and json.Unmarshal of a peer and json.Marshal of a record, and the text of a number.
pub record PeerManagerImpl (Record : Type 0) : Type 0 where
  pub has_sep : String → Bool
  pub encode_peer : PeerInfo → Result String
  pub decode_peer : String → Result PeerInfo
  pub encode_record : Record → Result String
  pub id_string : ℤ → String

module _ {Record : Type 0} (mgr : PeerManagerImpl Record) where
  unfoldable pub read_peer : String → String → Store → Result PeerInfo
  read_peer cur to_addr s = do val ← get mgr.has_sep (cur ∷ to_addr ∷ []) s; mgr.decode_peer val

  unfoldable pub write_peer : String → String → PeerInfo → Store → Result Store
  write_peer cur to_addr p s = do
    val ← mgr.encode_peer p
    put mgr.has_sep val (cur ∷ to_addr ∷ []) s

  -- A peer that is there keeps its block and its records when its address changes.
  unfoldable pub add_peer : String → String → String → Store → Store → Result Store
  add_peer cur to_addr pi seen s = do
    exists ← has mgr.has_sep (cur ∷ to_addr ∷ []) seen
    let look = do old ← read_peer cur to_addr seen; ok (old.peer_addr == pi)
    same ← if exists then look else ok false
    let update = do
      old ← read_peer cur to_addr s
      let write = write_peer cur to_addr (record old { peer_addr = pi }) s
      if old.peer_addr == pi then ok s else write
    let fresh : PeerInfo = record { blocked = false; peer_addr = pi; rec_id = pos 0 }
    let write = do
      exists' ← has mgr.has_sep (cur ∷ to_addr ∷ []) s
      if exists' then update else write_peer cur to_addr fresh s
    if same then ok s else write

  unfoldable pub has_peer : String → String → Store → Result Bool
  has_peer cur to_addr s = has mgr.has_sep (cur ∷ to_addr ∷ []) s

  unfoldable pub get_peer_addr : String → String → Store → Result String
  get_peer_addr cur to_addr s = do p ← read_peer cur to_addr s; ok p.peer_addr

  unfoldable pub is_blocked : String → String → Store → Result Bool
  is_blocked cur to_addr s = do p ← read_peer cur to_addr s; ok p.blocked

  unfoldable pub block_peer : String → String → Store → Store → Result Store
  block_peer cur to_addr seen s = do
    p ← read_peer cur to_addr seen
    fail_if p.blocked "peer is already blocked"
    p' ← read_peer cur to_addr s
    fail_if p'.blocked "peer is already blocked"
    write_peer cur to_addr (record p' { blocked = true }) s

  unfoldable pub unblock_peer : String → String → Store → Store → Result Store
  unblock_peer cur to_addr seen s = do
    p ← read_peer cur to_addr seen
    fail_if (not p.blocked) "peer is already unblocked"
    p' ← read_peer cur to_addr s
    fail_if (not p'.blocked) "peer is already unblocked"
    write_peer cur to_addr (record p' { blocked = false }) s

  -- Both looks for the node at a path.
  unfoldable pub check_exists : String → List String → Store → Store → Result (Unit {0})
  check_exists missing path seen s = do
    exists ← has mgr.has_sep path seen
    fail_if (not exists) missing
    exists' ← has mgr.has_sep path s
    fail_if (not exists') missing

  unfoldable pub add_to_history : String → String → Record → Store → Store → Result Store
  add_to_history cur to_addr rec seen s = do
    check_exists "peer does not exist" (cur ∷ to_addr ∷ []) seen s
    p ← read_peer cur to_addr s
    let id = p.rec_id +ℤ pos 1
    s' ← write_peer cur to_addr (record p { rec_id = id }) s
    rec_val ← mgr.encode_record rec
    put mgr.has_sep rec_val (cur ∷ to_addr ∷ mgr.id_string id ∷ []) s'

  unfoldable pub remove_record : String → String → ℤ → Store → Store → Result Store
  remove_record cur to_addr id seen s = do
    check_exists "record does not exist" (cur ∷ to_addr ∷ mgr.id_string id ∷ []) seen s
    delete mgr.has_sep (cur ∷ to_addr ∷ mgr.id_string id ∷ []) s

  unfoldable pub set_rec_id : String → String → ℤ → Store → Store → Result Store
  set_rec_id cur to_addr id seen s = do
    check_exists "peer does not exist" (cur ∷ to_addr ∷ []) seen s
    p ← read_peer cur to_addr s
    write_peer cur to_addr (record p { rec_id = id }) s

  -- Each record goes; one that cannot be deleted is passed over.
  unfoldable pub delete_records : String → String → Map (List String) Node → Store → Store
  delete_records cur to_addr [] s = s
  delete_records cur to_addr ((path, n) ∷ entries) s = elim path [
    | a ∷ b ∷ c ∷ [] ↦
        if (cur == a) && (to_addr == b)
        then elim (delete mgr.has_sep (a ∷ b ∷ c ∷ []) s) [
          | panic ↦ delete_records cur to_addr entries s
          | err e ↦ delete_records cur to_addr entries s
          | ok s' ↦ delete_records cur to_addr entries s'
        ]
        else delete_records cur to_addr entries s
    | _ ↦ delete_records cur to_addr entries s
  ]

  unfoldable pub remove_peer : String → String → Store → Store → Result Store
  remove_peer cur to_addr seen s = do
    check_exists "peer does not exist" (cur ∷ to_addr ∷ []) seen s
    delete mgr.has_sep (cur ∷ to_addr ∷ []) (delete_records cur to_addr s s)

  -- The peers of a currency, in some order.
  unfoldable pub list_peers : String → Store → Result (Map String Bool)
  list_peers cur s = do
    exists ← has mgr.has_sep (cur ∷ []) s
    if exists then get_children mgr.has_sep (cur ∷ []) s else ok []

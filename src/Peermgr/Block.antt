-- ===== src/Peermgr/Block.antt =====
-- Blocking and unblocking a peer, peermgr/peermgr_impl.go.
use fcr.Mdlstore.{path_key, Store}
use fcr.Peermgr.{PeerInfo, PeerManagerImpl}
use fcr.Base.{◌>>=◌, ◌≡◌, ok, String, Option, Result}
use fcr.Mdlstore.Pairs.{pairs}

module _ {Record : Type 0} (mgr : PeerManagerImpl Record) where
  -- The decoder reads back what the encoder writes for a peer.
  abbrev pub ReadsBack : PeerInfo → Type 0
  ReadsBack x = (mgr.encode_peer x >>= mgr.decode_peer) ≡ ok x

  -- What the store has of a peer.
  abbrev pub peer_at : Store → String → String → Option (Result PeerInfo)
  peer_at s c p = pairs mgr.has_sep mgr.decode_peer s c p

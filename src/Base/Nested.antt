-- ===== src/Base/Nested.antt =====
-- The maps of maps of the payment manager: currency id, then peer address, then channel address.
use fcr.Base.Tests.{
  ◌==◌, if◌then◌else◌, nat_key, text_key, Result, ok, ◌>>=◌, or_fail, nat_eq, nat_eq_iff,
}
use fcr.Base.Map.{Map, lookup, insert, erase, lookup-insert, lookup-erase}
use Prim.Native.Nat.{ℕ}
use Prim.Native.String.{String}
use mathlib.Core.Path.{◌≡◌}
use mathlib.Core.Bool.{Bool, true, false, ◌&&◌}
use mathlib.Core.Option.{Option, none, some}
use mathlib.Core.List.{[]}
use native.Mathlib.Omega.{arith}
use fcr.Base.{Bool-cases, inr, inl}

abbrev pub Nested : Type 0 → Type 0
Nested V = Map ℕ (Map String (Map String V))

abbrev pub or_empty : {K V : Type 0} → Option (Map K V) → Map K V
or_empty none = []
or_empty (some m) = m

module _ {V : Type 0} where
  -- The channels of a peer; a peer or currency that is not there has none.
  unfoldable pub peer_map : ℕ → String → Nested V → Map String V
  peer_map cur peer m = or_empty (lookup peer (or_empty (lookup cur m)))

  -- `m[cur][peer][ch]`, with an error for each level that is missing.
  unfoldable pub find_channel : ℕ → String → String → Nested V → Result V
  find_channel cur peer ch m = do
    peers ← or_fail (lookup cur m) "no channels existed for currency id"
    channels ← or_fail (lookup peer peers) "no channels existed for recipient"
    or_fail (lookup ch channels) "no channels existed for channel address"

  -- Whether all three levels are there.
  unfoldable pub has_channel : ℕ → String → String → Nested V → Bool
  has_channel cur peer ch m = elim (lookup cur m) [
    | none ↦ false
    | some peers ↦ elim (lookup peer peers) [
      | none ↦ false
      | some channels ↦ elim (lookup ch channels) [ none ↦ false | some v ↦ true ]
    ]
  ]

  -- Writes a peer's channels, and the maps above them where they are missing.
  unfoldable pub set_peer : ℕ → String → Map String V → Nested V → Nested V
  set_peer cur peer channels m = insert cur (insert peer channels (or_empty (lookup cur m))) m

  -- `m[cur][peer][ch] = v`
  unfoldable pub set_channel : ℕ → String → String → V → Nested V → Nested V
  set_channel cur peer ch v m = set_peer cur peer (insert ch v (peer_map cur peer m)) m

  -- `delete(m[cur][peer], ch)`; the peer's map stays, be it empty.
  pub delete_channel : ℕ → String → String → Nested V → Nested V
  delete_channel cur peer ch m = set_peer cur peer (erase ch (peer_map cur peer m)) m

  pub peer_map-set_peer :
      (cur : ℕ) (peer : String) (c : ℕ) (p : String) (channels : Map String V) (m : Nested V)
      → peer_map c p (set_peer cur peer channels m)
        ≡ (if nat_eq cur c && (peer == p) then channels else peer_map c p m)
  unfolding peer_map set_peer
  peer_map-set_peer cur peer c p channels m = ground (
    arith,
    nat_eq_iff cur c,
    lookup-insert cur c (insert peer channels (or_empty (lookup cur m))) m,
    lookup-insert peer p channels (or_empty (lookup cur m)),
  )

  -- A channel that is found is in its peer's map.
  pub find_channel-peer_map :
      (cur : ℕ) (peer ch : String) (m : Nested V) {v : V}
      → find_channel cur peer ch m ≡ ok v
      → lookup ch (peer_map cur peer m) ≡ some v
  unfolding find_channel peer_map
  find_channel-peer_map cur peer ch m e = ground arith

  pub has_channel-peer_map :
      (cur : ℕ) (peer ch : String) (m : Nested V)
      → has_channel cur peer ch m ≡ false
      → lookup ch (peer_map cur peer m) ≡ none
  unfolding has_channel peer_map
  has_channel-peer_map cur peer ch m e = ground arith

  -- Writing or deleting a channel leaves the others.
  pub lookup-set_channel :
      (cur : ℕ) (peer ch : String) (c : ℕ) (p k : String) (v : V) (m : Nested V)
      → lookup k (peer_map c p (set_channel cur peer ch v m))
        ≡ (if nat_eq cur c && (peer == p) && (ch == k) then some v else lookup k (peer_map c p m))
  unfolding set_channel
  lookup-set_channel cur peer ch c p k v m =
      let there = peer_map-set_peer cur peer c p (insert ch v (peer_map cur peer m)) m in
      let same = nat_eq_iff cur c in
      let same_peer = text_key.beq_iff peer p in
      elim (Bool-cases (nat_eq cur c && (peer == p))) [
        | inr f ↦ rw (there, f) (ground arith)
        | inl t ↦
            let samec : cur ≡ c = ground arith in
            let samep : peer ≡ p = ground arith in
            rw (there, t, ← samec, ← samep) (lookup-insert ch k v (peer_map cur peer m))
      ]

  pub lookup-delete_channel :
      (cur : ℕ) (peer ch : String) (c : ℕ) (p k : String) (m : Nested V)
      → lookup k (peer_map c p (delete_channel cur peer ch m))
        ≡ (if nat_eq cur c && (peer == p) && (ch == k) then none else lookup k (peer_map c p m))
  unfolding delete_channel
  lookup-delete_channel cur peer ch c p k m =
      let there = peer_map-set_peer cur peer c p (erase ch (peer_map cur peer m)) m in
      let same = nat_eq_iff cur c in
      let same_peer = text_key.beq_iff peer p in
      elim (Bool-cases (nat_eq cur c && (peer == p))) [
        | inr f ↦ rw (there, f) (ground arith)
        | inl t ↦
            let samec : cur ≡ c = ground arith in
            let samep : peer ≡ p = ground arith in
            rw (there, t, ← samec, ← samep) (lookup-erase ch k (peer_map cur peer m))
      ]

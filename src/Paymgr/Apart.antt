-- ===== src/Paymgr/Apart.antt =====
-- The operations on channels of paymgr/paymentmgr_impl.go act on the channel that they name alone.
use fcr.Base.{
  ℕ, String, nat_eq, ◌&&◌, ◌==◌, ◌≡◌, false, Option, Result, Result-cases, inr, inl, Bool-cases, ok,
  some, nat_eq_iff, text_key, ◌∙◌, err, refl, panic, true,
}
use fcr.Paymgr.Channels.{
  Manager, add_outbound_channel, check_outbound, fresh_channel, fresh_state, write_outbound,
  retire_outbound_channel, update_outbound_channel_balance, bear_network_loss, write_result,
}
use fcr.Paymgr.Types.{CachedPaychState, Transactor}
use fcr.Base.Nested.{
  peer_map, has_channel, lookup-set_channel, find_channel, lookup-delete_channel, delete_channel,
}
use fcr.Base.Map.{lookup}

abbrev OtherChannel : ℕ → String → String → ℕ → String → String → Type 0
OtherChannel cur peer ch c p k = nat_eq cur c && (peer == p) && (ch == k) ≡ false

-- The cached state of an outbound channel.
pub outbound : ℕ → String → String → Manager → Option CachedPaychState
outbound cur to ch m = lookup ch (peer_map cur to (m.active_out))

write_apart :
    (cur : ℕ) (to ch : String) (m : Manager) (cs : CachedPaychState) (c : ℕ) (p k : String)
    → OtherChannel cur to ch c p k
    → outbound c p k (write_outbound cur to ch m cs) ≡ outbound c p k m
unfolding write_outbound outbound
write_apart cur to ch m cs c p k other =
    lookup-set_channel cur to ch c p k cs (m.active_out) ∙ rw other

result_apart :
    (cur : ℕ) (to ch : String) (m : Manager) (r : Result CachedPaychState) (c : ℕ) (p k : String)
    → OtherChannel cur to ch c p k
    → outbound c p k (write_result cur to ch m r).0 ≡ outbound c p k m
unfolding write_result
result_apart cur to ch m (ok cs) c p k other = write_apart cur to ch m cs c p k other
result_apart cur to ch m (err e) c p k other = refl
result_apart cur to ch m panic c p k other = refl

delete_apart :
    (cur : ℕ) (to ch : String) (m : Manager) (c : ℕ) (p k : String)
    → OtherChannel cur to ch c p k
    → outbound c p k (record m { active_out = delete_channel cur to ch (m.active_out) })
      ≡ outbound c p k m
unfolding outbound
delete_apart cur to ch m c p k other =
    lookup-delete_channel cur to ch c p k (m.active_out) ∙ rw other

add_apart :
    (chain : Transactor) (self : Result String) (cur : ℕ) (to ch : String) (seen m : Manager)
    (c : ℕ) (p k : String)
    → OtherChannel cur to ch c p k
    → outbound c p k (add_outbound_channel chain self cur to ch seen m).manager ≡ outbound c p k m
unfolding add_outbound_channel write_outbound
add_apart chain self cur to ch seen m c p k other =
    elim (Result-cases (check_outbound chain self cur to ch)) [
      | inr (inl (e, q)) ↦ rw (add_outbound_channel, q)
      | inr (inr q) ↦ rw (add_outbound_channel, q)
      | inl (x, q) ↦ elim (Bool-cases (has_channel cur to ch (seen.active_out))) [
        | inl a ↦ rw (add_outbound_channel, q, a)
        | inr a ↦ elim (Bool-cases (has_channel cur to ch (m.active_out))) [
          | inl b ↦ rw (add_outbound_channel, q, a, b)
          | inr b ↦
              let fresh = fresh_channel (fresh_state cur ch x) in
              rw (add_outbound_channel, q, a, b) (write_apart cur to ch m fresh c p k other)
        ]
      ]
    ]

retire_apart :
    (cur : ℕ) (to ch : String) (seen m : Manager) (c : ℕ) (p k : String)
    → OtherChannel cur to ch c p k
    → outbound c p k (retire_outbound_channel cur to ch seen m).manager ≡ outbound c p k m
unfolding retire_outbound_channel
retire_apart cur to ch seen m c p k other =
    elim (Result-cases (find_channel cur to ch (seen.active_out))) [
      | inr (inl (e, q)) ↦ rw (retire_outbound_channel, q)
      | inr (inr q) ↦ rw (retire_outbound_channel, q)
      | inl (x, q) ↦ elim (Result-cases (find_channel cur to ch (m.active_out))) [
        | inr (inl (e, r)) ↦ rw (retire_outbound_channel, q, r)
        | inr (inr r) ↦ rw (retire_outbound_channel, q, r)
        | inl (y, r) ↦ rw (retire_outbound_channel, q, r) (delete_apart cur to ch m c p k other)
      ]
    ]

update_apart :
    (chain chain' : Transactor) (cur : ℕ) (to ch : String) (seen m : Manager) (c : ℕ) (p k : String)
    → OtherChannel cur to ch c p k
    → outbound c p k (update_outbound_channel_balance chain chain' cur to ch seen m).0
      ≡ outbound c p k m
unfolding update_outbound_channel_balance
update_apart chain chain' cur to ch seen m c p k other = result_apart cur to ch m _ c p k other

bear_apart :
    (chain : Transactor) (cur : ℕ) (to ch : String) (seen m : Manager) (c : ℕ) (p k : String)
    → OtherChannel cur to ch c p k
    → outbound c p k (bear_network_loss chain cur to ch seen m).0 ≡ outbound c p k m
unfolding bear_network_loss
bear_apart chain cur to ch seen m c p k other = result_apart cur to ch m _ c p k other

-- Adding, retiring, updating and bearing the loss of an outbound channel leave the cached state of
-- every other outbound channel as it was, whether the call succeeds or not.
pub outbound_channels_apart :
    (chain chain' : Transactor) (self : Result String) (cur : ℕ) (to ch : String) (seen m : Manager)
    (c : ℕ) (p k : String)
    → OtherChannel cur to ch c p k
    → (outbound c p k (add_outbound_channel chain self cur to ch seen m).manager ≡ outbound c p k m)
      × (outbound c p k (retire_outbound_channel cur to ch seen m).manager ≡ outbound c p k m)
      × (outbound c p k (update_outbound_channel_balance chain chain' cur to ch seen m).0
          ≡ outbound c p k m)
      × (outbound c p k (bear_network_loss chain cur to ch seen m).0 ≡ outbound c p k m)
outbound_channels_apart chain chain' self cur to ch seen m c p k other = (
  add_apart chain self cur to ch seen m c p k other,
  retire_apart cur to ch seen m c p k other,
  update_apart chain chain' cur to ch seen m c p k other,
  bear_apart chain cur to ch seen m c p k other,
)

write_there :
    (cur : ℕ) (to ch : String) (m : Manager) (cs : CachedPaychState)
    → outbound cur to ch (write_outbound cur to ch m cs) ≡ some cs
unfolding write_outbound outbound
write_there cur to ch m cs =
    let same : nat_eq cur cur ≡ true = (nat_eq_iff cur cur).1 refl in
    let same_to : to == to ≡ true = (text_key.beq_iff to to).1 refl in
    let same_ch : ch == ch ≡ true = (text_key.beq_iff ch ch).1 refl in
    lookup-set_channel cur to ch cur to ch cs (m.active_out) ∙ rw (same, same_to, same_ch)

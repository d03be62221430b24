-- ===== src/Paymgr/Channels.antt =====
-- The channels of the payment manager: adding, retiring and updating them, and bearing network loss
-- (paymgr/paymentmgr_impl.go). Each call checks under a read lock and once more under the write
-- lock; what other calls did in between is in the second state and the second transactor. Calls of
-- the channel stores, of the subscriber store and of the route store are listed in their order.
use fcr.Base.{
  nat_key, ℕ, String, List, Result, [], fail_if, not, ◌==◌, ok, err, ◌∷◌, Bool, true, false, ◌+◌,
  ◌>>=◌, if◌then◌else◌, ◌>>◌, panic, text_key,
}
use fcr.Paymgr.Types.{Transactor, ChainState, CachedPaychState, u64}
use fcr.Base.Nested.{Nested, has_channel, set_channel, find_channel, delete_channel, peer_map}
use fcr.Paychstate.{State}
use fcr.Base.Int.{eqb_ℤ, pos}
use fcr.Base.Map.{is_empty}
use fcr.Paymgr.Outbound.{has_loss}

pub record Manager : Type 0 where
  pub active_out : Nested CachedPaychState
  pub active_in : Nested State

pub data Effect : Type 0 where
  active_out_upsert active_in_upsert inactive_out_upsert inactive_in_upsert : State → Effect
  active_out_remove active_in_remove : ℕ → String → String → Effect
  add_direct_link remove_direct_link add_subscriber remove_subscriber : ℕ → String → Effect

-- How a call ends: the manager, the calls it made, its error, and how often it called the release
-- function of the write lock that it holds.
pub record Outcome : Type 0 where
  pub manager : Manager
  pub effects : List Effect
  pub result : Result (Unit {0})
  pub releases : ℕ

abbrev refuse : Manager → Result (Unit {0}) → Outcome
refuse m r = record { manager = m; effects = []; result = r; releases = 0 }

-- The state of a channel that the chain tells of.
abbrev pub fresh_state : ℕ → String → ChainState → State
fresh_state cur ch c = record {
  currency_id = cur;
  from_addr = c.sender;
  to_addr = c.recipient;
  ch_addr = ch;
  balance = c.balance;
  redeemed = c.redeemed;
  nonce = 0;
  voucher = "";
  network_loss_voucher = "";
  state_nonce = 0;
}

-- Settling channels are refused.
unfoldable pub check_open : ChainState → Result (Unit {0})
check_open c = do
  fail_if (not (eqb_ℤ c.settling_at (pos 0))) "channel is settling/settled"
  fail_if (not (eqb_ℤ c.min_settling_at (pos 0))) "channel has min settling at"

-- `self` is the answer of signer.GetAddr.
unfoldable pub check_outbound : Transactor → Result String → ℕ → String → String → Result ChainState
check_outbound chain self cur to ch = do
  c ← chain.check cur ch
  check_open c
  fail_if (not (c.recipient == to)) "channel recipient does not match"
  self_addr ← self
  fail_if (not (c.sender == self_addr)) "channel sender does not match"
  ok c

abbrev check_inbound : Transactor → Result String → ℕ → String → String → Result ChainState
check_inbound chain self cur from ch = do
  c ← chain.check cur ch
  check_open c
  fail_if (not (c.sender == from)) "channel sender does not match"
  self_addr ← self
  fail_if (not (c.recipient == self_addr)) "channel recipient does not match"
  ok c

unfoldable pub fresh_channel : State → CachedPaychState
fresh_channel s = record { state = s; reserved_amt = pos 0; reserved_nonce = 0; reservations = [] }

-- The first manager is read, the second written.
unfoldable pub add_outbound_channel :
    Transactor → Result String → ℕ → String → String → Manager → Manager → Outcome
add_outbound_channel chain self cur to ch seen m = elim (check_outbound chain self cur to ch) [
  | err e ↦ refuse m (err e)
  | panic ↦ refuse m panic
  | ok c ↦
      let s = fresh_state cur ch c in
      if has_channel cur to ch (seen.active_out)
      then refuse m (ok tt)
      else if has_channel cur to ch (m.active_out)
      then record { manager = m; effects = []; result = ok tt; releases = 2 }
      else record {
        manager = record m { active_out = set_channel cur to ch (fresh_channel s) (m.active_out) };
        effects = active_out_upsert s ∷ add_direct_link cur to ∷ [];
        result = ok tt;
        releases = 1;
      }
]

abbrev add_inbound_channel :
    Transactor → Result String → ℕ → String → String → Manager → Manager → Outcome
add_inbound_channel chain self cur from ch seen m = elim (check_inbound chain self cur from ch) [
  | err e ↦ refuse m (err e)
  | panic ↦ refuse m panic
  | ok c ↦
      let s = fresh_state cur ch c in
      if has_channel cur from ch (seen.active_in)
      then refuse m (ok tt)
      else if has_channel cur from ch (m.active_in)
      then record { manager = m; effects = []; result = ok tt; releases = 1 }
      else record {
        manager = record m { active_in = set_channel cur from ch s (m.active_in) };
        effects = active_in_upsert s ∷ add_subscriber cur from ∷ [];
        result = ok tt;
        releases = 1;
      }
]

-- A peer without channels is no direct link any more.
abbrev unlink : Bool → Effect → List Effect
unlink true e = e ∷ []
unlink false e = []

unfoldable pub retire_outbound_channel : ℕ → String → String → Manager → Manager → Outcome
retire_outbound_channel cur to ch seen m = elim (find_channel cur to ch (seen.active_out)) [
  | err e ↦ refuse m (err e)
  | panic ↦ refuse m panic
  | ok was ↦ elim (find_channel cur to ch (m.active_out)) [
    | err e ↦ record { manager = m; effects = []; result = err e; releases = 1 }
    | panic ↦ record { manager = m; effects = []; result = panic; releases = 1 }
    | ok cs ↦
        let active = delete_channel cur to ch (m.active_out) in
        record {
          manager = record m { active_out = active };
          effects =
              active_out_remove cur to ch
              ∷ inactive_out_upsert (cs.state)
              ∷ unlink (is_empty (peer_map cur to active)) (remove_direct_link cur to);
          result = ok tt;
          releases = 1;
        }
  ]
]

abbrev retire_inbound_channel : ℕ → String → String → Manager → Manager → Outcome
retire_inbound_channel cur from ch seen m = elim (find_channel cur from ch (seen.active_in)) [
  | err e ↦ refuse m (err e)
  | panic ↦ refuse m panic
  | ok was ↦ elim (find_channel cur from ch (m.active_in)) [
    | err e ↦ record { manager = m; effects = []; result = err e; releases = 1 }
    | panic ↦ record { manager = m; effects = []; result = panic; releases = 1 }
    | ok s ↦
        let active = delete_channel cur from ch (m.active_in) in
        record {
          manager = record m { active_in = active };
          effects =
              active_in_remove cur from ch
              ∷ inactive_in_upsert s
              ∷ unlink (is_empty (peer_map cur from active)) (remove_subscriber cur from);
          result = ok tt;
          releases = 1;
        }
  ]
]

-- What UpdateOutboundChannelBalance does to the channel, with the chain's answer.
unfoldable pub update_balance : Transactor → ℕ → String → CachedPaychState → Result CachedPaychState
update_balance chain cur ch cs = do
  c ← chain.check cur ch
  fail_if (eqb_ℤ (cs.state.balance) (c.balance)) "channel balance does not need to be updated"
  ok (record cs {
    state = record (cs.state) { balance = c.balance; state_nonce = u64 (cs.state.state_nonce + 1) };
  })

-- What BearNetworkLoss does to the channel: the voucher that proved the loss becomes the latest one.
unfoldable pub bear_loss : Transactor → ℕ → CachedPaychState → Result CachedPaychState
bear_loss chain cur cs = do
  fail_if (not (has_loss (cs.state))) "channel does not have network loss"
  v ← chain.verify_voucher cur (cs.state.network_loss_voucher)
  ok (record cs {
    state = record (cs.state) {
      redeemed = v.redeemed;
      nonce = v.nonce;
      voucher = cs.state.network_loss_voucher;
      network_loss_voucher = "";
      state_nonce = u64 (cs.state.state_nonce + 1);
    };
  })

-- Writing one channel that is there.
unfoldable pub write_outbound : ℕ → String → String → Manager → CachedPaychState → Manager
write_outbound cur to ch m cs = record m { active_out = set_channel cur to ch cs (m.active_out) }

-- A call that ends with a new state of the channel writes it; one that fails writes nothing.
unfoldable pub write_result :
    ℕ → String → String → Manager → Result CachedPaychState → Manager × Result (Unit {0})
write_result cur to ch m (ok cs) = (write_outbound cur to ch m cs, ok tt)
write_result cur to ch m (err e) = (m, err e)
write_result cur to ch m panic = (m, panic)

unfoldable pub update_outbound_channel_balance :
    Transactor → Transactor → ℕ → String → String → Manager → Manager → Manager × Result (Unit {0})
update_outbound_channel_balance chain chain' cur to ch seen m =
    let checked = find_channel cur to ch (seen.active_out) >>= update_balance chain cur ch in
    let updated =
      checked >>= λ _. find_channel cur to ch (m.active_out) >>= update_balance chain' cur ch in
    write_result cur to ch m updated

-- The provisional check only looks for a loss.
unfoldable pub bear_network_loss :
    Transactor → ℕ → String → String → Manager → Manager → Manager × Result (Unit {0})
bear_network_loss chain cur to ch seen m =
    let checked = find_channel cur to ch (seen.active_out) >>= λ cs.
    fail_if (not (has_loss (cs.state))) "channel does not have network loss" in
    let borne = checked >>= λ _. find_channel cur to ch (m.active_out) >>= bear_loss chain cur in
    write_result cur to ch m borne

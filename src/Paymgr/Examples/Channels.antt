-- ===== src/Paymgr/Examples/Channels.antt =====
-- The theorems on reserving, relaying, receiving and the channels of paymgr/ at work.
use mathlib.Core.Path.{subst}
use fcr.Paymgr.Reserve.{
  Turn, Active, Won, reserve_target, reserve_params, is_rate, outbound_rate, gross_amt_required,
  take_turns, take_turn, policy_allows, inbound_rate, has_room, locked_turn, try_reserve,
  add_reservation, new_reservation, peer_state, reserve, admit,
}
use fcr.Base.{
  ok, true, err, ◌∷◌, [], ◌≡◌, refl, String, some, arith, false, ◌+◌, none, inr, ◌≤◌, text_key,
  nat_key, ◌≢◌,
}
use fcr.Base.Int.{pos, div, ◌+ℤ◌, ◌-ℤ◌, ◌*ℤ◌, ℤ}
use fcr.Paymgr.Price.{surcharge_on, calculate_gross_amount_to_pay}
use fcr.Paymgr.Outbound.{
  has_loss, pay_attempt, pay_params, pay_check, pay_provisional, find_reservation, receive_for,
  pay_from, paid_state, pay,
}
use fcr.Paymgr.Expiry.{
  get_expired_amount, expired_from, is_expired, release_expired_amount, available, live,
}
use fcr.Base.Map.{Map, lookup}
use fcr.Paymgr.Types.{CachedPaychState}
use fcr.Paymgr.Reserving.{reserve_granted}
use fcr.Paymgr.Price.RoundTrip.{Settled}
use fcr.Paymgr.Relay.{inbound_rate_covers}
use fcr.Paymgr.Examples.{
  price, channel, request, chain, start, payment, channel-IsSound, on_chain, info, pending, pays,
}
use fcr.Paymgr.Price.Periods.{rate}
use fcr.Paychstate.{State}
use fcr.Paymgr.Inbound.{
  receive_attempt, covering_balance, received_state, receive_check, accepted, receive,
}
use fcr.Paymgr.Receiving.{InSync, voucher_accepted}
use fcr.Paymgr.Channels.{
  Manager, add_outbound_channel, check_outbound, check_open, retire_outbound_channel,
  update_outbound_channel_balance, bear_network_loss,
}
use fcr.Paymgr.Apart.{outbound}
use fcr.Base.Nested.{has_channel, find_channel, peer_map, Nested}
use fcr.Paymgr.Sound.Manager.{AllSound, pay-Settles, Settles}
use fcr.Paymgr.Sound.{IsSound}
use fcr.Paymgr.Apart.{outbound_channels_apart}

abbrev turn : Turn
turn = record {
  ch_addr = "ch";
  inspected = ok (true, price);
  policy = err "no policy";
  read_locked = true;
  seen_at = pos 1;
  seen = channel;
  write_locked = true;
  now = pos 1;
}

abbrev second_turn : Turn
second_turn = record turn { ch_addr = "ch3" }

abbrev active : Active
active = (1, ("bob", ("ch", channel) ∷ []) ∷ []) ∷ []

-- The goroutine of the first channel wins the second reservation on it, at a price of 5 + 5.
abbrev won : Won
won = record { inbound = record { ppp = pos 10; period = pos 3 }; ch_addr = "ch"; res_id = 2 }

wins : (reserve (pos 1) request (turn ∷ second_turn ∷ []) active).1 ≡ ok won
unfolding reserve reserve_target reserve_params is_rate outbound_rate gross_amt_required
    surcharge_on div take_turns take_turn admit policy_allows inbound_rate has_room has_loss
    available get_expired_amount expired_from is_expired locked_turn try_reserve
    release_expired_amount live add_reservation new_reservation ◌+ℤ◌ ◌-ℤ◌ ◌*ℤ◌
wins = refl

others : second_turn.ch_addr ≢ turn.ch_addr
others e =
    let same : text_key.beq second_turn.ch_addr turn.ch_addr ≡ true =
      (text_key.beq_iff second_turn.ch_addr turn.ch_addr).1 e in
    ground arith

reserve_granted_example :
    (gross : ℤ) × (ps : Map String CachedPaychState) × (cs : CachedPaychState) × (reserve_params
        (pos 1)
        request
      ≡ ok gross)
    × (peer_state 1 "bob" (reserve (pos 1) request (turn ∷ second_turn ∷ []) active).0 ≡ ok ps)
    × (lookup "ch" ps ≡ some cs)
    × (lookup 2 cs.reservations ≡ some (new_reservation request gross won.inbound))
reserve_granted_example =
    reserve_granted (pos 1) request (turn ∷ second_turn ∷ []) active ((others, tt), (tt, tt)) wins

roomy : has_room (pos 1) (pos 30) channel ≡ true
unfolding has_room has_loss available get_expired_amount expired_from is_expired ◌+ℤ◌ ◌-ℤ◌
roomy = refl

abbrev lost_channel : CachedPaychState
lost_channel = record channel { state = record start { network_loss_voucher = "v9" } }

asked : inbound_rate true (rate 5 3) (rate 5 4) ≡ some (rate (5 + 5) 3)
unfolding inbound_rate is_rate ◌+ℤ◌
asked = refl

inbound_rate_covers_example : 10 ≤ 20
inbound_rate_covers_example =
    inbound_rate_covers 5 4 5 3 3 4 20 10 (inr (omega arith, omega arith))
      (inr (omega arith, omega arith)) asked settled_in settled_out
  where
    settled_in : Settled (5 + 5) 3 4 20
    settled_in = record {
      started = 2;
      charged = refl;
      used = inr (record { covers = omega arith; last_used = omega arith });
    }

    settled_out : Settled 5 3 4 10
    settled_out = record {
      started = 2;
      charged = refl;
      used = inr (record { covers = omega arith; last_used = omega arith });
    }

-- The voucher that `chain` reads is accepted for 7.
abbrev received : State
received = record start { redeemed = pos 17; nonce = 4; voucher = "v4"; state_nonce = 4 }

accepts : receive_attempt chain 1 "v4" info start ≡ accepted (pos 7) received
unfolding receive_attempt covering_balance received_state ◌-ℤ◌
accepts = refl

voucher_accepted_example :
    (receive_check chain 1 info start ≡ none)
    × (receive_attempt chain 1 "v4" info start
        ≡ accepted (pos 17 -ℤ pos 10) (received_state start "v4" info (pos 100)))
    × InSync pending.state (received_state start "v4" info (pos 100))
voucher_accepted_example =
    voucher_accepted chain chain (pos 1) (pos 1) payment channel start info channel-IsSound pays
      (record { redeemed = refl; nonce = refl; balance = omega arith }) (omega arith) (omega arith)
      refl refl

abbrev manager : Manager
manager = record { active_out = active; active_in = [] }

checks : check_outbound chain (ok "alice") 1 "bob" "ch" ≡ ok on_chain
unfolding check_outbound check_open
checks = refl

-- Another call added the channel between the two locks.
abbrev nobody : Manager
nobody = record { active_out = []; active_in = [] }

absent : has_channel 1 "bob" "ch" (nobody.active_out) ≡ false
unfolding has_channel
absent = refl

-- Pay and Receive as a whole, on the managers at both ends.
pay_runs : (pay chain (pos 1) (pos 1) (pos 1) payment "bob" "ch" active active).1 ≡ ok pending
unfolding pay pay_params pay_check find_channel peer_map pay_attempt release_expired_amount
    expired_from live is_expired pay_provisional find_reservation receive_for pay_from paid_state
    calculate_gross_amount_to_pay surcharge_on div ◌+ℤ◌ ◌-ℤ◌ ◌*ℤ◌
pay_runs = refl

abbrev incoming : Nested State
incoming = (1, ("alice", ("ch", start) ∷ []) ∷ []) ∷ []

receive_runs : receive chain chain 1 "v4" incoming incoming ≡ accepted (pos 7) received
unfolding receive find_channel peer_map receive_check receive_attempt covering_balance
    received_state ◌-ℤ◌
receive_runs = refl

active-AllSound : AllSound active
unfolding peer_map
active-AllSound cur peer ch cs e =
    let one : channel ≡ cs = ground arith in subst IsSound one channel-IsSound

pays_there : (pay chain (pos 1) (pos 1) (pos 1) payment "bob" "ch" active active).1 ≡ ok pending
unfolding pay pay_params pay_check find_channel find_reservation receive_for pay_from pay_attempt
    release_expired_amount expired_from live is_expired pay_provisional paid_state
    calculate_gross_amount_to_pay surcharge_on div ◌+ℤ◌ ◌-ℤ◌ ◌*ℤ◌ peer_map
pays_there = refl

pay-Settles_example :
    Settles chain payment "bob" "ch"
      (pos 1)
      ""
      active
      (pay chain (pos 1) (pos 1) (pos 1) payment "bob" "ch" active active).0
      pending
pay-Settles_example =
    pay-Settles chain (pos 1) (pos 1) (pos 1) (pos 1) payment "bob" "ch" "" active active
      active-AllSound pays_there

outbound_channels_apart_example :
    (outbound 1 "bob" "ch"
        (add_outbound_channel chain (ok "alice") 1 "bob" "ch3" manager manager).manager
      ≡ outbound 1 "bob" "ch" manager)
    × (outbound 1 "bob" "ch" (retire_outbound_channel 1 "bob" "ch3" manager manager).manager
        ≡ outbound 1 "bob" "ch" manager)
    × (outbound 1 "bob" "ch"
          (update_outbound_channel_balance chain chain 1 "bob" "ch3" manager manager).0
        ≡ outbound 1 "bob" "ch" manager)
    × (outbound 1 "bob" "ch" (bear_network_loss chain 1 "bob" "ch3" manager manager).0
        ≡ outbound 1 "bob" "ch" manager)
outbound_channels_apart_example =
    outbound_channels_apart chain chain (ok "alice") 1 "bob" "ch3" manager manager 1 "bob" "ch" refl

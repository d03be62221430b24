-- ===== src/Paymgr/Examples.antt =====
-- The theorems on paymgr/ at work on one outbound channel of 100, of which 10 are redeemed and 30
-- reserved at a price of 5 per started 3, and on the inbound channel at its other end.
mod Channels
mod Payments
use fcr.Paymgr.Price.{
  Rate, calculate_gross_amount_to_pay, surcharge_on, Tally, calculate_petty_amount_to_receive,
  surcharge_remainder, fill_period, fill_periods, fill_last,
}
use fcr.Base.Int.{ℤ, pos, ◌+ℤ◌, div, ◌-ℤ◌, ◌*ℤ◌, ◌≤ℤ◌}
use fcr.Paychstate.{State}
use fcr.Paymgr.Types.{
  PayOffer, Reservation, CachedPaychState, VoucherInfo, ChainState, Transactor, u64,
}
use mathlib.Core.Path.{subst}
use fcr.Base.{[], none, ◌∷◌, refl, arith, ok, some, ◌≡◌, false, ◌+◌, inr, true, err, nat_key}
use fcr.Paymgr.Sound.{IsSound, remain_of}
use fcr.Paymgr.Outbound.{
  Payment, Pending, pay_attempt, pay_provisional, find_reservation, receive_for, pay_from,
  paid_state, pay_commit, pay_revert,
}
use fcr.Paymgr.Expiry.{
  release_expired_amount, expired_from, is_expired, live, get_expired_amount, available,
}
use fcr.Paymgr.Sound.History.{history_covered, Step, Signed, reserves, pays as pays_for, next, here}
use fcr.Paymgr.Reserve.{
  try_reserve, add_reservation, Request, gross_amt_required, outbound_rate, new_reservation,
}
use fcr.Paymgr.Channels.{fresh_channel}
use fcr.Paymgr.Sound.Reserve.{try_reserve-IsSound}
use fcr.Paymgr.Sound.Release.{release-IsSound}
use fcr.Paymgr.Sound.Pay.{pay_attempt-IsSound, pay_commit-IsSound, pay_revert-IsSound, pay_signs}
use fcr.Paymgr.Price.RoundTrip.{Exchanges, receive-pay, Settled}
use fcr.Paymgr.Coverage.{pay_all, reservation_pays_in_full, reservation_never_exceeded}
use fcr.Paymgr.Price.Conserve.{receive_conserves}
use fcr.Base.Sum.{total}
use fcr.Base.Map.{lookup}

abbrev pub price : Rate
price = record { ppp = pos 5; period = pos 3 }

abbrev pub start : State
start = record {
  currency_id = 1;
  from_addr = "alice";
  to_addr = "bob";
  ch_addr = "ch";
  balance = pos 100;
  redeemed = pos 10;
  nonce = 3;
  voucher = "v3";
  network_loss_voucher = "";
  state_nonce = 3;
}

abbrev pub offer : PayOffer
offer = record {
  currency_id = 1;
  src_addr = "bob";
  dest_addr = "carol";
  ppp = pos 5;
  period = pos 3;
  amt = pos 4;
  expiration = pos 50;
  inactivity = pos 20;
  res_to = "carol";
  res_ch = "ch2";
  res_id = 7;
  nonce = 1;
  signature_type = 1;
  signature = [];
}

abbrev pub held : Reservation
held = record {
  inbound = record { ppp = pos 0; period = pos 0 };
  petty_amt_received = pos 0;
  surcharge_received = pos 0;
  outbound = price;
  petty_amt_paid = pos 0;
  surcharge_paid = pos 0;
  remain = pos 30;
  last_accessed = pos 0;
  expiration = pos 100;
  inactivity = pos 20;
  offer = none;
}

abbrev pub channel : CachedPaychState
channel = record {
  state = start;
  reserved_amt = pos 30;
  reserved_nonce = 1;
  reservations = (1, held) ∷ [];
}

pub channel-IsSound : IsSound channel
unfolding ◌+ℤ◌
channel-IsSound = record {
  reserved = refl;
  filled = ((omega arith, omega arith), tt);
  distinct = (refl, tt);
  solvent = omega arith;
  lost = λ l. absurd (ground arith);
}

-- A voucher of 17 under nonce 4.
abbrev pub info : VoucherInfo
info = record { sender = "alice"; channel = "ch"; lane = 0; nonce = 4; redeemed = pos 17 }

abbrev pub on_chain : ChainState
on_chain = record {
  settling_at = pos 0;
  min_settling_at = pos 0;
  current_height = pos 9;
  redeemed = pos 0;
  balance = pos 100;
  sender = "alice";
  recipient = "bob";
}

abbrev pub chain : Transactor
chain = record {
  generate_voucher = λ cur ch lane nonce amount. ok "v4";
  verify_voucher = λ cur v. ok info;
  check = λ cur ch. ok on_chain;
}

abbrev pub payment : Payment
payment = record {
  currency_id = 1;
  res_id = 1;
  gross_amt_received = none;
  petty_amt_required = pos 2;
}

abbrev pub pending : Pending
pending = record {
  voucher = "v4";
  offer = none;
  state = record start { redeemed = pos 17; nonce = 4; voucher = "v4"; state_nonce = 4 };
  reserved_amt = pos 23;
  reservation =
      some (record held { petty_amt_paid = pos 2; surcharge_paid = pos 5; remain = pos 23 });
}

pub pays : (pay_attempt chain (pos 1) (pos 1) payment channel).1 ≡ ok pending
unfolding pay_attempt release_expired_amount expired_from live is_expired pay_provisional
    find_reservation receive_for pay_from paid_state calculate_gross_amount_to_pay surcharge_on div
    ◌+ℤ◌ ◌-ℤ◌ ◌*ℤ◌
pays = refl

grants : (try_reserve false (pos 1) held (fresh_channel start)).0 ≡ channel
unfolding try_reserve release_expired_amount expired_from live available add_reservation
    fresh_channel ◌+ℤ◌ ◌-ℤ◌
grants = refl

granted : Step (fresh_channel start) [] channel []
unfolding fresh_channel
granted =
    subst (λ x. Step (fresh_channel start) [] x []) grants
      (reserves false (pos 1) held (omega arith) (omega arith))

abbrev paid : CachedPaychState
paid = pay_commit payment pending (pos 1) (pay_attempt chain (pos 1) (pos 1) payment channel).0

-- A new channel, the reservation on it, and a payment from it.
history_covered_example :
    (paid.state.redeemed +ℤ total remain_of paid.reservations ≤ℤ paid.state.balance)
    × (paid.state.redeemed ≤ℤ paid.state.balance)
    × ((a : ℤ) → Signed a (pos 17 ∷ []) → a ≤ℤ paid.state.balance)
history_covered_example =
    history_covered start (omega arith)
      (next (next here granted) (pays_for chain (pos 1) (pos 1) (pos 1) payment pending pays))

try_reserve-IsSound_example : IsSound (try_reserve false (pos 1) held channel).0
try_reserve-IsSound_example =
    try_reserve-IsSound false (pos 1) held channel channel-IsSound (omega arith) (omega arith)

abbrev pub request : Request
request = record {
  currency_id = 1;
  to_addr = "bob";
  petty_amt_required = pos 4;
  served_required = true;
  received_offer = some offer;
  expiration = pos 100;
  inactivity = pos 20;
  peer_addr = "";
}

-- ===== src/Paymgr/Outbound.antt =====
-- Paying through one outbound channel: Pay of paymgr/paymentmgr_impl.go. The reservation is checked
-- under a read lock, and once more under the write lock, which is kept until commit or revert is
-- called. Between the two locks other calls may change the channel, so the two parts take their
-- own states, clocks and transactors.
use fcr.Base.{
  ℕ, ◌+◌, String, Bool, false, not, ◌||◌, Option, none, some, Result, ok, err, panic, ◌>>=◌, ◌>>◌,
  fail_if, or_fail, if◌then◌else◌, ◌==◌, leb, [], text_key, nat_key, ◌&&◌,
}
use fcr.Base.Int.{ℤ, pos, ◌+ℤ◌, ◌-ℤ◌, ltb_ℤ, leb_ℤ, eqb_ℤ}
use fcr.Base.Map.{lookup, insert, erase}
use fcr.Paychstate.{State}
use fcr.Paymgr.Price.{calculate_gross_amount_to_pay, calculate_petty_amount_to_receive}
use fcr.Paymgr.Types.{Time, u64, Reservation, CachedPaychState, PayOffer, Transactor}
use fcr.Paymgr.Expiry.{is_expired, release_expired_amount}
use fcr.Base.Nested.{Nested, find_channel, peer_map, set_channel}

-- The arguments of Pay that concern one channel. `gross_amt_received` is nil when paying for self.
pub record Payment : Type 0 where
  pub currency_id : ℕ
  pub res_id : ℕ
  pub gross_amt_received : Option ℤ
  pub petty_amt_required : ℤ

-- What Pay returns, with the provisional values that its commit writes. `reservation` is none once
-- the reservation is used up.
pub record Pending : Type 0 where
  pub voucher : String
  pub offer : Option PayOffer
  pub state : State
  pub reserved_amt : ℤ
  pub reservation : Option Reservation

abbrev pub has_loss : State → Bool
has_loss s = not (s.network_loss_voucher == "")

-- The parameter checks.
unfoldable pub pay_params : Payment → Result (Unit {0})
pay_params p = do
  fail_if (leb_ℤ p.petty_amt_required (pos 0)) "petty amount required must be positive"
  elim p.gross_amt_received [
    | none ↦ ok tt
    | some g ↦ fail_if (leb_ℤ g (pos 0)) "gross amount received must be positive"
  ]

-- The reservation with what this payment receives booked.
unfoldable pub receive_for : Payment → Reservation → Result Reservation
receive_for p r = elim p.gross_amt_received [
  | none ↦ ok r
  | some g ↦ do
    t ← calculate_petty_amount_to_receive r.inbound r.petty_amt_received r.surcharge_received g
    fail_if (not (eqb_ℤ t.amount p.petty_amt_required))
        "petty amount to receive does not match petty amount required"
    ok (record r { petty_amt_received = t.petty; surcharge_received = t.surcharge })
]

-- The gross amount to pay, and the reservation with it booked.
unfoldable pub pay_from : Payment → Reservation → Result (Reservation × ℤ)
pay_from p r = do
  t ←
      calculate_gross_amount_to_pay r.outbound r.petty_amt_paid r.surcharge_paid
        p.petty_amt_required
  fail_if (ltb_ℤ r.remain t.amount) "reservation remain does not cover gross amount to pay"
  ok (
    record r {
      petty_amt_paid = t.petty;
      surcharge_paid = t.surcharge;
      remain = r.remain -ℤ t.amount;
    },
    t.amount,
  )

-- The checks that both parts make once the channel is found.
unfoldable pub find_reservation : Time → Payment → CachedPaychState → Result Reservation
find_reservation now p cs = do
  r ← or_fail (lookup p.res_id cs.reservations) "no reservation found for reservation id"
  fail_if (is_expired now r) "reservation has expired"
  ok r

-- The provisional check, under the read lock; it changes nothing.
unfoldable pub pay_check : Time → Payment → CachedPaychState → Result (Unit {0})
pay_check now p cs = do
  fail_if (has_loss cs.state) "network loss presents"
  r ← find_reservation now p cs
  r' ← receive_for p r
  paid ← pay_from p r
  ok tt

-- The new channel state: `gross` more is redeemed, under the next nonce.
unfoldable pub paid_state : State → String → ℤ → State
paid_state s voucher gross = record s {
  redeemed = s.redeemed +ℤ gross;
  nonce = u64 (s.nonce + 1);
  voucher = voucher;
  state_nonce = u64 (s.state_nonce + 1);
}

-- The rest of Pay on a channel whose expired reservations have been released.
unfoldable pub pay_provisional : Transactor → Time → Payment → CachedPaychState → Result Pending
pay_provisional chain now p cs = do
  r ← find_reservation now p cs
  r' ← receive_for p r
  (r'', gross) ← pay_from p r'
  voucher ←
      chain.generate_voucher cs.state.currency_id cs.state.ch_addr 0 (u64 (cs.state.nonce + 1))
        (cs.state.redeemed +ℤ gross)
  ok (record {
    voucher = voucher;
    offer = r.offer;
    state = paid_state cs.state voucher gross;
    reserved_amt = cs.reserved_amt -ℤ gross;
    reservation = if eqb_ℤ r''.remain (pos 0) then none else some r'';
  })

-- The part under the write lock, with the channel as it leaves it. Expired reservations are released
-- at `cleaned`, the reservation is looked at again at `now`.
unfoldable pub pay_attempt :
    Transactor → Time → Time → Payment → CachedPaychState → CachedPaychState × Result Pending
pay_attempt chain cleaned now p cs =
    if has_loss cs.state
    then (cs, err "network loss presents")
    else let cs' = release_expired_amount cleaned cs in (cs', pay_provisional chain now p cs')

-- The function that Pay returns to commit the payment.
unfoldable pub pay_commit : Payment → Pending → Time → CachedPaychState → CachedPaychState
pay_commit p w new_last_accessed cs = record cs {
  state = w.state;
  reserved_amt = w.reserved_amt;
  reservations = elim w.reservation [
    | none ↦ erase p.res_id cs.reservations
    | some r ↦
        insert p.res_id (record r { last_accessed = new_last_accessed; expiration = pos 0 })
          cs.reservations
  ];
}

-- Whether the recipient's voucher proves that a payment went through which this side did not commit.
abbrev pub proves_loss : Transactor → ℕ → State → String → Bool
proves_loss chain currency_id s v = elim (chain.verify_voucher currency_id v) [
  | ok i ↦ not (
      not (i.sender == s.from_addr)
      || not (i.channel == s.ch_addr)
      || not (nat_key.beq i.lane 0)
      || leb i.nonce s.nonce
      || ltb_ℤ i.redeemed s.redeemed)
  | err e ↦ false
  | panic ↦ false
]

-- The function that Pay returns to revert the payment, with a voucher if network loss is found.
unfoldable pub pay_revert : Transactor → Payment → String → CachedPaychState → CachedPaychState
pay_revert chain p loss cs =
    if not (loss == "") && proves_loss chain p.currency_id cs.state loss
    then record cs {
      state = record (cs.state) {
        network_loss_voucher = loss;
        state_nonce = u64 (cs.state.state_nonce + 1);
      };
      reserved_amt = pos 0;
      reservations = [];
    }
    else cs

-- Pay on the outbound half of `active`, from the read lock (`seen`, at `seen_at`) to the write lock
-- (`m`). The write lock's state comes from the recipient's map of channels, which is held all along.
unfoldable pub pay :
    Transactor
    → Time
    → Time
    → Time
    → Payment
    → String
    → String
    → Nested CachedPaychState
    → Nested CachedPaychState
    → Nested CachedPaychState × Result Pending
pay chain seen_at cleaned now p to_addr ch_addr seen m =
    let checked =
      pay_params p >> find_channel p.currency_id to_addr ch_addr seen >>= pay_check seen_at p in
    elim checked [
      | err e ↦ (m, err e)
      | panic ↦ (m, panic)
      | ok _ ↦ elim (lookup ch_addr (peer_map p.currency_id to_addr m)) [
        | none ↦ (m, panic)
        | some cs ↦
            let (cs', r) = pay_attempt chain cleaned now p cs in
            (set_channel p.currency_id to_addr ch_addr cs' m, r)
      ]
    ]

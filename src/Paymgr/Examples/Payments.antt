-- ===== src/Paymgr/Examples/Payments.antt =====
-- The theorems on prices and on what a reservation covers at work.
use fcr.Paymgr.Price.{
  surcharge_on, calculate_petty_amount_to_receive, surcharge_remainder, fill_period, fill_periods,
  fill_last,
}
use fcr.Base.Int.{pos, ◌+ℤ◌, div, ◌-ℤ◌, ◌*ℤ◌}
use fcr.Paymgr.Types.{Reservation}
use fcr.Base.{[], ◌∷◌, refl, arith, ok, some, ◌≡◌, inr, err, nat_key}
use fcr.Paymgr.Reserve.{gross_amt_required, outbound_rate, new_reservation}
use fcr.Paymgr.Price.RoundTrip.{Exchanges, receive-pay, Settled}
use fcr.Paymgr.Coverage.{pay_all, reservation_pays_in_full, reservation_never_exceeded}
use fcr.Paymgr.Price.Conserve.{receive_conserves}
use fcr.Paymgr.Examples.{price, offer, payment, request}

receive-pay_example : Exchanges 5 3 2 5 2
receive-pay_example = receive-pay 5 3 2 5 2 (inr (omega arith, omega arith)) settled (omega arith)
  where
    settled : Settled 5 3 2 5
    settled = record {
      started = 1;
      charged = refl;
      used = inr (record { covers = omega arith; last_used = omega arith });
    }

asks : gross_amt_required price (pos 4) ≡ ok (pos 14)
unfolding gross_amt_required surcharge_on div ◌+ℤ◌ ◌-ℤ◌ ◌*ℤ◌
asks = refl

offers : outbound_rate (some offer) ≡ price
unfolding outbound_rate
offers = refl

reservation_pays_in_full_example :
    (r : Reservation) × (pay_all payment (1 ∷ 3 ∷ []) (new_reservation request (pos 14) price)
      ≡ ok r)
    × (r.petty_amt_paid ≡ pos 4)
reservation_pays_in_full_example =
    reservation_pays_in_full 5 3 4 request price payment (1 ∷ 3 ∷ [])
      (inr (omega arith, omega arith)) (omega arith) offers asks (omega arith, (omega arith, tt))
      (omega arith)

reservation_never_exceeded_example :
    pay_all payment (2 ∷ 3 ∷ []) (new_reservation request (pos 14) price)
    ≡ err "reservation remain does not cover gross amount to pay"
reservation_never_exceeded_example =
    reservation_never_exceeded 5 3 4 request price payment (2 ∷ 3 ∷ [])
      (inr (omega arith, omega arith)) (omega arith) offers asks (omega arith, (omega arith, tt))
      (omega arith)

receives :
    calculate_petty_amount_to_receive price (pos 2) (pos 5) (pos 7)
    ≡ ok (record { petty = pos 4; surcharge = pos 10; amount = pos 2 })
unfolding calculate_petty_amount_to_receive surcharge_remainder fill_period fill_periods fill_last
    ◌+ℤ◌ ◌-ℤ◌ ◌*ℤ◌ div
receives = refl

receive_conserves_example : (pos 4 +ℤ pos 10 ≡ pos 2 +ℤ pos 5 +ℤ pos 7) × (pos 2 +ℤ pos 2 ≡ pos 4)
receive_conserves_example = receive_conserves price (pos 2) (pos 5) (pos 7) receives

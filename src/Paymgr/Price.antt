-- ===== src/Paymgr/Price.antt =====
-- Petty and gross amounts, paymgr/utils.go: what a surcharge of `ppp` for every started `period`
-- makes of an amount that is paid on or received.
pub mod Conserve
pub mod Periods
pub mod RoundTrip
use fcr.Base.{◌≡◌, refl, Result, ok, ◌>>=◌, if◌then◌else◌}
use fcr.Base.Int.{ℤ, pos, ◌+ℤ◌, ◌-ℤ◌, ◌*ℤ◌, div, ltb_ℤ, leb_ℤ, eqb_ℤ}

-- Running totals of one direction of a reservation: petty amount, surcharge, and the amount that
-- the function under way is about to return (`pettyAmtToReceive`).
pub record Tally : Type 0 where
  pub petty : ℤ
  pub surcharge : ℤ
  pub amount : ℤ

-- Price per started period.
pub record Rate : Type 0 where
  pub ppp : ℤ
  pub period : ℤ

-- What is still missing of the surcharge of the current period.
unfoldable pub surcharge_remainder : ℤ → ℤ → Result ℤ
surcharge_remainder ppp surcharge =
    if eqb_ℤ surcharge (pos 0)
    then ok ppp
    else (do started ← div (surcharge -ℤ pos 1) ppp; ok ((started +ℤ pos 1) *ℤ ppp -ℤ surcharge))

-- The last, incomplete period.
unfoldable pub fill_last : Rate → Tally → ℤ → Tally
fill_last r t gross =
    if ltb_ℤ (pos 0) gross
    then (if leb_ℤ r.ppp gross
        then record {
          petty = t.petty +ℤ (gross -ℤ r.ppp);
          surcharge = t.surcharge +ℤ r.ppp;
          amount = t.amount +ℤ (gross -ℤ r.ppp);
        }
        else record t { surcharge = t.surcharge +ℤ gross })
    else t

-- Whole periods of `period + ppp` each.
unfoldable pub fill_periods : Rate → Tally → ℤ → Result Tally
fill_periods r t gross =
    if ltb_ℤ (pos 0) gross
    then (do
      n ← div gross (r.period +ℤ r.ppp)
      let t' : Tally = record {
        petty = t.petty +ℤ n *ℤ r.period;
        surcharge = t.surcharge +ℤ n *ℤ r.ppp;
        amount = t.amount +ℤ n *ℤ r.period;
      }
      ok (fill_last r t' (gross -ℤ n *ℤ (r.period +ℤ r.ppp))))
    else ok t

-- The rest of the period whose surcharge has been received.
unfoldable pub fill_period : Rate → Tally → ℤ → Result Tally
fill_period r t gross =
    if ltb_ℤ (pos 0) gross
    then (do
      paid ← div t.surcharge r.ppp
      let remainder = paid *ℤ r.period -ℤ t.petty
      if leb_ℤ gross remainder
          then ok (record t { petty = t.petty +ℤ gross; amount = t.amount +ℤ gross })
          else fill_periods r
              (record t { petty = t.petty +ℤ remainder; amount = t.amount +ℤ remainder })
              (gross -ℤ remainder))
    else ok t

-- `amount` in the result is the petty amount received this time.
unfoldable pub calculate_petty_amount_to_receive : Rate → ℤ → ℤ → ℤ → Result Tally
calculate_petty_amount_to_receive r petty surcharge gross =
    if ltb_ℤ (pos 0) r.ppp
    then (do
      remainder ← surcharge_remainder r.ppp surcharge
      if leb_ℤ gross remainder
          then ok (record { petty = petty; surcharge = surcharge +ℤ gross; amount = pos 0 })
          else fill_period r
              (record { petty = petty; surcharge = surcharge +ℤ remainder; amount = pos 0 })
              (gross -ℤ remainder))
    else ok (record { petty = petty +ℤ gross; surcharge = surcharge; amount = gross })

-- ((amount - 1) / period + 1) * ppp, the surcharge on an amount in all.
unfoldable pub surcharge_on : Rate → ℤ → Result ℤ
surcharge_on r amount = do
  started ← div (amount -ℤ pos 1) r.period
  ok ((started +ℤ pos 1) *ℤ r.ppp)

-- `amount` in the result is the gross amount to pay this time.
unfoldable pub calculate_gross_amount_to_pay : Rate → ℤ → ℤ → ℤ → Result Tally
calculate_gross_amount_to_pay r petty surcharge to_pay =
    if ltb_ℤ (pos 0) r.ppp
    then (do
      let expected = petty +ℤ to_pay
      expected_surcharge ← surcharge_on r expected
      ok (record {
        petty = expected;
        surcharge = expected_surcharge;
        amount = expected +ℤ expected_surcharge -ℤ (petty +ℤ surcharge);
      }))
    else ok (record { petty = petty +ℤ to_pay; surcharge = surcharge; amount = to_pay })

-- Paying 1 + 1 at 5 per started 3, then 2: the second payment starts a period.
pay_then_receive :
    (calculate_gross_amount_to_pay (record { ppp = pos 5; period = pos 3 }) (pos 2) (pos 5) (pos 2)
      ≡ ok (record { petty = pos 4; surcharge = pos 10; amount = pos 7 }))
    × (calculate_petty_amount_to_receive
          (record { ppp = pos 5; period = pos 3 })
          (pos 2)
          (pos 5)
          (pos 7)
        ≡ ok (record { petty = pos 4; surcharge = pos 10; amount = pos 2 }))
unfolding calculate_gross_amount_to_pay calculate_petty_amount_to_receive surcharge_remainder
    surcharge_on fill_period fill_periods fill_last ◌+ℤ◌ ◌-ℤ◌ ◌*ℤ◌ div
pay_then_receive = (refl, refl)

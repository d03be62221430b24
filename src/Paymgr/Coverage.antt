-- ===== src/Paymgr/Coverage.antt =====
-- A reservation of Reserve pays for what it was made for: Reserve's gross amount against the sum of
-- the gross amounts that Pay takes (paymgr/paymentmgr_impl.go, paymgr/utils.go).
pub mod Portion
use native.Mathlib.Nat.{mul-le-mul_right}
use fcr.Base.{
  arith, ℕ, ◌≤◌, inl, ap, ◌*◌, inr, ◌≡◌, ◌+◌, ok, sym, ◌∙◌, ◌<◌, ◌-◌, refl, err, List, Result, [],
  ◌∷◌, ◌>>=◌, dec_le, zero, suc, ◌/◌, ok-injective, ◌⊎◌,
}
use fcr.Paymgr.Types.{Reservation}
use fcr.Paymgr.Price.RoundTrip.{Settled, IsRate, receive-pay}
use fcr.Base.Int.{pos, pos-add, pos_part, le→ltb, pos-sub, ℤ, lt→ltb}
use fcr.Paymgr.Price.{calculate_petty_amount_to_receive, Rate}
use fcr.Paymgr.Price.Conserve.{receive_conserves}
use fcr.Paymgr.Outbound.{Payment, pay_from}
use fcr.Paymgr.Price.Periods.{rate, tally, surcharge_on-pos, Starts-div, Starts}
use fcr.Paymgr.Reserve.{gross_amt_required, Request, outbound_rate, new_reservation}
use fcr.Paymgr.Coverage.Portion.{Covers, pay_from-fits, pay_from-exceeds}

-- The payments of `amounts` from one reservation, one after another.
abbrev pub pay_all : Payment → List ℕ → Reservation → Result Reservation
pay_all q [] r = ok r
pay_all q (a ∷ amounts) r =
    pay_from (record q { petty_amt_required = pos a }) r >>= λ w. pay_all q amounts w.0

abbrev sum : List ℕ → ℕ
sum [] = 0
sum (a ∷ amounts) = a + sum amounts

abbrev Positive : List ℕ → Type 0
Positive [] = Unit {0}
Positive (a ∷ amounts) = (0 < a) × Positive amounts

pay_all-fits :
    (p d whole due x s : ℕ) (q : Payment) (amounts : List ℕ) (r : Reservation)
    → IsRate p d
    → Positive amounts
    → Covers p d whole due x s r
    → x + sum amounts ≤ whole
    → (r' : Reservation) × (pay_all q amounts r ≡ ok r')
      × (r'.petty_amt_paid ≡ pos (x + sum amounts))
pay_all-fits p d whole due x s q [] r valid h c fits = (r, refl, c.paid ∙ ap pos (omega arith))
pay_all-fits p d whole due x s q (a ∷ amounts) r valid h c fits =
    let (r', g, s', pays, c') =
      pay_from-fits p d whole due x s a (record q { petty_amt_required = pos a }) r valid refl h.0 c
        (omega arith) in
    let (last, rest, paid) =
      pay_all-fits p d whole due (x + a) s' q amounts r' valid h.1 c' (omega arith) in
    (last, rw pays rest, paid ∙ ap pos (omega arith))

pay_all-exceeds :
    (p d whole due x s : ℕ) (q : Payment) (amounts : List ℕ) (r : Reservation)
    → IsRate p d
    → Positive amounts
    → Covers p d whole due x s r
    → x ≤ whole
    → whole < x + sum amounts
    → pay_all q amounts r ≡ err "reservation remain does not cover gross amount to pay"
pay_all-exceeds p d whole due x s q [] r valid h c within exceeds = absurd (omega arith)
pay_all-exceeds p d whole due x s q (a ∷ amounts) r valid h c within exceeds =
    elim (dec_le (x + a) whole) [
      | yes fits ↦
          let (r', g, s', pays, c') =
            pay_from-fits p d whole due x s a (record q { petty_amt_required = pos a }) r valid refl
              h.0 c fits in
          rw pays
            (pay_all-exceeds p d whole due (x + a) s' q amounts r' valid h.1 c' fits (omega arith))
      | no over ↦ rw (
          pay_from-exceeds p d whole due x s a (record q { petty_amt_required = pos a }) r valid
            refl h.0 c (omega arith))
    ]

-- What Reserve reserves for a petty amount, at a valid rate, is the amount with its surcharge.
gross_amt_required-pos :
    (p d whole : ℕ)
    → IsRate p d
    → 0 < whole
    → (due : ℕ) × (gross_amt_required (rate p d) (pos whole) ≡ ok (pos (whole + due)))
      × Settled p d whole due
unfolding gross_amt_required
gross_amt_required-pos zero d whole valid h =
    (0, ap (λ n. ok (pos n)) (omega arith), record { started = 0; charged = refl; used = inl refl })
gross_amt_required-pos (suc p) zero whole valid h = absurd (omega arith)
gross_amt_required-pos (suc p) (suc d) whole valid h =
    let k = suc ((whole - 1) / suc d) in
    (
      k * suc p,
      rw
          (
            lt→ltb (pos 0) (pos (suc p)) (omega arith),
            surcharge_on-pos (suc p) d whole h,
            pos-add (k * suc p) whole,
          )
          (ap (λ n. ok (pos n)) (omega arith)),
      record { started = k; charged = refl; used = inr (Starts-div d whole h) },
    )

nothing_started : (p d : ℕ) → IsRate p d → (p ≡ 0) ⊎ Starts d 0 0
nothing_started p d (inl free) = inl free.0
nothing_started p d (inr priced) = inr (record { covers = omega arith; last_used = omega arith })

reservation-Covers :
    (p d whole : ℕ) (q : Request) (inbound : Rate)
    → IsRate p d
    → 0 < whole
    → outbound_rate q.received_offer ≡ rate p d
    → (due : ℕ) × (gross_amt_required (rate p d) (pos whole) ≡ ok (pos (whole + due)))
      × Covers p d whole due 0 0 (new_reservation q (pos (whole + due)) inbound)
unfolding new_reservation
reservation-Covers p d whole q inbound valid h offered =
    let (due, gross, settled) = gross_amt_required-pos p d whole valid h in
    (
      due,
      gross,
      record {
        left = whole + due;
        priced = offered;
        paid = refl;
        charged = refl;
        remains = refl;
        settled = record { started = 0; charged = omega arith; used = nothing_started p d valid };
        in_full = settled;
        budget = omega arith;
      },
    )

-- A reservation made at the offer's valid rate for a positive petty amount `whole` carries every
-- sequence of positive payments that come to no more than `whole`, in whatever portions, and books
-- their sum as paid.
pub reservation_pays_in_full :
    (p d whole : ℕ) (q : Request) (inbound : Rate) (pay : Payment) (amounts : List ℕ) {gross : ℤ}
    → IsRate p d
    → 0 < whole
    → outbound_rate q.received_offer ≡ rate p d
    → gross_amt_required (rate p d) (pos whole) ≡ ok gross
    → Positive amounts
    → sum amounts ≤ whole
    → (r : Reservation) × (pay_all pay amounts (new_reservation q gross inbound) ≡ ok r)
      × (r.petty_amt_paid ≡ pos (sum amounts))
reservation_pays_in_full p d whole q inbound pay amounts valid h offered asked positive fits =
    let (due, gross, c) = reservation-Covers p d whole q inbound valid h offered in
    let (r, pays, paid) =
      pay_all-fits p d whole due 0 0 pay amounts _ valid positive c (omega arith) in
    rw (ok-injective (sym asked ∙ gross)) (r, pays, paid ∙ ap pos (omega arith))

-- A reservation made at the offer's valid rate for a positive petty amount `whole` refuses every
-- sequence of positive payments that come to more: one of them is not covered by what is left.
pub reservation_never_exceeded :
    (p d whole : ℕ) (q : Request) (inbound : Rate) (pay : Payment) (amounts : List ℕ) {gross : ℤ}
    → IsRate p d
    → 0 < whole
    → outbound_rate q.received_offer ≡ rate p d
    → gross_amt_required (rate p d) (pos whole) ≡ ok gross
    → Positive amounts
    → whole < sum amounts
    → pay_all pay amounts (new_reservation q gross inbound)
      ≡ err "reservation remain does not cover gross amount to pay"
reservation_never_exceeded p d whole q inbound pay amounts valid h offered asked positive exceeds =
    let (due, gross, c) = reservation-Covers p d whole q inbound valid h offered in
    rw (ok-injective (sym asked ∙ gross))
      (pay_all-exceeds p d whole due 0 0 pay amounts _ valid positive c (omega arith) (omega arith))
